-- ===== src/Tunnel/Windows.antt =====
-- crates/vpnmgr-tunnel/src/windows.rs: the backend over the WireGuard tunnel service.
pub mod Quiet
pub mod Withdrawn
pub mod Tests
use vpnmgr.Common.{
  ℕ, ◌*◌, ◌^◌, Bool, true, false, not, ◌&&◌, ◌||◌, Option, none, some, is_some, List, [], ◌∷◌, ◌++◌,
  ◌==◌, first, get_elem?, is_empty, if◌then◌else◌, ltb,
}
use vpnmgr.Common.Text.{Text, text, text_eq, trim, print_nat}
use vpnmgr.Common.Scan.{lines, split_at, parse_below}
use vpnmgr.Core.Net.{IpAddr, v4, v6, SocketAddr, Cidr}
use vpnmgr.Core.Config.{ClientConfig}
use vpnmgr.Core.Key.{Base64}
use vpnmgr.Core.Wgconf.{AddrText}
use vpnmgr.Core.Render.{to_conf, show_endpoint}
use vpnmgr.Tunnel.Bypass.{Route, Bypass, new_bypass}
use vpnmgr.Tunnel.Bypass.Installed.{MainTable, install, remove, destinations}
use vpnmgr.Tunnel.Command.{
  Spawned, Removed, removed, not_found, not_removed, System, CommandError, Ran, output, error, ran,
  denied, show_error, join_path, config_dir,
}
use vpnmgr.Tunnel.Device.{show_bad_name}
use vpnmgr.Tunnel.Halves.{split_default_routes}
use vpnmgr.Tunnel.WgShow.{status_of}
use vpnmgr.Tunnel.Spec.{TunnelSpec, TunnelStatus, BadName, validate}
use vpnmgr.Tunnel.Spec.Interface.{Outcome, done, failed, Backend}
use vpnmgr.Tunnel.WindowsKillswitch.{WindowsKillswitch, killswitch_for, allowing, engage, release}

pub record WindowsTunnel : Type 0 where
  pub interface : Text
  pub conf_path : Text
  pub installed : Bool
  pub bypass_plan : List Route
  pub bypass : Bypass
  pub killswitch : Option WindowsKillswitch

module _ {World : Type 0} (s : System World) (table : MainTable World) (b : Base64) (at : AddrText)
    (parse_endpoint : Text → Option SocketAddr) where
  pub wireguard_exe : Text
  wireguard_exe = text "C:\\Program Files\\WireGuard\\wireguard.exe"

  pub wg_exe : Text
  wg_exe = text "C:\\Program Files\\WireGuard\\wg.exe"

  pub run : Text → List Text → World → Ran × World
  unfolding ran
  run program args w = let (r, w') = s.spawn program args w in (ran program r, w')

  -- `classify`: a refusal for want of rights has its own message.
  classify : Text → Text → CommandError → Text
  unfolding denied show_error
  classify interface operation e =
      if denied e
      then operation
        ++ (text " on interface "
            ++ (interface
                ++ text
                    " needs root (CAP_NET_ADMIN); run vpnmgrd as a system service rather than as your user"))
      else operation ++ (text " on interface " ++ (interface ++ (text " failed: " ++ show_error e)))

  classified : Text → Text → Ran → Outcome (Unit {0})
  unfolding classify
  classified interface operation (output t) = done tt
  classified interface operation (error e) = failed (classify interface operation e)

  abbrev succeeded : Ran → Bool
  succeeded (output t) = true
  succeeded (error e) = false

  -- The next call, unless this one failed.
  abbrev pub and_then :
      Outcome (Unit {0}) × World → (World → Outcome (Unit {0}) × World) → Outcome (Unit {0}) × World
  and_then (failed e, w) next = (failed e, w)
  and_then (done u, w) next = next w

  pub located : Bool → Text → Outcome WindowsTunnel
  unfolding wireguard_exe join_path config_dir
  located false interface = failed (
      text "locating wireguard.exe on interface "
      ++ (interface
          ++ (text " failed: "
              ++ (wireguard_exe
                  ++ text
                      " not found. Install WireGuard for Windows (winget install WireGuard.WireGuard)"))))
  located true interface = done (record {
    interface = interface;
    conf_path = join_path (config_dir s) (interface ++ text ".conf");
    installed = false;
    bypass_plan = [];
    bypass = new_bypass;
    killswitch = none;
  })

  unfoldable pub new_tunnel : Text → World → Outcome WindowsTunnel × World
  unfolding located wireguard_exe
  new_tunnel interface w = (located (s.exists wireguard_exe w) interface, w)

  pub service_exists : WindowsTunnel → World → Bool × World
  unfolding run wg_exe
  service_exists t w =
      let (r, w') = run wg_exe (text "show" ∷ t.interface ∷ []) w in (succeeded r, w')

  abbrev pub killswitch_failed : Text → Outcome (Unit {0}) → Outcome (Unit {0})
  killswitch_failed operation (done u) = done u
  killswitch_failed operation (failed e) =
      failed (operation ++ (text " the kill switch failed: " ++ e))

  -- A directory that could not be locked down is only logged.
  pub lock_down : World → World
  unfolding run config_dir
  lock_down w =
      (run (text "icacls")
        (config_dir s
          ∷ text "/inheritance:r"
          ∷ text "/grant:r"
          ∷ text "*S-1-5-18:(OI)(CI)F"
          ∷ text "/grant:r"
          ∷ text "*S-1-5-32-544:(OI)(CI)F"
          ∷ [])
        w).1

  -- With something to bypass, WireGuard's own filters are kept out by splitting the default routes.
  abbrev pub effective : TunnelSpec → WindowsTunnel → ClientConfig
  effective spec t =
      if is_empty t.bypass.installed then spec.client else split_default_routes spec.client

  unfoldable pub write_config : TunnelSpec → WindowsTunnel → World → Outcome (Unit {0}) × World
  unfolding lock_down config_dir
  write_config spec t w =
      let (made, w1) = s.create_dir_all (config_dir s) w in
      and_then (killswitch_failed (text "creating the configuration directory") made, w1)
        (λ w2.
          let (written, w3) =
            s.write_file t.conf_path (to_conf b at (effective spec t) spec.endpoint)
              (lock_down w2) in
          (killswitch_failed (text "writing the tunnel configuration") written, w3))

  pub remove_service : WindowsTunnel → World → Outcome (Unit {0}) × World
  unfolding run wireguard_exe classified
  remove_service t w =
      let (r, w') = run wireguard_exe (text "/uninstalltunnelservice" ∷ t.interface ∷ []) w in
      (classified t.interface (text "removing the tunnel service") r, w')

  -- The kill switch was taken out for the call, and is put back only if it succeeded.
  pub after_engage :
      WindowsTunnel
      → WindowsKillswitch
      → Outcome (Unit {0}) × World
      → Outcome (Unit {0}) × WindowsTunnel × World
  after_engage t ks (failed e, w) = (failed e, record t { killswitch = none }, w)
  after_engage t ks (done u, w) = (done u, record t { killswitch = some ks; installed = true }, w)

  pub engaged :
      WindowsTunnel → Option WindowsKillswitch → World → Outcome (Unit {0}) × WindowsTunnel × World
  unfolding after_engage
  engaged t none w = (done tt, record t { installed = true }, w)
  engaged t (some ks) w =
      let ks' = allowing (destinations t.bypass) ks in after_engage t ks' (engage s ks' w)

  pub service_then :
      WindowsTunnel → Outcome (Unit {0}) × World → Outcome (Unit {0}) × WindowsTunnel × World
  unfolding engaged
  service_then t (failed e, w) = (failed e, t, w)
  service_then t (done u, w) = engaged t t.killswitch w

  pub install_service : WindowsTunnel → World → Outcome (Unit {0}) × World
  unfolding run wireguard_exe classified
  install_service t w =
      let (r, w') = run wireguard_exe (text "/installtunnelservice" ∷ t.conf_path ∷ []) w in
      (classified t.interface (text "installing the tunnel service") r, w')

  pub up_valid : TunnelSpec → WindowsTunnel → World → Outcome (Unit {0}) × WindowsTunnel × World
  unfolding service_exists remove_service service_then install_service
  up_valid spec t w =
      let (there, w1) = service_exists t w in
      let w2 = if there then (remove_service t w1).1 else w1 in
      let (bypass, w3) = install table t.bypass_plan t.bypass w2 in
      let t1 : WindowsTunnel = record t { bypass = bypass; bypass_plan = [] } in
      service_then t1 (and_then (write_config spec t1 w3) (install_service t1))

  pub checked_up :
      TunnelSpec
      → WindowsTunnel
      → World
      → Option BadName
      → Outcome (Unit {0}) × WindowsTunnel × World
  unfolding up_valid
  checked_up spec t w (some name) = (failed (show_bad_name name), t, w)
  checked_up spec t w none = up_valid spec t w

  unfoldable pub up :
      TunnelSpec → WindowsTunnel → World → Outcome (Unit {0}) × WindowsTunnel × World
  unfolding checked_up
  up spec t w = checked_up spec t w (validate spec)

  -- A listen port that could not be rotated is only logged.
  pub retarget : TunnelSpec → WindowsTunnel → World → Outcome (Unit {0}) × World
  unfolding run wg_exe classified
  retarget spec t w =
      let (r, w1) =
        run wg_exe
          (text "set"
            ∷ t.interface
            ∷ text "peer"
            ∷ b.encode spec.client.peer_public_key
            ∷ text "endpoint"
            ∷ show_endpoint at spec.endpoint
            ∷ [])
          w in
      and_then (classified t.interface (text "retargeting the peer") r, w1)
        (λ w2.
          write_config spec t
            (run wg_exe (text "set" ∷ t.interface ∷ text "listen-port" ∷ text "0" ∷ []) w2).1)

  pub switched : TunnelSpec → WindowsTunnel → World → Option BadName → Outcome (Unit {0}) × World
  unfolding retarget
  switched spec t w (some name) = (failed (show_bad_name name), w)
  switched spec t w none = retarget spec t w

  unfoldable pub switch_endpoint :
      TunnelSpec → WindowsTunnel → World → Outcome (Unit {0}) × WindowsTunnel × World
  unfolding switched
  switch_endpoint spec t w = let (o, w') = switched spec t w (validate spec) in (o, t, w')

  pub released : Option WindowsKillswitch → World → Outcome (Unit {0}) × World
  released none w = (done tt, w)
  released (some ks) w = release s w

  -- The routes and the file go only once the service and the kill switch are gone.
  pub taken_down :
      WindowsTunnel → Outcome (Unit {0}) × World → Outcome (Unit {0}) × WindowsTunnel × World
  taken_down t (failed e, w) = (failed e, t, w)
  taken_down t (done u, w) =
      let (bypass, w1) = remove table t.bypass w in
      (done tt, record t { bypass = bypass; installed = false }, (s.remove_file t.conf_path w1).1)

  unfoldable pub down : WindowsTunnel → World → Outcome (Unit {0}) × WindowsTunnel × World
  unfolding remove_service released taken_down
  down t w = taken_down t (and_then (remove_service t w) (released t.killswitch))

  -- `Drop`, by whether we installed the service, and then that of the bypass.
  pub dropped : Bool → WindowsTunnel → World → WindowsTunnel × World
  unfolding down
  dropped true t w = let (o, t', w') = down t w in (t', w')
  dropped false t w = (t, w)

  unfoldable pub close : WindowsTunnel → World → World
  unfolding dropped
  close t w = let (t', w') = dropped t.installed t w in (remove table t'.bypass w').1

  wg_field : Text → Text → World → Ran × World
  unfolding run wg_exe
  wg_field interface field w = run wg_exe (text "show" ∷ interface ∷ field ∷ []) w

  abbrev ok : Ran → Option Text
  ok (output t) = some t
  ok (error e) = none

  -- An interface that is not there is down, which is no error. The calls only read.
  unfoldable pub status : WindowsTunnel → World → Outcome TunnelStatus
  unfolding wg_field
  status t w =
      let (port, w1) = wg_field t.interface (text "listen-port") w in
      let (endpoints, w2) = wg_field t.interface (text "endpoints") w1 in
      let (handshakes, w3) = wg_field t.interface (text "latest-handshakes") w2 in
      let (transfer, w4) = wg_field t.interface (text "transfer") w3 in
      done (
        status_of parse_endpoint t.interface (ok port) (ok endpoints) (ok handshakes) (ok transfer))

  -- What the daemon works with; it makes the kill switch from the same three values on both platforms.
  unfoldable pub windows_backend : Backend World
  unfolding new_tunnel up switch_endpoint down status close killswitch_for
  windows_backend = record {
    Tunnel = WindowsTunnel;
    open_tunnel = new_tunnel;
    with_bypass = λ routes t. record t { bypass_plan = routes };
    with_killswitch =
        λ ks t. record t { killswitch = some (killswitch_for ks.interface ks.fwmark ks.allow_lan) };
    up = up;
    switch_endpoint = switch_endpoint;
    down = down;
    status = status;
    close = close;
  }
