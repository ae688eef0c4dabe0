-- ===== src/Tunnel/Windows/Quiet.antt =====
-- Which calls on Windows leave a route of the main table alone that is not of the tunnel's own ranges.
use vpnmgr.Common.{
  ◌≡◌, refl, Bool, true, false, Option, none, some, List, [], ◌∷◌, any, arith, if◌then◌else◌,
  Bool-cases, inl, inr, is_empty,
}
use vpnmgr.Common.Text.{Text, text}
use vpnmgr.Core.Net.{Cidr, SocketAddr}
use vpnmgr.Core.Config.{ClientConfig}
use vpnmgr.Core.Key.{Base64}
use vpnmgr.Core.Wgconf.{AddrText}
use vpnmgr.Core.Render.{to_conf}
use vpnmgr.Tunnel.Bypass.{Route}
use vpnmgr.Tunnel.Bypass.Installed.{MainTable}
use vpnmgr.Tunnel.Bypass.Installed.Calm.{Quiet, Quiet-refl, Quiet_trans, KeepsClear}
use vpnmgr.Tunnel.Command.{System, config_dir}
use vpnmgr.Tunnel.Halves.{split_default_routes}
use vpnmgr.Tunnel.Spec.{TunnelSpec, BadName}
use vpnmgr.Tunnel.Spec.Interface.{Outcome, done, failed}
use vpnmgr.Tunnel.WindowsKillswitch.{
  WindowsKillswitch, script, release_script, powershell, engage, or_rolled_back, release,
}
use vpnmgr.Tunnel.Windows.{
  WindowsTunnel, wireguard_exe, wg_exe, and_then, killswitch_failed, effective, run, service_exists,
  remove_service, lock_down, write_config, install_service, retarget, switched, released,
}

-- Neither the addresses of the configuration nor its allowed ranges are the route's, as `own` tells.
abbrev pub Avoids : (Cidr → Bool) → ClientConfig → Type 0
Avoids own c = (any own c.addresses ≡ false) × (any own c.allowed_ips ≡ false)

-- So for the configuration as it is and with its default routes split.
abbrev pub Apart : (Cidr → Bool) → TunnelSpec → Type 0
Apart own spec = Avoids own spec.client × Avoids own (split_default_routes spec.client)

-- A world is `Clear` in which no interface of ours carries the route, and the file of a path is
-- `Written` with a configuration that avoids it. The service brings the routes of its configuration
-- alone and takes those with it; firewall rules, access lists, wg.exe and files do not touch the table.
pub record IsQuiet {World : Type 0} (s : System World) (table : MainTable World) (b : Base64)
    (at : AddrText) (parse_endpoint : Text → Option SocketAddr) (r : Route) (own : Cidr → Bool)
    (Clear : World → Type 0) (Written : Text → World → Type 0) : Type 0 where
  pub table_clear : KeepsClear table Clear
  pub engage_rules :
      (ks : WindowsKillswitch) (w : World)
      → Quiet (table.route_exists r) Clear w (powershell s (script s ks) w).1
  pub release_rules :
      (w : World) → Quiet (table.route_exists r) Clear w (powershell s (release_script s) w).1
  pub icacls :
      (args : List Text) (w : World)
      → Quiet (table.route_exists r) Clear w (s.spawn (text "icacls") args w).1
  pub wg :
      (args : List Text) (w : World)
      → Quiet (table.route_exists r) Clear w (s.spawn (wg_exe s table b at parse_endpoint) args w).1
  pub uninstall :
      (name : Text) (w : World)
      → Quiet
          (table.route_exists r)
          Clear
          w
          (s.spawn
            (wireguard_exe s table b at parse_endpoint)
            (text "/uninstalltunnelservice" ∷ name ∷ [])
            w).1
  pub install :
      (path : Text) (w : World)
      → Written path w
      → Quiet
          (table.route_exists r)
          Clear
          w
          (s.spawn
            (wireguard_exe s table b at parse_endpoint)
            (text "/installtunnelservice" ∷ path ∷ [])
            w).1
  pub written :
      (path : Text) (c : ClientConfig) (e : SocketAddr) (w : World)
      → Avoids own c
      → (s.write_file path (to_conf b at c e) w).0 ≡ done tt
      → Written path (s.write_file path (to_conf b at c e) w).1
  pub create_dir_all :
      (dir : Text) (w : World) → Quiet (table.route_exists r) Clear w (s.create_dir_all dir w).1
  pub write_file :
      (path contents : Text) (w : World)
      → Quiet (table.route_exists r) Clear w (s.write_file path contents w).1
  pub remove_file :
      (path : Text) (w : World) → Quiet (table.route_exists r) Clear w (s.remove_file path w).1

module _ {World : Type 0} (s : System World) (table : MainTable World) (b : Base64) (at : AddrText)
    (parse_endpoint : Text → Option SocketAddr) (r : Route) (own : Cidr → Bool)
    (Clear : World → Type 0) (Written : Text → World → Type 0)
    (quiet : IsQuiet s table b at parse_endpoint r own Clear Written) where
  abbrev Calm : World → World → Type 0
  Calm w w' = Quiet (table.route_exists r) Clear w w'

  Calm-refl : (w : World) → Calm w w
  Calm-refl w = Quiet-refl (table.route_exists r) Clear w

  Calm-trans : (u v w : World) → Calm u v → Calm v w → Calm u w
  Calm-trans u v w h g = Quiet_trans (table.route_exists r) Clear u v w h g

  release-quiet : (w : World) → Calm w (release s w).1
  unfolding release
  release-quiet w = quiet.release_rules w

  or_rolled_back-quiet : (o : Outcome (Unit {0})) (w : World) → Calm w (or_rolled_back s o w).1
  unfolding or_rolled_back
  or_rolled_back-quiet (done u) w = Calm-refl w
  or_rolled_back-quiet (failed e) w = release-quiet w

  pub engage-quiet : (ks : WindowsKillswitch) (w : World) → Calm w (engage s ks w).1
  unfolding engage
  engage-quiet ks w =
      let w' = (powershell s (script s ks) w).1 in
      Calm-trans w w' _ (quiet.engage_rules ks w) (or_rolled_back-quiet _ w')

  and_then-quiet :
      (before : World) (q : Outcome (Unit {0}) × World) (next : World → Outcome (Unit {0}) × World)
      → Calm before q.1
      → ((w : World) → Calm w (next w).1)
      → Calm before (and_then s table b at parse_endpoint q next).1
  and_then-quiet before (failed e, w) next h go = h
  and_then-quiet before (done u, w) next h go = Calm-trans before w (next w).1 h (go w)

  -- A call that needs the file which the one before wrote.
  and_then_written-quiet :
      (path : Text) (before : World) (q : Outcome (Unit {0}) × World)
      (next : World → Outcome (Unit {0}) × World)
      → Calm before q.1
      → (q.0 ≡ done tt → Written path q.1)
      → ((w : World) → Written path w → Calm w (next w).1)
      → Calm before (and_then s table b at parse_endpoint q next).1
  and_then_written-quiet path before (failed e, w) next h there go = h
  and_then_written-quiet path before (done u, w) next h there go =
      Calm-trans before w (next w).1 h (go w (there refl))

  and_then-Written :
      (path : Text) (q : Outcome (Unit {0}) × World) (next : World → Outcome (Unit {0}) × World)
      → ((w : World) → (next w).0 ≡ done tt → Written path (next w).1)
      → (and_then s table b at parse_endpoint q next).0 ≡ done tt
      → Written path (and_then s table b at parse_endpoint q next).1
  and_then-Written path (failed e, w) next go h = ground (arith, h)
  and_then-Written path (done u, w) next go h = go w h

  killswitch_failed-done :
      (operation : Text) (o : Outcome (Unit {0}))
      → killswitch_failed s table b at parse_endpoint operation o ≡ done tt
      → o ≡ done tt
  killswitch_failed-done operation (done u) h = refl
  killswitch_failed-done operation (failed e) h = ground (arith, h)

  effective-Avoids :
      (spec : TunnelSpec) (t : WindowsTunnel)
      → Apart own spec
      → Avoids own (effective s table b at parse_endpoint spec t)
  effective-Avoids spec t apart = elim (Bool-cases (is_empty t.bypass.installed)) [
    | inl e ↦ rw e apart.0
    | inr e ↦ rw e apart.1
  ]

  lock_down-quiet : (w : World) → Calm w (lock_down s table b at parse_endpoint w)
  unfolding lock_down run
  lock_down-quiet w = quiet.icacls _ w

  pub write_config-quiet :
      (spec : TunnelSpec) (t : WindowsTunnel) (w : World)
      → Calm w (write_config s table b at parse_endpoint spec t w).1
  unfolding write_config
  write_config-quiet spec t w = and_then-quiet w _ _ (quiet.create_dir_all _ w) (λ w1.
      let w2 = lock_down s table b at parse_endpoint w1 in
      Calm-trans w1 w2 _ (lock_down-quiet w1) (quiet.write_file _ _ w2))

  write_config-Written :
      (spec : TunnelSpec) (t : WindowsTunnel) (w : World)
      → Apart own spec
      → (write_config s table b at parse_endpoint spec t w).0 ≡ done tt
      → Written t.conf_path (write_config s table b at parse_endpoint spec t w).1
  unfolding write_config
  write_config-Written spec t w apart =
      let made = s.create_dir_all (config_dir s) w in
      let c = effective s table b at parse_endpoint spec t in
      let outcome =
        killswitch_failed s table b at parse_endpoint (text "creating the configuration directory")
          made.0 in
      let written : World → Outcome (Unit {0}) × World = λ w1.
        s.write_file t.conf_path (to_conf b at c spec.endpoint)
          (lock_down s table b at parse_endpoint w1) in
      let operation = text "writing the tunnel configuration" in
      and_then-Written t.conf_path (outcome, made.1)
        (λ w1.
          (killswitch_failed s table b at parse_endpoint operation (written w1).0, (written w1).1))
        (λ w1 h.
          quiet.written t.conf_path c spec.endpoint (lock_down s table b at parse_endpoint w1)
            (effective-Avoids spec t apart) (killswitch_failed-done operation (written w1).0 h))

  pub install_written-quiet :
      (spec : TunnelSpec) (t : WindowsTunnel) (w : World)
      → Apart own spec
      → Calm w
          (and_then s table b at parse_endpoint
            (write_config s table b at parse_endpoint spec t w)
            (install_service s table b at parse_endpoint t)).1
  unfolding install_service run
  install_written-quiet spec t w apart =
      and_then_written-quiet t.conf_path w (write_config s table b at parse_endpoint spec t w)
        (install_service s table b at parse_endpoint t) (write_config-quiet spec t w)
        (write_config-Written spec t w apart) (λ w1 there. quiet.install t.conf_path w1 there)

  remove_service-quiet :
      (t : WindowsTunnel) (w : World) → Calm w (remove_service s table b at parse_endpoint t w).1
  unfolding remove_service run
  remove_service-quiet t w = quiet.uninstall t.interface w

  service_exists-quiet :
      (t : WindowsTunnel) (w : World) → Calm w (service_exists s table b at parse_endpoint t w).1
  unfolding service_exists run
  service_exists-quiet t w = quiet.wg _ w

  removed_if-quiet :
      (there : Bool) (t : WindowsTunnel) (w : World)
      → Calm w (if there then (remove_service s table b at parse_endpoint t w).1 else w)
  removed_if-quiet true t w = remove_service-quiet t w
  removed_if-quiet false t w = Calm-refl w

  pub cleared-quiet :
      (t : WindowsTunnel) (w : World)
      → let there = service_exists s table b at parse_endpoint t w in
        Calm w
          (if there.0 then (remove_service s table b at parse_endpoint t there.1).1 else there.1)
  cleared-quiet t w =
      let there = service_exists s table b at parse_endpoint t w in
      Calm-trans w there.1 _ (service_exists-quiet t w) (removed_if-quiet there.0 t there.1)

  released-quiet :
      (ks : Option WindowsKillswitch) (w : World)
      → Calm w (released s table b at parse_endpoint ks w).1
  unfolding released
  released-quiet none w = Calm-refl w
  released-quiet (some ks) w = release-quiet w

  pub gone-quiet :
      (t : WindowsTunnel) (w : World)
      → Calm w
          (and_then s table b at parse_endpoint
            (remove_service s table b at parse_endpoint t w)
            (released s table b at parse_endpoint t.killswitch)).1
  gone-quiet t w =
      and_then-quiet w (remove_service s table b at parse_endpoint t w)
        (released s table b at parse_endpoint t.killswitch) (remove_service-quiet t w)
        (released-quiet t.killswitch)

  retarget-quiet :
      (spec : TunnelSpec) (t : WindowsTunnel) (w : World)
      → Calm w (retarget s table b at parse_endpoint spec t w).1
  unfolding retarget run
  retarget-quiet spec t w =
      and_then-quiet w _ _ (quiet.wg _ w)
        (λ w1. Calm-trans w1 _ _ (quiet.wg _ w1) (write_config-quiet spec t _))

  pub switched-quiet :
      (spec : TunnelSpec) (t : WindowsTunnel) (w : World) (o : Option BadName)
      → Calm w (switched s table b at parse_endpoint spec t w o).1
  unfolding switched
  switched-quiet spec t w (some name) = Calm-refl w
  switched-quiet spec t w none = retarget-quiet spec t w
