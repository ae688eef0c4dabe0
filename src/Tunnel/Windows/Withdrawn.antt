-- ===== src/Tunnel/Windows/Withdrawn.antt =====
-- No route stays behind on Windows, whatever is asked of the tunnel and whichever call fails.
use vpnmgr.Common.{◌≡◌, refl, ap, Bool, true, false, Option, none, some, [], arith, if◌then◌else◌}
use vpnmgr.Common.Text.{Text}
use vpnmgr.Core.Net.{Cidr, SocketAddr}
use vpnmgr.Core.Key.{Base64}
use vpnmgr.Core.Wgconf.{AddrText}
use vpnmgr.Tunnel.Bypass.{Route, Bypass, new_bypass}
use vpnmgr.Tunnel.Bypass.Installed.{MainTable, install, remove, destinations}
use vpnmgr.Tunnel.Bypass.Installed.Restored.{IsTable}
use vpnmgr.Tunnel.Bypass.Installed.Calm.{
  Quiet, Quiet-refl, Kept, moved-Kept, remove-Kept, has-Kept, new-Kept, install-Kept,
}
use vpnmgr.Tunnel.Command.{System}
use vpnmgr.Tunnel.Spec.{TunnelSpec, BadName, validate}
use vpnmgr.Tunnel.Spec.Restores.{Restores}
use vpnmgr.Tunnel.Spec.Interface.{Outcome, done, failed}
use vpnmgr.Tunnel.WindowsKillswitch.{WindowsKillswitch, allowing, engage}
use vpnmgr.Tunnel.Windows.{
  WindowsTunnel, and_then, after_engage, engaged, service_exists, remove_service, write_config,
  install_service, service_then, up_valid, checked_up, up, switched, switch_endpoint, released,
  taken_down, down, dropped, close, located, new_tunnel, windows_backend,
}
use vpnmgr.Tunnel.Windows.Quiet.{
  IsQuiet, Apart, engage-quiet, install_written-quiet, cleared-quiet, gone-quiet, switched-quiet,
}

-- The tunnel has installed no route.
abbrev pub IsFresh : WindowsTunnel → Type 0
IsFresh t = t.bypass ≡ new_bypass

module _ {World : Type 0} (s : System World) (table : MainTable World) (b : Base64) (at : AddrText)
    (parse_endpoint : Text → Option SocketAddr) (same : Route → Route → Bool) (r : Route)
    (laws : IsTable table same) (own : Cidr → Bool) (Clear : World → Type 0)
    (Written : Text → World → Type 0)
    (quiet : IsQuiet s table b at parse_endpoint r own Clear Written) where
  abbrev has : World → Bool
  has w = table.route_exists r w

  abbrev Holds : World → Bypass → World → Type 0
  Holds before bypass w = Kept table Clear quiet.table_clear same r laws before bypass w

  abbrev Keeps : World → Outcome (Unit {0}) × WindowsTunnel × World → Type 0
  Keeps before q = Holds before q.1.bypass q.2

  move :
      (before : World) (bypass : Bypass) (w w' : World)
      → Quiet has Clear w w'
      → Holds before bypass w
      → Holds before bypass w'
  move before bypass w w' q h =
      moved-Kept table Clear quiet.table_clear same r laws before bypass w w' q h

  after_engage-Keeps :
      (before : World) (t : WindowsTunnel) (ks : WindowsKillswitch) (q : Outcome (Unit {0}) × World)
      → Holds before t.bypass q.1
      → Keeps before (after_engage s table b at parse_endpoint t ks q)
  unfolding after_engage
  after_engage-Keeps before t ks (failed e, w) h = h
  after_engage-Keeps before t ks (done u, w) h = h

  engaged-Keeps :
      (before : World) (t : WindowsTunnel) (ks : Option WindowsKillswitch) (w : World)
      → Holds before t.bypass w
      → Keeps before (engaged s table b at parse_endpoint t ks w)
  unfolding engaged
  engaged-Keeps before t none w h = h
  engaged-Keeps before t (some ks) w h =
      let ks' = allowing (destinations t.bypass) ks in
      after_engage-Keeps before t ks' (engage s ks' w) (
        move before t.bypass w (engage s ks' w).1
          (engage-quiet s table b at parse_endpoint r own Clear Written quiet ks' w) h)

  service_then-Keeps :
      (before : World) (t : WindowsTunnel) (q : Outcome (Unit {0}) × World)
      → Holds before t.bypass q.1
      → Keeps before (service_then s table b at parse_endpoint t q)
  unfolding service_then
  service_then-Keeps before t (failed e, w) h = h
  service_then-Keeps before t (done u, w) h = engaged-Keeps before t t.killswitch w h

  up_valid-Keeps :
      (spec : TunnelSpec) (t : WindowsTunnel) (w : World)
      → Apart own spec
      → IsFresh t
      → Clear w
      → Keeps w (up_valid s table b at parse_endpoint spec t w)
  unfolding up_valid
  up_valid-Keeps spec t w apart fresh clear =
      let there = service_exists s table b at parse_endpoint t w in
      let w2 =
        if there.0 then (remove_service s table b at parse_endpoint t there.1).1 else there.1 in
      let q = install table t.bypass_plan new_bypass w2 in
      let t1 : WindowsTunnel = record t { bypass = q.0; bypass_plan = [] } in
      let serviced =
        and_then s table b at parse_endpoint (write_config s table b at parse_endpoint spec t1 q.1)
          (install_service s table b at parse_endpoint t1) in
      rw fresh (
        service_then-Keeps w t1 serviced (
          move w q.0 q.1 serviced.1
            (install_written-quiet s table b at parse_endpoint r own Clear Written quiet spec t1 q.1
              apart)
            (install-Kept table Clear quiet.table_clear same r laws t.bypass_plan w w2
              (cleared-quiet s table b at parse_endpoint r own Clear Written quiet t w) clear)))

  checked_up-Keeps :
      (spec : TunnelSpec) (t : WindowsTunnel) (w : World) (o : Option BadName)
      → Apart own spec
      → IsFresh t
      → Clear w
      → Keeps w (checked_up s table b at parse_endpoint spec t w o)
  unfolding checked_up
  checked_up-Keeps spec t w (some name) apart fresh clear =
      rw fresh (new-Kept table Clear quiet.table_clear same r laws w w refl clear)
  checked_up-Keeps spec t w none apart fresh clear = up_valid-Keeps spec t w apart fresh clear

  up-Keeps :
      (spec : TunnelSpec) (t : WindowsTunnel) (w : World)
      → Apart own spec
      → IsFresh t
      → Clear w
      → Keeps w (up s table b at parse_endpoint spec t w)
  unfolding up
  up-Keeps spec t w apart fresh clear = checked_up-Keeps spec t w (validate spec) apart fresh clear

  switch-Keeps :
      (spec : TunnelSpec) (before : World) (t : WindowsTunnel) (w : World)
      → Apart own spec
      → Holds before t.bypass w
      → Keeps before (switch_endpoint s table b at parse_endpoint spec t w)
  unfolding switch_endpoint
  switch-Keeps spec before t w apart h =
      move before t.bypass w (switched s table b at parse_endpoint spec t w (validate spec)).1
        (switched-quiet s table b at parse_endpoint r own Clear Written quiet spec t w
          (validate spec))
        h

  taken_down-Keeps :
      (before : World) (t : WindowsTunnel) (q : Outcome (Unit {0}) × World)
      → Holds before t.bypass q.1
      → Keeps before (taken_down s table b at parse_endpoint t q)
  unfolding taken_down remove
  taken_down-Keeps before t (failed e, w) h = h
  taken_down-Keeps before t (done u, w) h =
      let q = remove table t.bypass w in
      move before q.0 q.1 (s.remove_file t.conf_path q.1).1 (quiet.remove_file t.conf_path q.1)
        (remove-Kept table Clear quiet.table_clear same r laws before t.bypass w h)

  down-Keeps :
      (before : World) (t : WindowsTunnel) (w : World)
      → Holds before t.bypass w
      → Keeps before (down s table b at parse_endpoint t w)
  unfolding down
  down-Keeps before t w h =
      let q =
        and_then s table b at parse_endpoint (remove_service s table b at parse_endpoint t w)
          (released s table b at parse_endpoint t.killswitch) in
      taken_down-Keeps before t q (
        move before t.bypass w q.1
          (gone-quiet s table b at parse_endpoint r own Clear Written quiet t w) h)

  dropped-Holds :
      (before : World) (installed : Bool) (t : WindowsTunnel) (w : World)
      → Holds before t.bypass w
      → let q = dropped s table b at parse_endpoint installed t w in Holds before q.0.bypass q.1
  unfolding dropped
  dropped-Holds before true t w h = down-Keeps before t w h
  dropped-Holds before false t w h = h

  close-Held :
      (before : World) (t : WindowsTunnel) (w : World)
      → Holds before t.bypass w
      → has (close s table b at parse_endpoint t w) ≡ has before
  unfolding close
  close-Held before t w h =
      let q = dropped s table b at parse_endpoint t.installed t w in
      has-Kept table Clear quiet.table_clear same r laws before q.0.bypass q.1
        (dropped-Holds before t.installed t w h)

  located-IsFresh :
      (found : Bool) (name : Text) (t : WindowsTunnel)
      → located s table b at parse_endpoint found name ≡ done t
      → IsFresh t
  unfolding located
  located-IsFresh true name t h = ground (arith, h)
  located-IsFresh false name t h = ground (arith, h)

  opened-IsFresh :
      (name : Text) (w w' : World) (t : WindowsTunnel)
      → new_tunnel s table b at parse_endpoint name w ≡ (done t, w')
      → IsFresh t
  unfolding new_tunnel
  opened-IsFresh name w w' t h = located-IsFresh _ name t (ap (λ q. q.0) h)

  opened-Quiet :
      (name : Text) (w : World)
      → Quiet has Clear w (new_tunnel s table b at parse_endpoint name w).1
  unfolding new_tunnel
  opened-Quiet name w = Quiet-refl has Clear w

  -- Where the table keeps IsTable and the calls of the system keep IsQuiet, the Windows backend keeps
  -- the contract for a route that its interface does not carry: bringing a tunnel up, switching its
  -- endpoint and taking it down, each whether it succeeds or fails at any call and with specifications
  -- whose addresses and ranges, also once its default routes are split, are not the route's, hold what
  -- was installed, and closing the tunnel then leaves the route there or absent as it was before.
  pub windows_backend-Restores :
      Restores (windows_backend s table b at parse_endpoint) has Clear (Apart own)
  unfolding windows_backend
  windows_backend-Restores = record {
    Fresh = IsFresh;
    Held = λ before t w. Holds before t.bypass w;
    opened = opened-IsFresh;
    open_keeps = opened-Quiet;
    bypass_fresh = λ rs t h. h;
    killswitch_fresh = λ ks t h. h;
    up_holds = up-Keeps;
    switch_holds = switch-Keeps;
    down_holds = down-Keeps;
    close_restores = close-Held;
  }
