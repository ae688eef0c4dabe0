-- ===== src/Tunnel/Linux/Withdrawn.antt =====
-- A tunnel leaves no route behind, whatever is asked of it and whichever call fails.
use vpnmgr.Common.{◌≡◌, refl, Bool, Option, none, some, [], arith, if◌then◌else◌}
use vpnmgr.Common.Text.{Text}
use vpnmgr.Core.Net.{Cidr}
use vpnmgr.Tunnel.Bypass.{Route, Bypass, new_bypass}
use vpnmgr.Tunnel.Bypass.Installed.{install, remove}
use vpnmgr.Tunnel.Bypass.Installed.Restored.{IsTable}
use vpnmgr.Tunnel.Bypass.Installed.Calm.{
  Quiet, Quiet-refl, Kept, moved-Kept, remove-Kept, has-Kept, new-Kept, install-Kept,
}
use vpnmgr.Tunnel.Spec.{TunnelSpec, BadName, validate}
use vpnmgr.Tunnel.Spec.Restores.{Restores}
use vpnmgr.Tunnel.Spec.Interface.{Outcome, done, failed}
use vpnmgr.Tunnel.Device.{new_tunnel, Kernel, LinuxTunnel}
use vpnmgr.Tunnel.Linux.{
  configure, created_then, bring_up, engage_over, release_if, finish_up, engaged_then, up_valid,
  checked_up, up, retarget, down, close, opened, linux_backend,
}
use vpnmgr.Tunnel.Linux.Quiet.{
  IsQuiet, Apart, has, configure-quiet, retarget-quiet, release_if-quiet, released-quiet,
  close_interface-quiet, engage_over-quiet,
}

-- The tunnel has installed no route.
abbrev pub IsFresh : LinuxTunnel → Type 0
IsFresh t = t.bypass ≡ new_bypass

module _ {World : Type 0} (k : Kernel World) (same : Route → Route → Bool) (s : Route)
    (laws : IsTable k.table same) (own : Cidr → Bool) (Clear : World → Type 0)
    (quiet : IsQuiet k s own Clear) where
  abbrev Holds : World → Bypass → World → Type 0
  Holds before b w = Kept k.table Clear quiet.table same s laws before b w

  move :
      (before : World) (b : Bypass) (w w' : World)
      → Quiet (has k s) Clear w w'
      → Holds before b w
      → Holds before b w'
  move before b w w' q h = moved-Kept k.table Clear quiet.table same s laws before b w w' q h

  close-Held :
      (before : World) (t : LinuxTunnel) (w : World)
      → Holds before t.bypass w
      → has k s (close k t w) ≡ has k s before
  unfolding close
  close-Held before t w h =
      let w1 = if t.created then (k.remove_interface t.interface w).1 else w in
      let w2 = release_if k t.killswitch w1 in
      has-Kept k.table Clear quiet.table same s laws before t.bypass w2 (
        move before t.bypass w1 w2 (release_if-quiet k s own Clear quiet t.killswitch w1)
          (move before t.bypass w w1 (close_interface-quiet k s own Clear quiet t w) h))

  Keeps : World → Outcome (Unit {0}) × LinuxTunnel × World → Type 0
  Keeps before r = Holds before r.1.bypass r.2

  created_then-Keeps :
      (before : World) (spec : TunnelSpec) (t : LinuxTunnel) (r : Outcome (Unit {0}) × World)
      → Apart own spec
      → Holds before t.bypass r.1
      → Keeps before (created_then k spec t r)
  unfolding Keeps created_then
  created_then-Keeps before spec t (failed e, w) apart h = h
  created_then-Keeps before spec t (done u, w) apart h =
      move before t.bypass w (configure k t.interface spec w).1
        (configure-quiet k s own Clear quiet t.interface spec w apart) h

  bring_up-Keeps :
      (before : World) (spec : TunnelSpec) (t : LinuxTunnel) (w : World)
      → Apart own spec
      → Holds before t.bypass w
      → Keeps before (bring_up k spec t w)
  unfolding bring_up
  bring_up-Keeps before spec t w apart h =
      created_then-Keeps before spec t (k.create_interface t.interface w) apart
        (move before t.bypass w (k.create_interface t.interface w).1 (quiet.create t.interface w) h)

  finish_up-Keeps :
      (before : World) (r : Outcome (Unit {0}) × LinuxTunnel × World)
      → Keeps before r
      → Keeps before (finish_up k r)
  unfolding Keeps finish_up remove
  finish_up-Keeps before (done u, t, w) h = h
  finish_up-Keeps before (failed e, t, w) h =
      let q = remove k.table t.bypass w in
      move before q.0 q.1 (release_if k t.killswitch q.1)
        (release_if-quiet k s own Clear quiet t.killswitch q.1)
        (remove-Kept k.table Clear quiet.table same s laws before t.bypass w h)

  engaged_then-Keeps :
      (before : World) (spec : TunnelSpec) (t : LinuxTunnel) (r : Outcome (Unit {0}) × World)
      → Apart own spec
      → Holds before t.bypass r.1
      → Keeps before (engaged_then k spec t r)
  unfolding Keeps engaged_then
  engaged_then-Keeps before spec t (failed e, w) apart h = h
  engaged_then-Keeps before spec t (done u, w) apart h =
      finish_up-Keeps before (bring_up k spec t w) (bring_up-Keeps before spec t w apart h)

  up_valid-Keeps :
      (spec : TunnelSpec) (t : LinuxTunnel) (w : World)
      → Apart own spec
      → IsFresh t
      → Clear w
      → Keeps w (up_valid k spec t w)
  unfolding up_valid
  up_valid-Keeps spec t w apart fresh clear =
      let q = install k.table t.bypass_plan new_bypass w in
      let t1 : LinuxTunnel = record t { bypass = q.0; bypass_plan = [] } in
      let e = engage_over k t1.killswitch q.0 q.1 in
      rw fresh (
        engaged_then-Keeps w spec t1 e apart (
          move w q.0 q.1 e.1 (engage_over-quiet k s own Clear quiet t1.killswitch q.0 q.1) (
            install-Kept k.table Clear quiet.table same s laws t.bypass_plan w w
              (Quiet-refl (has k s) Clear w) clear)))

  checked_up-Keeps :
      (spec : TunnelSpec) (t : LinuxTunnel) (w : World) (o : Option BadName)
      → Apart own spec
      → IsFresh t
      → Clear w
      → Keeps w (checked_up k spec t w o)
  unfolding Keeps checked_up
  checked_up-Keeps spec t w (some bad) apart fresh clear =
      rw fresh (new-Kept k.table Clear quiet.table same s laws w w refl clear)
  checked_up-Keeps spec t w none apart fresh clear = up_valid-Keeps spec t w apart fresh clear

  up-Holds :
      (spec : TunnelSpec) (t : LinuxTunnel) (w : World)
      → Apart own spec
      → IsFresh t
      → Clear w
      → let r = up k spec t w in Holds w r.1.bypass r.2
  unfolding up Keeps
  up-Holds spec t w apart fresh clear = checked_up-Keeps spec t w (validate spec) apart fresh clear

  switch-Holds :
      (spec : TunnelSpec) (before : World) (t : LinuxTunnel) (w : World)
      → Apart own spec
      → Holds before t.bypass w
      → let r = retarget k spec t w in Holds before r.1.bypass r.2
  unfolding retarget
  switch-Holds spec before t w apart h =
      move before t.bypass w (retarget k spec t w).2
        (retarget-quiet k s own Clear quiet spec t w apart) h

  down-Holds :
      (before : World) (t : LinuxTunnel) (w : World)
      → Holds before t.bypass w
      → let r = down k t w in Holds before r.1.bypass r.2
  unfolding down remove
  down-Holds before t w h =
      let gone = k.remove_interface t.interface w in
      let q = remove k.table t.bypass gone.1 in
      move before q.0 q.1 _ (released-quiet k s own Clear quiet t.killswitch q.1 gone.0) (
        remove-Kept k.table Clear quiet.table same s laws before t.bypass gone.1
          (move before t.bypass w gone.1 (quiet.remove t.interface w) h))

  opened-IsFresh :
      (name : Text) (w : World) (o : Outcome (Unit {0}) × World) {w' : World} {t : LinuxTunnel}
      → opened k name o ≡ (done t, w')
      → IsFresh t
  unfolding opened new_tunnel
  opened-IsFresh name w (failed e, w1) h = ground (arith, h)
  opened-IsFresh name w (done u, w1) h = ground (arith, h)

  opened-Quiet :
      (name : Text) (w : World) (o : Outcome (Unit {0}) × World)
      → Quiet (has k s) Clear w o.1
      → Quiet (has k s) Clear w (opened k name o).1
  unfolding opened
  opened-Quiet name w (failed e, w1) q = q
  opened-Quiet name w (done u, w1) q = q

  -- Where the table keeps IsTable and the kernel's calls keep IsQuiet, the Linux backend keeps the
  -- contract for a route that its interface does not carry: bringing a tunnel up, switching its endpoint
  -- and taking it down, each whether it succeeds or fails at any call and with specifications whose
  -- addresses and ranges are not the route's, hold what was installed, and closing the tunnel then
  -- leaves the route there or absent as it was before.
  pub linux_backend-Restores : Restores (linux_backend k) (has k s) Clear (Apart own)
  unfolding linux_backend
  linux_backend-Restores = record {
    Fresh = IsFresh;
    Held = λ before t w. Holds before t.bypass w;
    opened = λ name w w' t h. opened-IsFresh name w (k.open_api name w) h;
    open_keeps = λ name w. opened-Quiet name w (k.open_api name w) (quiet.open_api name w);
    bypass_fresh = λ rs t h. h;
    killswitch_fresh = λ ks t h. h;
    up_holds = up-Holds;
    switch_holds = switch-Holds;
    down_holds = down-Holds;
    close_restores = close-Held;
  }
