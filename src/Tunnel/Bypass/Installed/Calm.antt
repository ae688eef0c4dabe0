-- ===== src/Tunnel/Bypass/Installed/Calm.antt =====
-- Calls that leave a route of the main table alone while the tunnel's interface does not carry it.
use vpnmgr.Common.{◌≡◌, refl, ◌∙◌, Bool, true, false, List, [], ◌∷◌, Bool-cases, inl, inr}
use vpnmgr.Tunnel.Bypass.{Route, Bypass, new_bypass}
use vpnmgr.Tunnel.Bypass.Installed.{MainTable, added, install_one, install, withdraw, remove}
use vpnmgr.Tunnel.Bypass.Installed.Restored.{IsTable}
use vpnmgr.Tunnel.Bypass.Installed.Held.{Held, moved, remove-Held, new-Held, install-Held}

module _ {World : Type 0} (has : World → Bool) (Clear : World → Type 0) where
  -- From a clear world to a clear one, with the route there or absent as before.
  abbrev pub Quiet : World → World → Type 0
  Quiet w w' = Clear w → (has w' ≡ has w) × Clear w'

  pub Quiet-refl : (w : World) → Quiet w w
  Quiet-refl w c = (refl, c)

  pub Quiet_trans : (u v w : World) → Quiet u v → Quiet v w → Quiet u w
  Quiet_trans u v w h k c =
      let first = h c in let second = k first.1 in (second.0 ∙ first.0, second.1)

-- The table's own calls do not put the route on the tunnel's interface.
pub record KeepsClear {World : Type 0} (t : MainTable World) (Clear : World → Type 0) : Type 0 where
  pub add : (r : Route) (w : World) → Clear w → Clear (t.sys_add r w).1
  pub del : (r : Route) (w : World) → Clear w → Clear (t.sys_del r w).1

module _ {World : Type 0} (t : MainTable World) (Clear : World → Type 0)
    (keeps : KeepsClear t Clear) where
  added-Clear : (r : Route) (b : Bypass) (o : Bool × World) → Clear o.1 → Clear (added t r b o).1
  unfolding added
  added-Clear r b (true, w) c = c
  added-Clear r b (false, w) c = c

  install_one-Clear : (r : Route) (b : Bypass) (w : World) → Clear w → Clear (install_one t r b w).1
  unfolding install_one
  install_one-Clear r b w c = elim (Bool-cases (t.route_exists r w)) [
    | inl e ↦ rw e c
    | inr e ↦ rw e (added-Clear r b (t.sys_add r w) (keeps.add r w c))
  ]

  install-Clear : (rs : List Route) (b : Bypass) (w : World) → Clear w → Clear (install t rs b w).1
  unfolding install
  install-Clear [] b w c = c
  install-Clear (r ∷ rs) b w c =
      let q = install_one t r b w in install-Clear rs q.0 q.1 (install_one-Clear r b w c)

  withdraw-Clear : (rs : List Route) (w : World) → Clear w → Clear (withdraw t rs w)
  unfolding withdraw
  withdraw-Clear [] w c = c
  withdraw-Clear (r ∷ rs) w c = withdraw-Clear rs (t.sys_del r w).1 (keeps.del r w c)

  pub remove-Clear : (b : Bypass) (w : World) → Clear w → Clear (remove t b w).1
  unfolding remove
  remove-Clear b w c = withdraw-Clear b.installed w c

  module _ (same : Route → Route → Bool) (s : Route) (laws : IsTable t same) where
    abbrev has : World → Bool
    has w = t.route_exists s w

    -- The installed routes are held over the table as it was before, in a clear world.
    pub record Kept (before : World) (b : Bypass) (w : World) : Type 0 where
      pub held : Held t same s laws before b w
      pub clear : Clear w

    pub moved-Kept :
        (before : World) (b : Bypass) (w w' : World)
        → Quiet has Clear w w'
        → Kept before b w
        → Kept before b w'
    moved-Kept before b w w' q h =
        let (e, c) = q h.clear in
        record { held = moved t same s laws before b w w' e h.held; clear = c }

    pub remove-Kept :
        (before : World) (b : Bypass) (w : World)
        → Kept before b w
        → Kept before new_bypass (remove t b w).1
    remove-Kept before b w h = record {
      held =
          new-Held t same s laws before (remove t b w).1
            (remove-Held t same s laws before b w h.held);
      clear = remove-Clear b w h.clear;
    }

    pub has-Kept :
        (before : World) (b : Bypass) (w : World)
        → Kept before b w
        → has (remove t b w).1 ≡ has before
    has-Kept before b w h = remove-Held t same s laws before b w h.held

    pub new-Kept : (before w : World) → has w ≡ has before → Clear w → Kept before new_bypass w
    new-Kept before w e c = record { held = new-Held t same s laws before w e; clear = c }

    pub install-Kept :
        (rs : List Route) (before w : World)
        → Quiet has Clear before w
        → Clear before
        → let q = install t rs new_bypass w in Kept before q.0 q.1
    install-Kept rs before w h c =
        let (e, d) = h c in
        record {
          held = install-Held t same s laws rs before w e;
          clear = install-Clear rs new_bypass w d;
        }
