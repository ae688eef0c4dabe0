-- ===== src/Tunnel/Bypass/Installed/Held.antt =====
-- One route of the main table while the bypass is installed.
use vpnmgr.Common.{◌≡◌, ◌∙◌, Bool, false, ◌&&◌, ◌||◌, List, arith}
use vpnmgr.Tunnel.Bypass.{Route, Bypass, new_bypass}
use vpnmgr.Tunnel.Bypass.Installed.{MainTable, install, remove}
use vpnmgr.Tunnel.Bypass.Installed.Restored.{IsTable, hit, install-Tracks, exists-remove}

module _ {World : Type 0} (table : MainTable World) (same : Route → Route → Bool) (s : Route)
    (laws : IsTable table same) where
  abbrev has : World → Bool
  has w = table.route_exists s w

  -- The table is as it was before, with the installed routes beside it.
  pub record Held (before : World) (b : Bypass) (w : World) : Type 0 where
    pub exists : has w ≡ has before || hit table same laws s b.installed
    pub disjoint : has before && hit table same laws s b.installed ≡ false

  pub moved :
      (before : World) (b : Bypass) (w w' : World)
      → has w' ≡ has w
      → Held before b w
      → Held before b w'
  moved before b w w' e h = record { exists = e ∙ h.exists; disjoint = h.disjoint }

  pub remove-Held :
      (before : World) (b : Bypass) (w : World)
      → Held before b w
      → has (remove table b w).1 ≡ has before
  remove-Held before b w h =
      ground (arith, exists-remove table same laws s b w, h.exists, h.disjoint)

  pub new-Held : (before w : World) → has w ≡ has before → Held before new_bypass w
  new-Held before w e = record { exists = e ∙ ground arith; disjoint = ground arith }

  pub install-Held :
      (rs : List Route) (before w : World)
      → has w ≡ has before
      → let q = install table rs new_bypass w in Held before q.0 q.1
  install-Held rs before w e =
      let h =
        install-Tracks table same laws w rs new_bypass w
          (record { exists = λ r. ground arith; disjoint = λ r. ground arith }) in
      record { exists = ground (arith, h.exists s, e); disjoint = ground (arith, h.disjoint s, e) }
