-- ===== src/Tunnel/Bypass/Installed/Restored.antt =====
-- Withdrawing the routes leaves the table as it was found.
use vpnmgr.Common.{
  ◌≡◌, refl, Bool, true, false, not, ◌&&◌, ◌||◌, List, [], ◌∷◌, ◌++◌, any, Bool-cases, inl, inr,
  arith,
}
use vpnmgr.Tunnel.Bypass.{Route, Bypass, new_bypass}
use vpnmgr.Tunnel.Bypass.Installed.{MainTable, added, install_one, install, withdraw, remove}

-- What `ip route` does: a route is looked up by its prefix, an addition that is reported is there and
-- nothing else changes, a deletion takes away what stands under the prefix and nothing else.
pub record IsTable {World : Type 0} (t : MainTable World) (same : Route → Route → Bool)
    : Type 0 where
  pub exists_same :
      (r s : Route) (w : World) → same r s ≡ true → t.route_exists r w ≡ t.route_exists s w
  pub add_exists :
      (r s : Route) (w : World)
      → t.route_exists s (t.sys_add r w).1 ≡ (t.route_exists s w || ((t.sys_add r w).0 && same r s))
  pub del_exists :
      (r s : Route) (w : World)
      → t.route_exists s (t.sys_del r w).1 ≡ (t.route_exists s w && not (same r s))

module _ {World : Type 0} (t : MainTable World) (same : Route → Route → Bool)
    (laws : IsTable t same) where
  abbrev pub hit : Route → List Route → Bool
  hit s rs = any (λ r. same r s) rs

  hit-append :
      (s : Route) (xs : List Route) (r : Route) → hit s (xs ++ r ∷ []) ≡ hit s xs || same r s
  hit-append s [] r = ground arith
  hit-append s (x ∷ xs) r = ground (arith, hit-append s xs r)

  -- The table holds what it held before and what is noted as installed, and the two are disjoint.
  pub record Tracks (before : World) (b : Bypass) (w : World) : Type 0 where
    pub exists : (s : Route) → t.route_exists s w ≡ t.route_exists s before || hit s b.installed
    pub disjoint : (s : Route) → t.route_exists s before && hit s b.installed ≡ false

  added-Tracks :
      (before : World) (r : Route) (b : Bypass) (w : World) (o : Bool × World)
      → t.sys_add r w ≡ o
      → t.route_exists r w ≡ false
      → Tracks before b w
      → let q = added t r b o in Tracks before q.0 q.1
  unfolding added
  added-Tracks before r b w (true, w') e free h = record {
    exists = λ s.
        ground (arith, h.exists s, hit-append s b.installed r, rw e at (laws.add_exists r s w));
    disjoint = λ s. ground (
      arith,
      h.exists s,
      h.disjoint s,
      h.exists r,
      hit-append s b.installed r,
      laws.exists_same r s w,
    );
  }
  added-Tracks before r b w (false, w') e free h = record {
    exists = λ s. ground (arith, h.exists s, rw e at (laws.add_exists r s w));
    disjoint = λ s. h.disjoint s;
  }

  install_one-Tracks :
      (before : World) (r : Route) (b : Bypass) (w : World)
      → Tracks before b w
      → let q = install_one t r b w in Tracks before q.0 q.1
  unfolding install_one
  install_one-Tracks before r b w h = elim (Bool-cases (t.route_exists r w)) [
    | inl e ↦ rw e h
    | inr e ↦ rw e (added-Tracks before r b w (t.sys_add r w) refl e h)
  ]

  pub install-Tracks :
      (before : World) (rs : List Route) (b : Bypass) (w : World)
      → Tracks before b w
      → let q = install t rs b w in Tracks before q.0 q.1
  unfolding install
  install-Tracks before [] b w h = h
  install-Tracks before (r ∷ rs) b w h =
      let q = install_one t r b w in
      install-Tracks before rs q.0 q.1 (install_one-Tracks before r b w h)

  exists-withdraw :
      (s : Route) (rs : List Route) (w : World)
      → t.route_exists s (withdraw t rs w) ≡ t.route_exists s w && not (hit s rs)
  unfolding withdraw
  exists-withdraw s [] w = ground arith
  exists-withdraw s (r ∷ rs) w =
      ground (arith, exists-withdraw s rs (t.sys_del r w).1, laws.del_exists r s w)

  pub exists-remove :
      (s : Route) (b : Bypass) (w : World)
      → t.route_exists s (remove t b w).1 ≡ (t.route_exists s w && not (hit s b.installed))
  unfolding remove
  exists-remove s b w = exists-withdraw s b.installed w

  -- Installing routes and removing them leaves the table with the routes that it had: a route that
  -- somebody else had put there is not taken away, and none of ours stays.
  pub remove-install :
      (rs : List Route) (w : World) (s : Route)
      → let q = install t rs new_bypass w in
        let done = remove t q.0 q.1 in
        (done.0 ≡ new_bypass) × (t.route_exists s done.1 ≡ t.route_exists s w)
  unfolding remove
  remove-install rs w s =
      let q = install t rs new_bypass w in
      let h =
        install-Tracks w rs new_bypass w
          (record { exists = λ s. ground arith; disjoint = λ s. ground arith }) in
      (refl, ground (arith, exists-withdraw s q.0.installed q.1, h.exists s, h.disjoint s))
