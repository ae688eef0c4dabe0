-- ===== src/Core/Filter/Partition.antt =====
-- `apply` of filter.rs splits the list.
use mathlib.Core.List.{append-nil, append_assoc, Perm, perm_middle}
use mathlib.Core.List.Perm
use vpnmgr.Common.{
  ◌≡◌, refl, ◌∙◌, inl, inr, Bool, true, Option, none, some, Option-cases, List, [], ◌∷◌, ◌++◌, map,
  Bool-cases, is_none, retain, filter_map, All, arith,
}
use vpnmgr.Core.Airvpn.{Server, ServerList, is_healthy}
use vpnmgr.Core.Config.{Filters}
use vpnmgr.Core.Filter.{
  Rejection, Ruleset, Selection, ruleset_of, accepts, reason_of, push_onto, apply_onto, apply,
}
use vpnmgr.Core.Filter.Eligible.{Eligible, accepts-Eligible}

abbrev pub passes : Ruleset → Server → Bool
passes r s = is_none (reason_of r s)

abbrev with_reason : Server → Option Rejection → Option (Server × Rejection)
with_reason s none = none
with_reason s (some why) = some (s, why)

abbrev rejections : Ruleset → List Server → List (Server × Rejection)
rejections r = filter_map λ s. with_reason s (reason_of r s)

apply_onto_lem :
    (r : Ruleset) (acc : Selection) (xs : List Server)
    → apply_onto r acc xs ≡ record {
      accepted = acc.accepted ++ retain (passes r) xs;
      rejected = acc.rejected ++ rejections r xs;
    }
unfolding apply_onto push_onto
apply_onto_lem r acc [] = simp append-nil
apply_onto_lem r acc (s ∷ xs) = elim (Option-cases (reason_of r s)) [
  | inl e ↦ rw e (apply_onto_lem r _ xs ∙ simp append_assoc)
  | inr (why, e) ↦ rw e (apply_onto_lem r _ xs ∙ simp append_assoc)
]

rejections-All :
    (r : Ruleset) (xs : List Server) → All (λ p. reason_of r p.0 ≡ some p.1) (rejections r xs)
rejections-All r [] = tt
rejections-All r (s ∷ xs) = elim (Option-cases (reason_of r s)) [
  | inl e ↦ rw e (rejections-All r xs)
  | inr (why, e) ↦ rw e (e, rejections-All r xs)
]

split-perm :
    (r : Ruleset) (xs : List Server)
    → Perm (retain (passes r) xs ++ map (λ p. p.0) (rejections r xs)) xs
split-perm r [] = Perm.refl []
split-perm r (s ∷ xs) = elim (Option-cases (reason_of r s)) [
  | inl e ↦ rw e (Perm.cons s (split-perm r xs))
  | inr (why, e) ↦ rw e (
      Perm.trans (perm_middle (retain (passes r) xs) (map (λ p. p.0) (rejections r xs)))
        (Perm.cons s (split-perm r xs)))
]

passes-Eligible :
    (f : Filters) (s : Server)
    → passes (ruleset_of f) s ≡ true
    → (is_healthy s ≡ true) × Eligible f s.name s.country_code s.load
unfolding reason_of
passes-Eligible f s h = elim (Bool-cases (is_healthy s)) [
  | inl e ↦ (e, (accepts-Eligible f s.name s.country_code s.load).0 (unfold accepts in (rw e at h)))
  | inr e ↦ absurd (ground (arith, rw e at h))
]

retain-Eligible :
    (f : Filters) (xs : List Server)
    → All
        (λ s. (is_healthy s ≡ true) × Eligible f s.name s.country_code s.load)
        (retain (passes (ruleset_of f)) xs)
retain-Eligible f [] = tt
retain-Eligible f (s ∷ xs) = elim (Bool-cases (passes (ruleset_of f) s)) [
  | inl e ↦ rw e (passes-Eligible f s e, retain-Eligible f xs)
  | inr e ↦ rw e (retain-Eligible f xs)
]

-- Every server that `apply` accepts is healthy and eligible.
pub apply-Eligible :
    (l : ServerList) (f : Filters)
    → All
        (λ s. (is_healthy s ≡ true) × Eligible f s.name s.country_code s.load)
        (apply l f).accepted
unfolding apply
apply-Eligible l f = rw apply_onto_lem (retain-Eligible f l.servers)

-- The two halves hold the servers of the list, each as often as the list does; the accepted ones keep
-- the list's order, and each rejected one stands with the reason that the rules give for it.
pub apply-perm :
    (l : ServerList) (f : Filters)
    → Perm ((apply l f).accepted ++ map (λ p. p.0) (apply l f).rejected) l.servers
      × ((apply l f).accepted ≡ retain (passes (ruleset_of f)) l.servers)
      × All (λ p. reason_of (ruleset_of f) p.0 ≡ some p.1) (apply l f).rejected
unfolding apply
apply-perm l f =
    rw apply_onto_lem
      (split-perm (ruleset_of f) l.servers, refl, rejections-All (ruleset_of f) l.servers)
