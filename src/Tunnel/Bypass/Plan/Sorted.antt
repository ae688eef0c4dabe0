-- ===== src/Tunnel/Bypass/Plan/Sorted.antt =====
-- What `Bypass::plan` makes of the routes that it collects.
use vpnmgr.Common.{
  ◌≢◌, refl, sym, ap, ◌∙◌, false, some, first, InOrder, ◌≡◌, ◌↔◌, true, List, [], ◌∷◌, In, here,
  there, All, Bool-cases, inl, inr, arith,
}
use vpnmgr.Common.Text.{text_eq_iff, text_eq_refl, text_le, text_le_total, text_le_trans}
use vpnmgr.Common.Members.{In-sort_by}
use vpnmgr.Common.Sorting.{sort_by, IsSorted, sort_by-IsSorted}
use vpnmgr.Tunnel.Bypass.{Via, device, gateway, Route, route_eq, via_eq}
use vpnmgr.Tunnel.Bypass.Plan.{Machine, Request, dedup, by_destination, gathered, plan}

via_eq_sound : (a b : Via) → via_eq a b ≡ true → a ≡ b
unfolding via_eq
via_eq_sound (device a) (device b) h = ground (arith, text_eq_iff a b)
via_eq_sound (device a) (gateway c d) h = ground arith
via_eq_sound (gateway a b) (device c) h = ground arith
via_eq_sound (gateway a b) (gateway c d) h = ground (arith, text_eq_iff a c, text_eq_iff b d)

route_eq_sound : (a b : Route) → route_eq a b ≡ true → a ≡ b
unfolding route_eq
route_eq_sound a b h =
    ground (arith, text_eq_iff a.destination b.destination, via_eq_sound a.via b.via)

In-dedup : (a : Route) (xs : List Route) → In a (dedup xs) ↔ In a xs
unfolding dedup
In-dedup a [] = (λ m. m, λ m. m)
In-dedup a (r ∷ []) = (λ m. m, λ m. m)
In-dedup a (r ∷ s ∷ rest) = elim (Bool-cases (route_eq r s)) [
  | inl e ↦ rw e (
    λ m. there ((In-dedup a (s ∷ rest)).0 m),
    λ m.
        (In-dedup a (s ∷ rest)).1
          (elim m [ here same ↦ rw same (here (route_eq_sound r s e)) | there k ↦ k ]),
  )
  | inr e ↦ rw e (
    λ m. elim m [ here same ↦ here same | there k ↦ there ((In-dedup a (s ∷ rest)).0 k) ],
    λ m. elim m [ here same ↦ here same | there k ↦ there ((In-dedup a (s ∷ rest)).1 k) ],
  )
]

dedup-All : (P : Route → Type 0) (xs : List Route) → All P xs → All P (dedup xs)
unfolding dedup
dedup-All P [] h = tt
dedup-All P (r ∷ []) h = h
dedup-All P (r ∷ s ∷ rest) h = elim (Bool-cases (route_eq r s)) [
  | inl e ↦ rw e (dedup-All P (s ∷ rest) h.1)
  | inr e ↦ rw e (h.0, dedup-All P (s ∷ rest) h.1)
]

dedup-IsSorted : (xs : List Route) → IsSorted by_destination xs → IsSorted by_destination (dedup xs)
unfolding dedup
dedup-IsSorted [] h = tt
dedup-IsSorted (r ∷ []) h = h
dedup-IsSorted (r ∷ s ∷ rest) h = elim (Bool-cases (route_eq r s)) [
  | inl e ↦ rw e (dedup-IsSorted (s ∷ rest) h.1)
  | inr e ↦
      rw e
        (dedup-All (λ y. by_destination r y ≡ true) (s ∷ rest) h.0, dedup-IsSorted (s ∷ rest) h.1)
]

every : (xs : List Route) → All (λ _. Unit {0}) xs
every [] = tt
every (x ∷ xs) = (tt, every xs)

via_eq_refl : (v : Via) → via_eq v v ≡ true
unfolding via_eq
via_eq_refl (device a) = text_eq_refl a
via_eq_refl (gateway a b) = ground (arith, text_eq_refl a, text_eq_refl b)

route_eq_refl : (r : Route) → route_eq r r ≡ true
unfolding route_eq
route_eq_refl r = ground (arith, text_eq_refl r.destination, via_eq_refl r.via)

apart : (r s : Route) → route_eq r s ≡ false → r ≢ s
apart r s e same = absurd (ground (arith, route_eq_refl s, the_same))
  where
    the_same : route_eq s s ≡ false
    the_same = rw same at e

-- No two neighbours are equal.
pub NoTwins : List Route → Type 0
NoTwins [] = Unit
NoTwins (r ∷ []) = Unit
NoTwins (r ∷ s ∷ rest) = (r ≢ s) × NoTwins (s ∷ rest)

first-dedup : (r : Route) (xs : List Route) → first (dedup (r ∷ xs)) ≡ some r
unfolding dedup
first-dedup r [] = refl
first-dedup r (s ∷ xs) = elim (Bool-cases (route_eq r s)) [
  | inl e ↦ rw e (first-dedup s xs ∙ ap some (sym (route_eq_sound r s e)))
  | inr e ↦ rw e refl
]

cons-NoTwins :
    (r s : Route) (xs : List Route) → first xs ≡ some s → r ≢ s → NoTwins xs → NoTwins (r ∷ xs)
unfolding NoTwins
cons-NoTwins r s [] e k h = tt
cons-NoTwins r s (x ∷ xs) e k h = (λ same. k (same ∙ ground (arith, e)), h)

dedup-NoTwins : (xs : List Route) → NoTwins (dedup xs)
unfolding dedup NoTwins
dedup-NoTwins [] = tt
dedup-NoTwins (r ∷ []) = tt
dedup-NoTwins (r ∷ s ∷ rest) = elim (Bool-cases (route_eq r s)) [
  | inl e ↦ rw e (dedup-NoTwins (s ∷ rest))
  | inr e ↦ rw e (
      cons-NoTwins r s (dedup (s ∷ rest)) (first-dedup s rest) (apart r s e)
        (dedup-NoTwins (s ∷ rest)))
]

sorted-InOrder :
    (xs : List Route)
    → IsSorted by_destination xs
    → InOrder (λ a b. text_le a.destination b.destination ≡ true) xs
sorted-InOrder [] h = tt
sorted-InOrder (x ∷ xs) h = (h.0, sorted-InOrder xs h.1)

-- The plan holds the routes collected, and no others, in the alphabetical order of their destinations,
-- and no two neighbours are equal.
pub plan_lem :
    (m : Machine) (r : Request)
    → ((a : Route) → In a (plan m r) ↔ In a (gathered m r))
      × InOrder (λ a b. text_le a.destination b.destination ≡ true) (plan m r)
      × NoTwins (plan m r)
unfolding plan
plan_lem m r =
    let sorted = sort_by by_destination (gathered m r) in
    (
      λ a.
          let (to, from) = In-dedup a sorted in
          let (to', from') = In-sort_by by_destination a (gathered m r) in
          (λ k. to' (to k), λ k. from (from' k)),
      sorted-InOrder (dedup sorted) (
          dedup-IsSorted sorted (
            sort_by-IsSorted by_destination (λ _. Unit {0})
              (λ a b _ _. text_le_total a.destination b.destination)
              (λ a b c _ _ _. text_le_trans a.destination b.destination c.destination)
              (gathered m r) (every (gathered m r)))),
      dedup-NoTwins sorted,
    )
