-- ===== src/Core/Config/Validate/Usable.antt =====
-- What `Config::validate` accepts.
use vpnmgr.Common.{
  In, here, there, Bool-cases, inl, inr, Bool, map, retain, refl, ◌≤◌, ◌<◌, ◌≡◌, ◌↔◌, true, false,
  none, List, [], ◌∷◌, is_empty, is_some_and, arith,
}
use vpnmgr.Common.Members.{In-retain, In-sort_by, contains-In, In-contains}
use vpnmgr.Common.Sorting.{sort_by}
use vpnmgr.Common.Text.{Text, text_eq, text_eq_iff, text_le, contains}
use vpnmgr.Common.Float.{Float, ◌<f◌, ◌+f◌}
use vpnmgr.Core.Config.{Config}
use vpnmgr.Core.Config.Validate.{distinct, set_of, lower, in_both, validate, zero, in_unit}

In-distinct : (a : Text) (ts : List Text) → In a (distinct ts) ↔ In a ts
unfolding distinct
In-distinct a [] = (λ m. m, λ m. m)
In-distinct a (t ∷ []) = (λ m. m, λ m. m)
In-distinct a (t ∷ u ∷ ts) = elim (Bool-cases (text_eq t u)) [
  | inl e ↦ rw e (
    λ m. there ((In-distinct a (u ∷ ts)).0 m),
    λ m.
        (In-distinct a (u ∷ ts)).1
          (elim m [ here same ↦ rw same (here ((text_eq_iff t u).0 e)) | there k ↦ k ]),
  )
  | inr e ↦ rw e (
    λ m. elim m [ here same ↦ here same | there k ↦ there ((In-distinct a (u ∷ ts)).0 k) ],
    λ m. elim m [ here same ↦ here same | there k ↦ there ((In-distinct a (u ∷ ts)).1 k) ],
  )
]

In-set_of : (a : Text) (ts : List Text) → In a (set_of ts) ↔ In a (map lower ts)
unfolding set_of
In-set_of a ts =
    let (to, from) = In-distinct a (sort_by text_le (map lower ts)) in
    let (to', from') = In-sort_by text_le a (map lower ts) in (λ m. to' (to m), λ m. from (from' m))

-- No entry stands in both lists, compared without regard to case and to the space around it.
abbrev pub IsApart : List Text → List Text → Type 0
IsApart white black = (t : Text) → In t (map lower white) → In t (map lower black) → ⊥

nothing-In : (xs : List Text) → ((t : Text) → ¬ In t xs) → xs ≡ []
nothing-In [] h = refl
nothing-In (x ∷ xs) h = absurd (h x (here refl))

in_both-IsApart : (white black : List Text) → (in_both white black ≡ []) ↔ IsApart white black
unfolding in_both
in_both-IsApart white black = (to, from)
  where
    keep : Text → Bool
    keep t = contains t (set_of black)

    to : retain (λ t. contains t (set_of black)) (set_of white) ≡ [] → IsApart white black
    to e t w b =
        let m : In t (retain (λ t. contains t (set_of black)) (set_of white)) =
          (In-retain (λ t. contains t (set_of black)) t (set_of white)).1
            ((In-set_of t white).1 w, In-contains (set_of black) ((In-set_of t black).1 b)) in
        elim (rw e at m) [ ]

    from : IsApart white black → retain (λ t. contains t (set_of black)) (set_of white) ≡ []
    from h = nothing-In _ λ t m.
        let (w, b) = (In-retain (λ t. contains t (set_of black)) t (set_of white)).0 m in
        h t ((In-set_of t white).0 w) ((In-set_of t black).0 (contains-In t (set_of black) b))

-- The numbers that the daemon can run with, and an address. A NaN passes the tests that a comparison
-- refuses.
pub record Workable {F : Type 0} ⦃fl : Float F⦄ (c : Config F) : Type 0 where
  pub max_load : c.filters.max_load ≤ 200
  pub concurrency : 0 < c.probe.concurrency
  pub samples : 0 < c.probe.samples
  pub timeout : 0 < c.probe.timeout_ms
  pub interval : 0 < c.autotune.interval_minutes
  pub target : is_some_and (λ t. fl.le t zero) c.autotune.target_mbps ≡ false
  pub accept_fraction : in_unit c.autotune.accept_fraction ≡ true
  pub headroom_margin : fl.le c.autotune.headroom_margin zero ≡ false
  pub threshold : in_unit c.autotune.improvement_threshold ≡ true
  pub rtt_weight : (c.autotune.weights.rtt <f zero) ≡ false
  pub load_weight : (c.autotune.weights.load <f zero) ≡ false
  pub headroom_weight : (c.autotune.weights.headroom <f zero) ≡ false
  pub some_weight :
      fl.le (c.autotune.weights.rtt +f c.autotune.weights.load +f c.autotune.weights.headroom) zero
      ≡ false
  pub address : is_empty c.provider.address ≡ false

-- The settings that the daemon can run with.
pub record Usable {F : Type 0} ⦃fl : Float F⦄ (c : Config F) : Type 0 where
  pub countries : IsApart c.filters.country_whitelist c.filters.country_blacklist
  pub servers : IsApart c.filters.server_whitelist c.filters.server_blacklist
  pub workable : Workable c

is_empty_iff : {A : Type 0} (xs : List A) → (is_empty xs ≡ true) ↔ (xs ≡ [])
is_empty_iff [] = ground arith
is_empty_iff (x ∷ xs) = ground arith

module _ {F : Type 0} ⦃fl : Float F⦄ where
  validate-Workable :
      (c : Config F)
      → (validate c ≡ none) ↔ (
          (is_empty (in_both c.filters.country_whitelist c.filters.country_blacklist) ≡ true)
          × (is_empty (in_both c.filters.server_whitelist c.filters.server_blacklist) ≡ true)
          × Workable c)
  unfolding validate
  validate-Workable c = (λ h. ground arith, λ u. ground arith)

  -- The settings pass the check exactly if no country and no server stands in a whitelist and in its
  -- blacklist and the numbers are ones that the daemon can run with.
  pub validate-Usable : (c : Config F) → (validate c ≡ none) ↔ Usable c
  validate-Usable c =
      let f = c.filters in
      let (to, from) = validate-Workable c in
      let (ce, ec) = is_empty_iff (in_both f.country_whitelist f.country_blacklist) in
      let (se, es) = is_empty_iff (in_both f.server_whitelist f.server_blacklist) in
      let (ca, ac) = in_both-IsApart f.country_whitelist f.country_blacklist in
      let (sa, apart) = in_both-IsApart f.server_whitelist f.server_blacklist in
      (
        λ h.
            let (a, b, w) = to h in
            record { countries = ca (ce a); servers = sa (se b); workable = w },
        λ u. from (ec (ac u.countries), es (apart u.servers), u.workable),
      )
