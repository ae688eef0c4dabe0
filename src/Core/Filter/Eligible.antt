-- ===== src/Core/Filter/Eligible.antt =====
-- What the rules decide, in terms of the configured lists: filter.rs, `Ruleset`.
use vpnmgr.Common.{
  ℕ, ◌≤◌, ◌<◌, ◌≡◌, refl, sym, ◌↔◌, ◌⊎◌, inl, inr, ◌≢◌, Bool, true, false, not, ◌&&◌, Option, none,
  some, List, [], ◌∷◌, map, ltb, if◌then◌else◌, Bool-cases, is_empty, is_none, ltb→lt, In, All,
  arith,
}
use vpnmgr.Common.Members.{contains-In, In-contains}
use vpnmgr.Common.Text.{Text, contains, text_eq_iff}
use vpnmgr.Core.Config.{Filters}
use vpnmgr.Core.Filter.{
  Rejection, unhealthy, country_not_whitelisted, country_blacklisted, server_not_whitelisted,
  server_blacklisted, load_too_high, fold, normalised, ruleset_of, judge, accepts,
}

-- A configured list names a text, up to case and the space around it; blank entries name nothing.
abbrev pub Mentions : List Text → Text → Type 0
Mentions values t = (fold t ≢ []) × In (fold t) (map fold values)

-- No entry of the list names anything.
abbrev pub IsBlank : List Text → Type 0
IsBlank values = All (λ v. fold v ≡ []) values

abbrev Allows : List Text → Text → Type 0
Allows values t = IsBlank values ⊎ Mentions values t

contains-normalised :
    (t : Text) (vs : List Text)
    → contains t (normalised vs) ≡ (not (is_empty t) && contains t (map fold vs))
unfolding contains normalised
contains-normalised [] [] = refl
contains-normalised (c ∷ t) [] = refl
contains-normalised t (v ∷ vs) = ground (arith, text_eq_iff (fold v) t, contains-normalised t vs)

contains-Mentions :
    (vs : List Text) (t : Text) → (contains (fold t) (normalised vs) ≡ true) ↔ Mentions vs t
contains-Mentions vs t = rw (contains-normalised (fold t) vs) (to (fold t), from (fold t))
  where
    to :
        (u : Text)
        → (not (is_empty u) && contains u (map fold vs)) ≡ true
        → (u ≢ []) × In u (map fold vs)
    to [] h = cc
    to (c ∷ u) h = (λ e. cc, contains-In (c ∷ u) (map fold vs) h)

    from :
        (u : Text)
        → (u ≢ []) × In u (map fold vs)
        → (not (is_empty u) && contains u (map fold vs)) ≡ true
    from [] h = absurd (h.0 refl)
    from (c ∷ u) h = In-contains (map fold vs) h.1

is_empty-normalised : (vs : List Text) → (is_empty (normalised vs) ≡ true) ↔ IsBlank vs
unfolding normalised
is_empty-normalised [] = (λ _. tt, λ _. refl)
is_empty-normalised (v ∷ vs) = go (fold v) refl (is_empty-normalised vs)
  where
    go :
        (u : Text)
        → fold v ≡ u
        → ((is_empty (normalised vs) ≡ true) ↔ IsBlank vs)
        → (is_empty (if not (is_empty u) then u ∷ normalised vs else normalised vs) ≡ true)
          ↔ (fold v ≡ []) × IsBlank vs
    go [] e ih = (λ h. (e, ih.0 h), λ h. ih.1 h.1)
    go (c ∷ u) e ih = (λ h. cc, λ h. cc)

-- A whitelist lets through what it names, and everything if it names nothing.
whitelist-Allows :
    (vs : List Text) (t : Text)
    → ((not (is_empty (normalised vs)) && not (contains (fold t) (normalised vs))) ≡ false)
      ↔ Allows vs t
whitelist-Allows vs t = (
  to (is_empty (normalised vs)) (contains (fold t) (normalised vs)) (is_empty-normalised vs).0
      (contains-Mentions vs t).0,
  from (is_empty (normalised vs)) (contains (fold t) (normalised vs)) (is_empty-normalised vs).1
      (contains-Mentions vs t).1,
)
  where
    to :
        (e c : Bool)
        → (e ≡ true → IsBlank vs)
        → (c ≡ true → Mentions vs t)
        → (not e && not c) ≡ false
        → Allows vs t
    to true c blank named h = inl (blank refl)
    to false true blank named h = inr (named refl)
    to false false blank named h = cc

    from :
        (e c : Bool)
        → (IsBlank vs → e ≡ true)
        → (Mentions vs t → c ≡ true)
        → Allows vs t
        → (not e && not c) ≡ false
    from true c blank named h = refl
    from false true blank named h = refl
    from false false blank named (inl h) = sym (blank h)
    from false false blank named (inr h) = sym (named h)

-- The server passes every configured filter.
pub record Eligible (f : Filters) (name country_code : Text) (load : ℕ) : Type 0 where
  pub server_not_blacklisted : ¬ Mentions f.server_blacklist name
  pub country_not_blacklisted : ¬ Mentions f.country_blacklist country_code
  pub server_allowed : Allows f.server_whitelist name
  pub country_allowed : Allows f.country_whitelist country_code
  pub within_load : load ≤ f.max_load

-- What each verdict says of the configuration: the first rule that is broken, in the order
-- blacklists, whitelists, load.
abbrev pub Explains : Filters → Text → Text → ℕ → Option Rejection → Type 0
Explains f name country load none = Eligible f name country load
Explains f name country load (some (unhealthy w)) = ⊥
Explains f name country load (some server_blacklisted) = Mentions f.server_blacklist name
Explains f name country load (some country_blacklisted) =
    (¬ Mentions f.server_blacklist name) × Mentions f.country_blacklist country
Explains f name country load (some server_not_whitelisted) =
    (¬ Mentions f.server_blacklist name)
    × (¬ Mentions f.country_blacklist country)
    × (¬ Allows f.server_whitelist name)
Explains f name country load (some country_not_whitelisted) =
    (¬ Mentions f.server_blacklist name)
    × (¬ Mentions f.country_blacklist country)
    × Allows f.server_whitelist name
    × (¬ Allows f.country_whitelist country)
Explains f name country load (some (load_too_high l m)) =
    (¬ Mentions f.server_blacklist name)
    × (¬ Mentions f.country_blacklist country)
    × Allows f.server_whitelist name
    × Allows f.country_whitelist country
    × (l ≡ load)
    × (m ≡ f.max_load)
    × (f.max_load < load)

not-of-false : {b : Bool} {P : Type 0} → (P → b ≡ true) → b ≡ false → ¬ P
not-of-false h e p = cc (h p)

not-of-true : {b : Bool} {P : Type 0} → (P → b ≡ false) → b ≡ true → ¬ P
not-of-true h e p = cc (h p)

module _ (f : Filters) (name country : Text) (load : ℕ) where
  -- The part of the chain behind the blacklists.
  abbrev after_blacklists : Option Rejection
  after_blacklists =
      let white = normalised f.server_whitelist in
      let countries = normalised f.country_whitelist in
      if not (is_empty white) && not (contains (fold name) white)
      then some server_not_whitelisted
      else if not (is_empty countries) && not (contains (fold country) countries)
      then some country_not_whitelisted
      else if ltb f.max_load load
      then some (load_too_high load f.max_load)
      else none

  module _ (nsb : ¬ Mentions f.server_blacklist name)
      (ncb : ¬ Mentions f.country_blacklist country) where
    behind-Explains : Explains f name country load after_blacklists
    behind-Explains = elim (Bool-cases sw) [
      | inl e ↦ rw e (nsb, ncb, not-of-true (whitelist-Allows f.server_whitelist name).1 e)
      | inr e ↦ rw e (
          let a = (whitelist-Allows f.server_whitelist name).0 e in
          elim (Bool-cases cw) [
            | inl g ↦
                rw g (nsb, ncb, a, not-of-true (whitelist-Allows f.country_whitelist country).1 g)
            | inr g ↦ rw g (
                let b = (whitelist-Allows f.country_whitelist country).0 g in
                elim (Bool-cases (ltb f.max_load load)) [
                  | inl l ↦ rw l (nsb, ncb, a, b, refl, refl, ltb→lt _ _ l)
                  | inr l ↦ rw l (record {
                    server_not_blacklisted = nsb;
                    country_not_blacklisted = ncb;
                    server_allowed = a;
                    country_allowed = b;
                    within_load = ground arith;
                  })
                ])
          ])
    ]
      where
        sw : Bool
        sw =
            not (is_empty (normalised f.server_whitelist))
            && not (contains (fold name) (normalised f.server_whitelist))

        cw : Bool
        cw =
            not (is_empty (normalised f.country_whitelist))
            && not (contains (fold country) (normalised f.country_whitelist))

  -- The verdict names the first rule that the server breaks, and there is none only if the server is
  -- eligible.
  pub judge-Explains : Explains f name country load (judge (ruleset_of f) name country load)
  unfolding judge ruleset_of
  judge-Explains = elim (Bool-cases (contains (fold name) (normalised f.server_blacklist))) [
    | inl sb ↦ rw sb ((contains-Mentions f.server_blacklist name).0 sb)
    | inr sb ↦ rw sb (
        let nsb = not-of-false (contains-Mentions f.server_blacklist name).1 sb in
        elim (Bool-cases (contains (fold country) (normalised f.country_blacklist))) [
          | inl cb ↦ rw cb (nsb, (contains-Mentions f.country_blacklist country).0 cb)
          | inr cb ↦ rw cb (
              behind-Explains nsb
                (not-of-false (contains-Mentions f.country_blacklist country).1 cb))
        ])
  ]

-- No verdict but `none` is open to an eligible server.
Explains-none :
    {f : Filters} {name country : Text} {load : ℕ} (v : Option Rejection)
    → Eligible f name country load
    → Explains f name country load v
    → v ≡ none
Explains-none none e x = refl
Explains-none (some (unhealthy w)) e x = absurd x
Explains-none (some server_blacklisted) e x = absurd (e.server_not_blacklisted x)
Explains-none (some country_blacklisted) e x = absurd (e.country_not_blacklisted x.1)
Explains-none (some server_not_whitelisted) e x = absurd (x.2 e.server_allowed)
Explains-none (some country_not_whitelisted) e x = absurd (x.3 e.country_allowed)
Explains-none (some (load_too_high l m)) e x =
    let over = x.6 in let within = e.within_load in absurd (omega arith)

-- The rules accept exactly the servers that the configured lists make eligible: named by no
-- blacklist, named by each whitelist that names anything, and loaded no more than `max_load`; names
-- and country codes are compared without regard to case and to the space around them.
pub accepts-Eligible :
    (f : Filters) (name country : Text) (load : ℕ)
    → (accepts (ruleset_of f) name country load ≡ true) ↔ Eligible f name country load
unfolding accepts
accepts-Eligible f name country load = (
  to (judge (ruleset_of f) name country load) (judge-Explains f name country load),
  λ e. rw (
      Explains-none (judge (ruleset_of f) name country load) e
        (judge-Explains f name country load)),
)
  where
    to :
        (v : Option Rejection)
        → Explains f name country load v
        → is_none v ≡ true
        → Eligible f name country load
    to none x h = x
    to (some w) x h = cc
