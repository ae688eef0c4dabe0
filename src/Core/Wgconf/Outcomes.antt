-- ===== src/Core/Wgconf/Outcomes.antt =====
-- What holds of each part that the importer reads without an error.
use vpnmgr.Common.{
  ℕ, ◌≤◌, ◌<◌, ◌≡◌, Option, none, some, List, [], ◌∷◌, ◌++◌, ◌==◌, All, is_empty, length, arith,
  if◌then◌else◌, ltb, Bool-cases, inl, inr, Option-cases,
}
use vpnmgr.Common.Text.{Text, trim}
use vpnmgr.Common.Scan.{split_at, split_once, digits, within, parse_below}
use vpnmgr.Core.Net.{IpAddr, Cidr, v4, v6}
use vpnmgr.Core.Key.{Base64, key_len, KeyResult, valid, invalid, from_base64}
use vpnmgr.Core.Wgconf.{
  AddrText, Reason, missing, bad_entry, bad_value, Parsed, ok, bad, ◌>>=◌, ok_or, parse_cidr,
  slash_parts, of_parts, with_prefix, bounded_prefix, max_prefix, Section, get, get_all,
}
use vpnmgr.Core.Wgconf.Parse.{
  required_key, key_of, key_at, optional_key, optional_key_of, parse_items, parse_values,
  parse_list, parse_scalar, scalar_of,
}
use vpnmgr.Core.Wgconf.Usable.{Holds}

-- What holds of the result, if there is one.
abbrev pub Gives : {A : Type 0} → (A → Type 0) → Parsed A → Type 0
Gives P (ok a) = P a
Gives P (bad e) = Unit {0}

module _ {A : Type 0} where
  pub Gives-ok : (P : A → Type 0) (m : Parsed A) {a : A} → m ≡ ok a → Gives P m → P a
  Gives-ok P m e h = rw e at h

  ok_or-Gives : (P : A → Type 0) (o : Option A) (e : Reason) → Holds P o → Gives P (ok_or o e)
  ok_or-Gives P none e h = tt
  ok_or-Gives P (some a) e h = h

  pub any_ok : (m : Parsed A) → Gives (λ a. Unit {0}) m
  any_ok (ok a) = tt
  any_ok (bad e) = tt

  pub bind-Gives :
      {B : Type 0} (P : A → Type 0) (Q : B → Type 0) (m : Parsed A) (f : A → Parsed B)
      → Gives P m
      → ((a : A) → P a → Gives Q (f a))
      → Gives Q (m >>= f)
  bind-Gives P Q (ok a) f h k = k a h
  bind-Gives P Q (bad e) f h k = tt

abbrev pub FitsPrefix : Cidr → Type 0
FitsPrefix c = c.prefix ≤ max_prefix c.addr

within-lt : (bound : ℕ) (o : Option ℕ) → Holds (λ n. n < bound) (within bound o)
unfolding within
within-lt bound none = tt
within-lt bound (some m) = elim (Bool-cases (ltb m bound)) [
  | inl e ↦ rw e (ground (arith, e))
  | inr e ↦ rw e tt
]

pub parse_below-lt : (bound : ℕ) (t : Text) → Holds (λ n. n < bound) (parse_below bound t)
unfolding parse_below
parse_below-lt bound [] = tt
parse_below-lt bound (c ∷ []) = elim (Bool-cases (c == b'+')) [
  | inl e ↦ rw e tt
  | inr e ↦ rw e (within-lt bound (digits 0 (c ∷ [])))
]
parse_below-lt bound (c ∷ d ∷ cs) =
    within-lt bound (digits 0 (if c == b'+' then d ∷ cs else c ∷ d ∷ cs))

bounded_prefix-Fits : (a : IpAddr) (o : Option ℕ) → Holds FitsPrefix (bounded_prefix a o)
unfolding bounded_prefix
bounded_prefix-Fits a none = tt
bounded_prefix-Fits a (some p) = elim (Bool-cases (ltb (max_prefix a) p)) [
  | inl e ↦ rw e tt
  | inr e ↦ rw e (ground (arith, e))
]

with_prefix-Fits : (a : IpAddr) (o : Option Text) → Holds FitsPrefix (with_prefix a o)
unfolding with_prefix
with_prefix-Fits (v4 a) none = omega arith
with_prefix-Fits (v6 a) none = omega arith
with_prefix-Fits a (some t) = bounded_prefix-Fits a (parse_below 256 (trim t))

of_parts-Fits : (at : AddrText) (t : Text) (o : Option Text) → Holds FitsPrefix (of_parts at t o)
unfolding of_parts
of_parts-Fits at t o = elim (Option-cases (at.parse_ip (trim t))) [
  | inl e ↦ rw (e, of_parts) tt
  | inr (a, e) ↦ rw (e, of_parts) (with_prefix-Fits a o)
]

slash_parts-Fits :
    (at : AddrText) (s : Text) (o : Option (Text × Text)) → Holds FitsPrefix (slash_parts at s o)
unfolding slash_parts
slash_parts-Fits at s none = of_parts-Fits at s none
slash_parts-Fits at s (some (a, p)) = of_parts-Fits at a (some p)

pub parse_cidr-Fits : (at : AddrText) (s : Text) → Holds FitsPrefix (parse_cidr at s)
unfolding parse_cidr
parse_cidr-Fits at s = slash_parts-Fits at (trim s) (split_once (λ x. x == b'/') (trim s))

abbrev pub IsSized : List ℕ → Type 0
IsSized k = length k ≡ key_len

IsSizedKey : KeyResult → Type 0
IsSizedKey (valid k) = IsSized k
IsSizedKey (invalid e) = Unit {0}

from_base64-IsSizedKey : (b : Base64) (t : Text) → IsSizedKey (from_base64 b t)
unfolding from_base64 IsSizedKey
from_base64-IsSizedKey b t = elim (Option-cases (b.decode (trim t))) [
  | inl e ↦ rw e tt
  | inr (raw, e) ↦ elim (Bool-cases (length raw == key_len)) [
    | inl q ↦ rw e (rw q (ground (arith, q)))
    | inr q ↦ rw e (rw q tt)
  ]
]

key_at-IsSized :
    (lineno : ℕ) (display : Text) (r : KeyResult)
    → IsSizedKey r
    → Gives IsSized (key_at lineno display r)
unfolding key_at IsSizedKey
key_at-IsSized lineno display (valid k) h = h
key_at-IsSized lineno display (invalid e) h = tt

module _ (b : Base64) (key display : Text) (s : Section) where
  key_of-IsSized : (found : Text × ℕ) → Gives IsSized (key_of b display found)
  unfolding key_of
  key_of-IsSized (raw, n) =
      key_at-IsSized n display (from_base64 b raw) (from_base64-IsSizedKey b raw)

  pub required_key-IsSized : Gives IsSized (required_key b key display s)
  unfolding required_key
  required_key-IsSized =
      let found = ok_or (get key s) (missing display) in
      bind-Gives (λ e. Unit {0}) IsSized found (key_of b display) (any_ok found)
        (λ e h. key_of-IsSized e)

  pub optional_key-IsSized : Gives (Holds IsSized) (optional_key b key display s)
  unfolding optional_key optional_key_of
  optional_key-IsSized = elim (Option-cases (get key s)) [
    | inl e ↦ rw e tt
    | inr (found, e) ↦
        rw (e, optional_key_of)
          (bind-Gives IsSized (Holds IsSized) (key_of b display found) (λ k. ok (some k))
            (key_of-IsSized found) (λ k h. h))
  ]

All-concat {ℓ κ} :
    {A : Type ℓ} (P : A → Type κ) (xs ys : List A) → All P xs → All P ys → All P (xs ++ ys)
All-concat P [] ys h k = k
All-concat P (x ∷ xs) ys h k = (h.0, All-concat P xs ys h.1 k)

module _ {A : Type 0} (parse : Text → Option A) (P : A → Type 0)
    (sound : (t : Text) → Holds P (parse t)) (key display : Text) where
  parse_items-All :
      (lineno : ℕ) (raws : List Text) → Gives (All P) (parse_items parse lineno display raws)
  unfolding parse_items
  parse_items-All lineno [] = tt
  parse_items-All lineno (raw ∷ rest) =
      let item = trim raw in
      let others = parse_items parse lineno display rest in
      elim (Bool-cases (is_empty item)) [
        | inl e ↦ rw e (parse_items-All lineno rest)
        | inr e ↦ rw e (
            bind-Gives P (All P) (ok_or (parse item) (bad_entry lineno display item))
              (λ a. others >>= λ out. ok (a ∷ out))
              (ok_or-Gives P (parse item) (bad_entry lineno display item) (sound item))
              (λ a h.
                bind-Gives (All P) (All P) others (λ out. ok (a ∷ out))
                  (parse_items-All lineno rest) (λ out k. (h, k))))
      ]

  parse_values-All : (found : List (Text × ℕ)) → Gives (All P) (parse_values parse display found)
  unfolding parse_values
  parse_values-All [] = tt
  parse_values-All ((value, n) ∷ rest) =
      let xs = parse_items parse n display (split_at (λ c. c == b',') value) in
      let ys = parse_values parse display rest in
      bind-Gives (All P) (All P) xs (λ x. ys >>= λ y. ok (x ++ y))
        (parse_items-All n (split_at (λ c. c == b',') value))
        (λ x h.
          bind-Gives (All P) (All P) ys (λ y. ok (x ++ y)) (parse_values-All rest)
            (λ y k. All-concat P x y h k))

  pub parse_list-All : (s : Section) → Gives (All P) (parse_list parse key display s)
  unfolding parse_list
  parse_list-All s = parse_values-All (get_all key s)

  pub parse_scalar-Holds : (s : Section) → Gives (Holds P) (parse_scalar parse key display s)
  unfolding parse_scalar scalar_of
  parse_scalar-Holds s = elim (Option-cases (get key s)) [
    | inl e ↦ rw e tt
    | inr ((value, n), e) ↦
        rw (e, scalar_of)
          (bind-Gives P (Holds P) (ok_or (parse value) (bad_value n display value))
            (λ a. ok (some a))
            (ok_or-Gives P (parse value) (bad_value n display value) (sound value)) (λ a h. h))
  ]
