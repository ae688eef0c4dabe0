-- ===== src/Core/Filter/Summary.antt =====
-- `rejection_summary` of filter.rs.
use vpnmgr.Common.{
  false, ◌<◌, InOrder, All-mono, sym, ℕ, ◌+◌, ◌≤◌, In, here, there, ◌≡◌, refl, ◌⊎◌, inl, inr, true,
  List, [], ◌∷◌, if◌then◌else◌, Bool-cases, All, arith,
}
use vpnmgr.Common.Sorting.{insert, sort_by, sort_by-All, IsSorted, sort_by-IsSorted}
use vpnmgr.Common.Text.{
  Text, text_eq, text_eq_iff, text_eq_refl, text_le, text_le_total, text_le_trans,
}
use vpnmgr.Core.Airvpn.{Server}
use vpnmgr.Core.Filter.{
  Rejection, Selection, label, count_label, count_labels, count_le, rejection_summary,
}

-- What the counts hold for one label.
abbrev pub tally : Text → List (Text × ℕ) → ℕ
tally l [] = 0
tally l ((k, n) ∷ rest) = (if text_eq k l then n else 0) + tally l rest

-- How many of the rejected servers have a reason with that label.
abbrev pub rejected_with : Text → List (Server × Rejection) → ℕ
rejected_with l [] = 0
rejected_with l ((s, why) ∷ rest) = (if text_eq (label why) l then 1 else 0) + rejected_with l rest

tally-count_label :
    (l j : Text) (counts : List (Text × ℕ))
    → tally l (count_label j counts) ≡ tally l counts + (if text_eq j l then 1 else 0)
unfolding count_label
tally-count_label l j [] = ground arith
tally-count_label l j ((k, n) ∷ rest) =
    ground (arith, text_eq_iff k j, text_eq_iff k l, text_eq_iff j l, tally-count_label l j rest)

tally-count_labels :
    (l : Text) (counts : List (Text × ℕ)) (xs : List (Server × Rejection))
    → tally l (count_labels counts xs) ≡ tally l counts + rejected_with l xs
unfolding count_labels
tally-count_labels l counts [] = omega arith
tally-count_labels l counts ((s, why) ∷ xs) = omega (
  arith,
  tally-count_labels l (count_label (label why) counts) xs,
  tally-count_label l (label why) counts,
)

tally-insert :
    (l : Text) (e : Text × ℕ) (xs : List (Text × ℕ))
    → tally l (insert count_le e xs) ≡ tally l (e ∷ xs)
unfolding insert
tally-insert l e [] = refl
tally-insert l e (x ∷ xs) = elim (Bool-cases (count_le e x)) [
  | inl h ↦ rw h
  | inr h ↦ rw h (omega (arith, tally-insert l e xs))
]

tally-sort_by : (l : Text) (xs : List (Text × ℕ)) → tally l (sort_by count_le xs) ≡ tally l xs
unfolding sort_by
tally-sort_by l [] = refl
tally-sort_by l (x ∷ xs) = omega (arith, tally-insert l x (sort_by count_le xs), tally-sort_by l xs)

count_le-total : (a b : Text × ℕ) → (count_le a b ≡ true) ⊎ (count_le b a ≡ true)
count_le-total a b = ground (arith, text_le_total a.0 b.0)

count_le_trans :
    (a b c : Text × ℕ) → count_le a b ≡ true → count_le b c ≡ true → count_le a c ≡ true
count_le_trans a b c h k = ground (arith, text_le_trans a.0 b.0 c.0)

-- No label has a second entry, and none counts nothing.
Distinct : List (Text × ℕ) → Type 0
Distinct [] = Unit
Distinct ((k, n) ∷ rest) = (1 ≤ n) × (tally k rest ≡ 0) × Distinct rest

count_label-Distinct :
    (j : Text) (counts : List (Text × ℕ)) → Distinct counts → Distinct (count_label j counts)
unfolding count_label Distinct
count_label-Distinct j [] h = (omega arith, refl, tt)
count_label-Distinct j ((k, n) ∷ rest) h = elim (Bool-cases (text_eq k j)) [
  | inl e ↦ rw e (omega (arith, h.0), h.1, h.2)
  | inr e ↦ rw e (
    h.0,
    ground (arith, tally-count_label k j rest, h.1, text_eq_iff k j, text_eq_iff j k),
    count_label-Distinct j rest h.2,
  )
]

count_labels-Distinct :
    (counts : List (Text × ℕ)) (xs : List (Server × Rejection))
    → Distinct counts
    → Distinct (count_labels counts xs)
unfolding count_labels
count_labels-Distinct counts [] h = h
count_labels-Distinct counts ((s, why) ∷ xs) h =
    count_labels-Distinct (count_label (label why) counts) xs
      (count_label-Distinct (label why) counts h)

-- An entry counts something, and all there is of its label.
abbrev pub Whole : (Text → ℕ) → Text × ℕ → Type 0
Whole total e = (1 ≤ e.1) × (e.1 ≡ total e.0)

entry-le : (e : Text × ℕ) (xs : List (Text × ℕ)) → In e xs → e.1 ≤ tally e.0 xs
entry-le e [] m = elim m [ ]
entry-le e (x ∷ xs) (here same) = rw same (ground (arith, text_eq_refl x.0))
entry-le e (x ∷ xs) (there m) = ground (arith, entry-le e xs m)

Distinct-positive : (e : Text × ℕ) (xs : List (Text × ℕ)) → Distinct xs → In e xs → 1 ≤ e.1
unfolding Distinct
Distinct-positive e [] h m = elim m [ ]
Distinct-positive e ((k, n) ∷ xs) h (here same) = rw same h.0
Distinct-positive e ((k, n) ∷ xs) h (there m) = Distinct-positive e xs h.2 m

-- An entry that stands further down has another label.
apart_below :
    (e : Text × ℕ) (k : Text) (rest : List (Text × ℕ))
    → tally k rest ≡ 0
    → Distinct rest
    → In e rest
    → text_eq k e.0 ≡ false
apart_below e k rest h d m = elim (Bool-cases (text_eq k e.0)) [
  | inl q ↦
      let same : k ≡ e.0 = (text_eq_iff k e.0).0 q in
      let none_of : tally e.0 rest ≡ 0 = rw (sym same) h in
      absurd (omega (arith, none_of, entry-le e rest m, Distinct-positive e rest d m))
  | inr q ↦ q
]

Distinct-Whole :
    (total : Text → ℕ) (counts : List (Text × ℕ))
    → Distinct counts
    → ((e : Text × ℕ) → In e counts → tally e.0 counts ≡ total e.0)
    → All (Whole total) counts
unfolding Distinct
Distinct-Whole total [] h same = tt
Distinct-Whole total ((k, n) ∷ rest) h same = (
  (h.0, ground (arith, same (k, n) (here refl), text_eq_refl k, h.1)),
  Distinct-Whole total rest h.2
      (λ e m. ground (arith, apart_below e k rest h.1 h.2 m, same e (there m))),
)

-- More counted, or as many and the label.
abbrev pub Before : Text × ℕ → Text × ℕ → Type 0
Before a b = (b.1 < a.1) ⊎ ((a.1 ≡ b.1) × (text_le a.0 b.0 ≡ true))

count_le-Before : (a b : Text × ℕ) → count_le a b ≡ true → Before a b
count_le-Before a b h = ground arith

every : (xs : List (Text × ℕ)) → All (λ _. Unit {0}) xs
every [] = tt
every (x ∷ xs) = (tt, every xs)

sorted-InOrder : (xs : List (Text × ℕ)) → IsSorted count_le xs → InOrder Before xs
sorted-InOrder [] h = tt
sorted-InOrder (x ∷ xs) h =
    (All-mono _ (Before x) xs (λ y. count_le-Before x y) h.0, sorted-InOrder xs h.1)

-- For each label the summary counts the rejected servers whose reason has that label, all in one entry,
-- and no entry counts nothing. The entries stand most common first, and by label where the counts are
-- equal.
pub rejection_summary_lem :
    (s : Selection) (l : Text)
    → (tally l (rejection_summary s) ≡ rejected_with l s.rejected)
      × All (Whole (λ j. rejected_with j s.rejected)) (rejection_summary s)
      × InOrder Before (rejection_summary s)
unfolding rejection_summary Distinct
rejection_summary_lem s l =
    let counts = count_labels [] s.rejected in
    (
      omega (arith, tally-sort_by l counts, tally-count_labels l [] s.rejected),
      sort_by-All count_le (Whole (λ j. rejected_with j s.rejected)) counts (
          Distinct-Whole (λ j. rejected_with j s.rejected) counts
            (count_labels-Distinct [] s.rejected tt)
            (λ e m. omega (arith, tally-count_labels e.0 [] s.rejected))),
      sorted-InOrder (sort_by count_le counts) (
          sort_by-IsSorted count_le (λ _. Unit {0}) (λ a b _ _. count_le-total a b)
            (λ a b c _ _ _. count_le_trans a b c) counts (every counts)),
    )
