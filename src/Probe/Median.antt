-- ===== src/Probe/Median.antt =====
-- What `median` of crates/vpnmgr-probe/src/lib.rs picks of the samples.
use vpnmgr.Common.{
  ℕ, zero, suc, ◌+◌, ◌-◌, ◌*◌, ◌/◌, ◌≤◌, ◌<◌, ◌≡◌, refl, ap, ◌∙◌, inl, inr, Bool, true, some, List,
  [], ◌∷◌, length, get_elem?, leb, All, Bool-cases, if◌then◌else◌, arith, In, here, there,
}
use vpnmgr.Common.Members.{In-sort_by}
use vpnmgr.Common.Sorting.{insert, sort_by, IsSorted, sort_by-IsSorted}
use vpnmgr.Probe.{median}

-- How many of the samples pass a test.
abbrev pub count : (ℕ → Bool) → List ℕ → ℕ
count p [] = 0
count p (x ∷ xs) = (if p x then 1 else 0) + count p xs

count-insert : (p : ℕ → Bool) (a : ℕ) (xs : List ℕ) → count p (insert leb a xs) ≡ count p (a ∷ xs)
unfolding insert
count-insert p a [] = refl
count-insert p a (x ∷ xs) = elim (Bool-cases (leb a x)) [
  | inl e ↦ rw e refl
  | inr e ↦ rw e (omega (arith, count-insert p a xs))
]

count-sort_by : (p : ℕ → Bool) (xs : List ℕ) → count p (sort_by leb xs) ≡ count p xs
unfolding sort_by
count-sort_by p [] = refl
count-sort_by p (x ∷ xs) = omega (arith, count-insert p x (sort_by leb xs), count-sort_by p xs)

length-insert : (a : ℕ) (xs : List ℕ) → length (insert leb a xs) ≡ suc (length xs)
unfolding insert
length-insert a [] = refl
length-insert a (x ∷ xs) = elim (Bool-cases (leb a x)) [
  | inl e ↦ rw e refl
  | inr e ↦ rw e (ap suc (length-insert a xs))
]

length-sort_by : (xs : List ℕ) → length (sort_by leb xs) ≡ length xs
unfolding sort_by
length-sort_by [] = refl
length-sort_by (x ∷ xs) = length-insert x (sort_by leb xs) ∙ ap suc (length-sort_by xs)

All-get_elem? : (P : ℕ → Type 0) (xs : List ℕ) (i m : ℕ) → All P xs → get_elem? xs i ≡ some m → P m
All-get_elem? P [] i m h e = absurd (ground arith)
All-get_elem? P (x ∷ xs) zero m h e = let same : x ≡ m = ground (arith, e) in rw same at h.0
All-get_elem? P (x ∷ xs) (suc i) m h e = All-get_elem? P xs i m h.1 e

count-All : (p : ℕ → Bool) (xs : List ℕ) → All (λ x. p x ≡ true) xs → count p xs ≡ length xs
count-All p [] h = refl
count-All p (x ∷ xs) h = rw h.0 (omega (arith, count-All p xs h.1))

count-below :
    (xs : List ℕ) (i m : ℕ)
    → IsSorted leb xs
    → get_elem? xs i ≡ some m
    → i < count (λ y. leb y m) xs
count-below [] i m h e = absurd (ground arith)
count-below (x ∷ xs) zero m h e = let same : x ≡ m = ground (arith, e) in ground (arith, same)
count-below (x ∷ xs) (suc i) m h e =
    ground (arith, All-get_elem? (λ y. leb x y ≡ true) xs i m h.0 e, count-below xs i m h.1 e)

count-above :
    (xs : List ℕ) (i m : ℕ)
    → IsSorted leb xs
    → get_elem? xs i ≡ some m
    → length xs ≤ i + count (λ y. leb m y) xs
count-above [] i m h e = absurd (ground arith)
count-above (x ∷ xs) zero m h e =
    let same : x ≡ m = ground (arith, e) in
    let all = count-All (λ y. leb x y) xs h.0 in ground (arith, rw same at all)
count-above (x ∷ xs) (suc i) m h e = ground (arith, count-above xs i m h.1 e)

get_elem?-some :
    (xs : List ℕ) (i : ℕ) → i < length xs → (m : ℕ) × (get_elem? xs i ≡ some m) × In m xs
get_elem?-some [] i h = absurd (omega (arith, h))
get_elem?-some (x ∷ xs) zero h = (x, refl, here refl)
get_elem?-some (x ∷ xs) (suc i) h =
    let (m, e, k) = get_elem?-some xs i (omega (arith, h)) in (m, e, there k)

every : (xs : List ℕ) → All (λ _. Unit {0}) xs
every [] = tt
every (x ∷ xs) = (tt, every xs)

sorted : (xs : List ℕ) → IsSorted leb (sort_by leb xs)
sorted xs =
    sort_by-IsSorted leb (λ _. Unit {0}) (λ a b _ _. ground arith) (λ a b c _ _ _ h k. ground arith)
      xs (every xs)

-- The median of one sample or more is a sample, and at least half of the samples are no greater and at
-- least half no less.
pub median_lem :
    (x : ℕ) (xs : List ℕ)
    → (m : ℕ) × (median (x ∷ xs) ≡ some m)
      × In m (x ∷ xs)
      × (length (x ∷ xs) ≤ 2 * count (λ y. leb y m) (x ∷ xs))
      × (length (x ∷ xs) ≤ 2 * count (λ y. leb m y) (x ∷ xs))
unfolding median
median_lem x xs =
    let all = x ∷ xs in
    let i = (length all - 1) / 2 in
    let n = length-sort_by all in
    let (m, e, k) = get_elem?-some (sort_by leb all) i (omega (arith, n)) in
    let low = count-below (sort_by leb all) i m (sorted all) e in
    let high = count-above (sort_by leb all) i m (sorted all) e in
    (
      m,
      e,
      (In-sort_by leb m all).0 k,
      omega (arith, n, low, count-sort_by (λ y. leb y m) all),
      omega (arith, n, high, count-sort_by (λ y. leb m y) all),
    )
