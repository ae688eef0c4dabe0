-- ===== src/Common/Sorting.antt =====
-- `slice::sort_by`: the stable sort by a comparison, as insertion from the right. A stable sort by a
-- total preorder has one result, whichever algorithm computes it.
use mathlib.Core.Path.{◌≡◌}
use mathlib.Core.Logic.{◌⊎◌, inl, inr}
use mathlib.Core.Bool.{Bool, true, false}
use mathlib.Core.List.{List, [], ◌∷◌, Perm}
use mathlib.Core.List.Perm
use vpnmgr.Common.Tests.{if◌then◌else◌, Bool-cases}
use vpnmgr.Common.Lists.{All}

-- `le x y`: `x` may stand before `y`.
module _ {ℓ} {A : Type ℓ} (le : A → A → Bool) where
  unfoldable pub insert : A → List A → List A
  insert a [] = a ∷ []
  insert a (x ∷ xs) = if le a x then a ∷ x ∷ xs else x ∷ insert a xs

  unfoldable pub sort_by : List A → List A
  unfolding insert
  sort_by [] = []
  sort_by (x ∷ xs) = insert x (sort_by xs)

  -- Every element may stand before all that follow it.
  abbrev pub IsSorted : List A → Type ℓ
  IsSorted [] = Unit
  IsSorted (x ∷ xs) = All (λ y. le x y ≡ true) xs × IsSorted xs

  pub insert-perm : (a : A) (xs : List A) → Perm (insert a xs) (a ∷ xs)
  unfolding insert
  insert-perm a [] = Perm.refl (a ∷ [])
  insert-perm a (x ∷ xs) = elim (Bool-cases (le a x)) [
    | inl h ↦ rw h (Perm.refl (a ∷ x ∷ xs))
    | inr h ↦ rw h (Perm.trans (Perm.cons x (insert-perm a xs)) (Perm.swap a x xs))
  ]

  pub sort_by-perm : (xs : List A) → Perm (sort_by xs) xs
  unfolding sort_by
  sort_by-perm [] = Perm.refl []
  sort_by-perm (x ∷ xs) = Perm.trans (insert-perm x (sort_by xs)) (Perm.cons x (sort_by-perm xs))

  pub insert-All {κ} : (P : A → Type κ) (a : A) (xs : List A) → P a → All P xs → All P (insert a xs)
  unfolding insert
  insert-All P a [] pa h = (pa, tt)
  insert-All P a (x ∷ xs) pa h = elim (Bool-cases (le a x)) [
    | inl e ↦ rw e (pa, h)
    | inr e ↦ rw e (h.0, insert-All P a xs pa h.1)
  ]

  pub sort_by-All {κ} : (P : A → Type κ) (xs : List A) → All P xs → All P (sort_by xs)
  unfolding sort_by
  sort_by-All P [] h = tt
  sort_by-All P (x ∷ xs) h = insert-All P x (sort_by xs) h.0 (sort_by-All P xs h.1)

  -- Where the comparison is a total preorder on the elements that are `Good`, the result is sorted.
  module _ {κ} (Good : A → Type κ)
      (total : (a b : A) → Good a → Good b → (le a b ≡ true) ⊎ (le b a ≡ true))
      (trans : (a b c : A)
        → Good a
        → Good b
        → Good c
        → le a b ≡ true
        → le b c ≡ true
        → le a c ≡ true) where
    before-All :
        (a x : A) (xs : List A)
        → Good a
        → Good x
        → All Good xs
        → le a x ≡ true
        → All (λ y. le x y ≡ true) xs
        → All (λ y. le a y ≡ true) xs
    before-All a x [] ga gx g e h = tt
    before-All a x (y ∷ xs) ga gx g e h =
        (trans a x y ga gx g.0 e h.0, before-All a x xs ga gx g.1 e h.1)

    insert-IsSorted :
        (a : A) (xs : List A) → Good a → All Good xs → IsSorted xs → IsSorted (insert a xs)
    unfolding insert
    insert-IsSorted a [] ga g h = (tt, tt)
    insert-IsSorted a (x ∷ xs) ga g h = elim (Bool-cases (le a x)) [
      | inl e ↦ rw e ((e, before-All a x xs ga g.0 g.1 e h.0), h)
      | inr e ↦
          rw e
            (insert-All (λ y. le x y ≡ true) a xs (before e) h.0, insert-IsSorted a xs ga g.1 h.1)
    ]
      where
        before : le a x ≡ false → le x a ≡ true
        before e = elim (total a x ga g.0) [ inl k ↦ cc | inr k ↦ k ]

    pub sort_by-IsSorted : (xs : List A) → All Good xs → IsSorted (sort_by xs)
    unfolding sort_by
    sort_by-IsSorted [] g = tt
    sort_by-IsSorted (x ∷ xs) g =
        insert-IsSorted x (sort_by xs) g.0 (sort_by-All Good xs g.1) (sort_by-IsSorted xs g.1)
