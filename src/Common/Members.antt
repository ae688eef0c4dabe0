-- ===== src/Common/Members.antt =====
-- Membership in lists that are searched, filtered and sorted.
use mathlib.Core.Path.{◌≡◌, refl, sym}
use mathlib.Core.Logic.{◌↔◌, inl, inr}
use mathlib.Core.Bool.{Bool, true}
use mathlib.Core.List.{List, [], ◌∷◌}
use native.Mathlib.Omega.{arith}
use vpnmgr.Common.Tests.{Bool-cases, is_some}
use vpnmgr.Common.Lists.{In, here, there, retain, find}
use vpnmgr.Common.Text.{Text, contains, text_eq, text_eq_iff}
use vpnmgr.Common.Sorting.{insert, sort_by}

pub contains-In : (t : Text) (ts : List Text) → contains t ts ≡ true → In t ts
unfolding contains
contains-In t [] h = cc
contains-In t (u ∷ ts) h = elim (Bool-cases (text_eq u t)) [
  | inl e ↦ here (sym ((text_eq_iff u t).0 e))
  | inr e ↦ there (contains-In t ts (rw e at h))
]

pub In-contains : {t : Text} (ts : List Text) → In t ts → contains t ts ≡ true
unfolding contains
In-contains [] m = elim m [ ]
In-contains {t} (u ∷ ts) (here e) = rw ((text_eq_iff u t).1 (sym e))
In-contains {t} (u ∷ ts) (there m) = ground (arith, In-contains ts m)

module _ {A : Type 0} (p : A → Bool) where
  pub In-retain : (a : A) (xs : List A) → In a (retain p xs) ↔ (In a xs × (p a ≡ true))
  In-retain a xs = (to xs, λ h. from xs h.0 h.1)
    where
      to : (xs : List A) → In a (retain p xs) → In a xs × (p a ≡ true)
      to [] m = elim m [ ]
      to (x ∷ xs) m = elim (Bool-cases (p x)) [
        | inl e ↦ elim (rw e at m) [
          | here same ↦ (here same, rw same e)
          | there rest ↦ let (k, q) = to xs rest in (there k, q)
        ]
        | inr e ↦ let (k, q) = to xs (rw e at m) in (there k, q)
      ]

      from : (xs : List A) → In a xs → p a ≡ true → In a (retain p xs)
      from [] m h = elim m [ ]
      from (x ∷ xs) m h = elim (Bool-cases (p x)) [
        | inl e ↦ rw e (elim m [ here same ↦ here same | there rest ↦ there (from xs rest h) ])
        | inr e ↦ rw e (elim m [
          | here same ↦ absurd (ground (arith, rw (sym same) at e))
          | there rest ↦ from xs rest h
        ])
      ]

  pub found_or_none : (a : A) (xs : List A) → In a xs → p a ≡ true → is_some (find p xs) ≡ true
  found_or_none a [] m h = elim m [ ]
  found_or_none a (x ∷ xs) m h = elim (Bool-cases (p x)) [
    | inl e ↦ rw e refl
    | inr e ↦ rw e (elim m [
      | here same ↦ absurd (ground (arith, rw (sym same) at e))
      | there rest ↦ found_or_none a xs rest h
    ])
  ]

module _ {A : Type 0} (le : A → A → Bool) where
  pub In-insert : (a x : A) (xs : List A) → In a (insert le x xs) ↔ In a (x ∷ xs)
  unfolding insert
  In-insert a x [] = (λ m. m, λ m. m)
  In-insert a x (y ∷ ys) = elim (Bool-cases (le x y)) [
    | inl e ↦ rw e (λ m. m, λ m. m)
    | inr e ↦ rw e (
      λ m. elim m [
        | here same ↦ there (here same)
        | there rest ↦ elim ((In-insert a x ys).0 rest) [
          | here same ↦ here same
          | there k ↦ there (there k)
        ]
      ],
      λ m. elim m [
        | here same ↦ there ((In-insert a x ys).1 (here same))
        | there rest ↦ elim rest [
          | here same ↦ here same
          | there k ↦ there ((In-insert a x ys).1 (there k))
        ]
      ],
    )
  ]

  pub In-sort_by : (a : A) (xs : List A) → In a (sort_by le xs) ↔ In a xs
  unfolding sort_by
  In-sort_by a [] = (λ m. m, λ m. m)
  In-sort_by a (x ∷ xs) = (
    λ m. elim ((In-insert a x (sort_by le xs)).0 m) [
      | here same ↦ here same
      | there k ↦ there ((In-sort_by a xs).0 k)
    ],
    λ m.
        (In-insert a x (sort_by le xs)).1
          (elim m [ here same ↦ here same | there k ↦ there ((In-sort_by a xs).1 k) ]),
  )
