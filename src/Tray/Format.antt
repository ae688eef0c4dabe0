-- ===== src/Tray/Format.antt =====
-- crates/vpnmgr-tray/src/format.rs: the labels that both trays share.
use vpnmgr.Common.{
  ℕ, zero, suc, ◌-◌, ◌/◌, ◌≤◌, ◌≡◌, refl, inl, inr, Bool-cases, List, [], ◌∷◌, ◌++◌, length,
  length-append, take, ltb, leb, leb→le, min, if◌then◌else◌, arith,
}
use vpnmgr.Common.Text.{Text, text, print_nat}
use vpnmgr.Common.Float.{Float, ◌<=f◌, ◌/f◌, of_nat}

unfoldable pub measured_ago : ℕ → Text
measured_ago s =
    if ltb s 90
    then text "just now"
    else if ltb s 3600
    then print_nat (s / 60) ++ text "m ago"
    else if ltb s 86400
    then print_nat (s / 3600) ++ text "h ago"
    else print_nat (s / 86400) ++ text "d ago"

-- `width` counts code points, and a text too long ends in an ellipsis.
unfoldable pub truncate : Text → ℕ → Text
truncate s width = if leb (length s) width then s else take (width - 1) s ++ text "…"

-- The units above the byte.
abbrev larger_units : List Text
larger_units = text "KiB" ∷ text "MiB" ∷ text "GiB" ∷ text "TiB" ∷ []

module _ {F : Type 0} ⦃fl : Float F⦄ where
  unfoldable pub rate : F → Text
  rate mbps =
      if of_nat 1000 <=f mbps
      then fl.format 1 (mbps /f of_nat 1000) ++ text " Gbps"
      else fl.format 0 mbps ++ text " Mbps"

  -- The loop from a unit above the byte: `value` is in `unit`, and `larger` are the units above it.
  in_unit : F → Text → List Text → Text
  in_unit value unit [] = fl.format 1 value ++ (text " " ++ unit)
  in_unit value unit (next ∷ larger) =
      let rest = in_unit (value /f of_nat 1024) next larger in
      if of_nat 1024 <=f value then rest else fl.format 1 value ++ (text " " ++ unit)

-- The type of floats is named, since no argument tells it.
module _ (F : Type 0) ⦃fl : Float F⦄ where
  -- Below the first step the number is printed as it is.
  from_bytes : ℕ → List Text → Text
  unfolding in_unit
  from_bytes bytes [] = print_nat bytes ++ text " B"
  from_bytes bytes (next ∷ larger) =
      if of_nat {F = F} 1024 <=f of_nat bytes
      then in_unit (of_nat {F = F} bytes /f of_nat 1024) next larger
      else print_nat bytes ++ text " B"

  unfoldable pub human_bytes : ℕ → Text
  unfolding from_bytes
  human_bytes bytes = from_bytes bytes larger_units

length-take-eq : {A : Type 0} (n : ℕ) (xs : List A) → n ≤ length xs → length (take n xs) ≡ n
length-take-eq zero xs h = refl
length-take-eq (suc n) [] h = omega arith
length-take-eq (suc n) (x ∷ xs) h = omega (arith, length-take-eq n xs)

length-cut :
    (s : Text) (c width : ℕ)
    → 1 ≤ width
    → width ≤ length s
    → length (take (width - 1) s ++ c ∷ []) ≡ min (length s) width
length-cut s c width h k =
    omega (
      arith,
      length-append (take (width - 1) s) (c ∷ []),
      length-take-eq (width - 1) s (omega arith),
    )

-- A label for a width of at least one is never wider, one that fits is kept, and one that does not is
-- cut to exactly the width.
pub length-truncate :
    (s : Text) (width : ℕ) → 1 ≤ width → length (truncate s width) ≡ min (length s) width
unfolding truncate
length-truncate s width h = elim (Bool-cases (leb (length s) width)) [
  | inl e ↦ rw e (omega (arith, leb→le (length s) width e))
  | inr e ↦ rw e (length-cut s _ width h (ground arith))
]
