-- ===== src/Common/Scan/Numbers.antt =====
-- A number that was printed in decimal is read back.
use Prim.Native.Nat.{ℕ, zero, suc, ◌+◌, ◌-◌, ◌*◌, ◌/◌, ◌%◌, ◌<◌}
use mathlib.Core.Path.{◌≡◌, refl, ◌∙◌}
use mathlib.Core.Logic.{inl, inr}
use mathlib.Core.Bool.{Bool, true, false, ◌&&◌}
use mathlib.Core.List.{[], ◌∷◌, ◌++◌}
use mathlib.Core.Option.{some}
use native.Mathlib.Omega.{arith}
use vpnmgr.Common.Tests.{ltb, leb, ◌==◌, Bool-cases}
use vpnmgr.Common.Lists.{all}
use vpnmgr.Common.Text.{Text, print_nat, print_fuel}
use vpnmgr.Common.Scan.{digits, within, parse_below}

abbrev pub is_digit : ℕ → Bool
is_digit c = leb b'0' c && leb c b'9'

digits-append :
    (a : Text) (acc v c : ℕ)
    → digits acc a ≡ some v
    → is_digit c ≡ true
    → digits acc (a ++ c ∷ []) ≡ some (v * 10 + (c - b'0'))
unfolding digits
digits-append [] acc v c h k = ground arith
digits-append (x ∷ a) acc v c h k = elim (Bool-cases (is_digit x)) [
  | inl e ↦ rw e (digits-append a (acc * 10 + (x - b'0')) v c (rw e at h) k)
  | inr e ↦ absurd (ground (arith, h))
]

digits-print_fuel : (f n : ℕ) → n < f → digits 0 (print_fuel f n) ≡ some n
unfolding print_fuel
digits-print_fuel zero n h = absurd (omega arith)
digits-print_fuel (suc f) n h = elim (Bool-cases (ltb n 10)) [
  | inl e ↦ rw e (unfold digits in ground arith)
  | inr e ↦ rw e (
      digits-append (print_fuel f (n / 10)) 0 (n / 10) (n % 10 + b'0')
        (digits-print_fuel f (n / 10) (ground arith)) (ground arith)
      ∙ ground arith)
]

all-append : (p : ℕ → Bool) (a : Text) (c : ℕ) → all p (a ++ c ∷ []) ≡ (all p a && p c)
all-append p [] c = ground arith
all-append p (x ∷ a) c = ground (arith, all-append p a c)

all-print_fuel : (f n : ℕ) → all is_digit (print_fuel f n) ≡ true
unfolding print_fuel
all-print_fuel zero n = refl
all-print_fuel (suc f) n =
    ground (
      arith,
      all-print_fuel f (n / 10),
      all-append is_digit (print_fuel f (n / 10)) (n % 10 + b'0'),
    )

concat_cons : (a : Text) (c : ℕ) → (d : ℕ) × (ds : Text) × (a ++ c ∷ [] ≡ d ∷ ds)
concat_cons [] c = (c, [], refl)
concat_cons (x ∷ a) c = (x, a ++ c ∷ [], refl)

pub print_nat-cons : (n : ℕ) → (c : ℕ) × (cs : Text) × (print_nat n ≡ c ∷ cs)
unfolding print_nat print_fuel
print_nat-cons n = elim (Bool-cases (ltb n 10)) [
  | inl e ↦ (n + b'0', [], rw e refl)
  | inr e ↦ let (d, ds, p) = concat_cons (print_fuel n (n / 10)) (n % 10 + b'0') in (d, ds, rw e p)
]

pub all-print_nat : (n : ℕ) → all is_digit (print_nat n) ≡ true
unfolding print_nat
all-print_nat n = all-print_fuel (suc n) n

digits-print_nat : (n : ℕ) → digits 0 (print_nat n) ≡ some n
unfolding print_nat
digits-print_nat n = digits-print_fuel (suc n) n (omega arith)

parse_below-digits :
    (bound c : ℕ) (cs : Text)
    → is_digit c ≡ true
    → parse_below bound (c ∷ cs) ≡ within bound (digits 0 (c ∷ cs))
unfolding parse_below
parse_below-digits bound c [] h = ground arith
parse_below-digits bound c (d ∷ cs) h = let e : (c == b'+') ≡ false = ground arith in rw e refl

pub parse_below-print_nat : (bound n : ℕ) → n < bound → parse_below bound (print_nat n) ≡ some n
unfolding within
parse_below-print_nat bound n h =
    let (c, cs, e) = print_nat-cons n in
    let first : is_digit c ≡ true = ground (arith, rw e at (all-print_nat n)) in
    rw e (parse_below-digits bound c cs first ∙ rw (rw e at (digits-print_nat n)) (ground arith))
