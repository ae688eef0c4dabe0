-- ===== src/Common/Float.antt =====
-- What the code uses of `f64`: the operations, decimal literals, and comparisons with NaN.
-- The arithmetic is a parameter; the comparisons and `max`, `min`, `clamp` rest on `<=` alone.
use Prim.Native.Nat.{ℕ, ◌+◌, ◌-◌, ◌*◌, ◌/◌, ◌^◌}
use mathlib.Core.Path.{◌≡◌}
use mathlib.Core.Logic.{◌⊎◌}
use mathlib.Core.Bool.{Bool, true, not, ◌&&◌}
use native.Mathlib.Omega.{arith}
use vpnmgr.Common.Tests.{leb, if◌then◌else◌}
use vpnmgr.Common.Text.{Text, print_nat}

pub record Float (F : Type 0) : Type 0 where
  pub le : F → F → Bool
  pub add : F → F → F
  pub sub : F → F → F
  pub mul : F → F → F
  pub div : F → F → F
  pub ln : F → F
  -- An integer as a float, and the literal `n` times ten to the minus `k`.
  pub of_nat : ℕ → F
  pub decimal : ℕ → ℕ → F
  pub infinity : F
  pub epsilon : F
  pub ln_2 : F
  -- `Duration::as_secs_f64` of a number of nanoseconds.
  pub secs : ℕ → F
  -- `format!("{:.k}")`.
  pub format : ℕ → F → Text

module _ {F : Type 0} ⦃fl : Float F⦄ where
  infixl 65 ◌+f◌ ◌-f◌
  infixl 70 ◌*f◌ ◌/f◌
  infix 50 ◌<=f◌ ◌<f◌
  abbrev pub ◌+f◌ : F → F → F
  a +f b = fl.add a b

  abbrev pub ◌-f◌ : F → F → F
  a -f b = fl.sub a b

  abbrev pub ◌*f◌ : F → F → F
  a *f b = fl.mul a b

  abbrev pub ◌/f◌ : F → F → F
  a /f b = fl.div a b

  abbrev pub ◌<=f◌ : F → F → Bool
  a <=f b = fl.le a b

  -- A NaN is neither below, nor above, nor equal to anything.
  abbrev pub ◌<f◌ : F → F → Bool
  a <f b = fl.le a b && not (fl.le b a)

  abbrev pub is_nan : F → Bool
  is_nan a = not (fl.le a a)

  abbrev pub of_nat : ℕ → F
  of_nat n = fl.of_nat n

  -- `f64::max` and `f64::min` pass over a NaN; `f64::clamp` keeps it.
  abbrev pub maximum : F → F → F
  maximum a b = if is_nan a then b else if a <f b then b else a

  abbrev pub minimum : F → F → F
  minimum a b = if is_nan a then b else if b <f a then b else a

  abbrev pub clamp : F → F → F → F
  clamp lo hi a = if a <f lo then lo else if hi <f a then hi else a

-- The order that IEEE 754 gives: total away from NaN, which is the value not `<=` itself.
pub record IsOrdered (F : Type 0) ⦃fl : Float F⦄ : Type 0 where
  pub refl_of_le : (a b : F) → fl.le a b ≡ true → (fl.le a a ≡ true) × (fl.le b b ≡ true)
  pub le_trans : (a b c : F) → fl.le a b ≡ true → fl.le b c ≡ true → fl.le a c ≡ true
  pub le_total :
      (a b : F) → fl.le a a ≡ true → fl.le b b ≡ true → (fl.le a b ≡ true) ⊎ (fl.le b a ≡ true)

-- Thousandths, to run the definitions and to show that the order's laws can be met.
abbrev pub Fixed : Type 0
Fixed = ℕ

instance abbrev pub fixed : Float Fixed
fixed = record {
  le = leb;
  add = λ a b. a + b;
  sub = λ a b. a - b;
  mul = λ a b. a * b / 1000;
  div = λ a b. a * 1000 / b;
  ln = λ a. a - 1000;
  of_nat = λ n. n * 1000;
  decimal = λ n k. n * 1000 / 10 ^ k;
  infinity = 10 ^ 30;
  epsilon = 0;
  ln_2 = 693;
  secs = λ n. n / 10 ^ 6;
  format = λ k a. print_nat (a / 1000);
}

pub Fixed-IsOrdered : IsOrdered Fixed
Fixed-IsOrdered = ground arith
