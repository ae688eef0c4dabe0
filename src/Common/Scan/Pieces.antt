-- ===== src/Common/Scan/Pieces.antt =====
-- What splitting and trimming make of text that was put together from clean pieces.
use mathlib.Core.List.{reverse, reverse-append, reverse-reverse}
use vpnmgr.Common.Tests.{◌==◌, Bool-cases}
use vpnmgr.Common.Lists.{any}
use vpnmgr.Common.Text.{Text, is_whitespace, trim_start, trim}
use vpnmgr.Common.Scan.{split_at, split_once, lines, chomp}
use Prim.Native.Nat.{ℕ}
use mathlib.Core.Path.{◌≡◌, refl}
use mathlib.Core.Logic.{inl, inr}
use mathlib.Core.Bool.{Bool, true, false, not, ◌||◌}
use mathlib.Core.List.{List, [], ◌∷◌, ◌++◌}
use mathlib.Core.Option.{none, some}
use native.Mathlib.Omega.{arith}

pub any-append : (p : ℕ → Bool) (a b : Text) → any p (a ++ b) ≡ (any p a || any p b)
any-append p [] b = refl
any-append p (x ∷ a) b = ground (arith, any-append p a b)

pub split_at-cons :
    (sep : ℕ → Bool) (a : Text) (c : ℕ) (rest : Text)
    → any sep a ≡ false
    → sep c ≡ true
    → split_at sep (a ++ c ∷ rest) ≡ a ∷ split_at sep rest
unfolding split_at
split_at-cons sep [] c rest h k = rw k refl
split_at-cons sep (x ∷ a) c rest h k = ground (arith, split_at-cons sep a c rest)

pub split_at-whole : (sep : ℕ → Bool) (a : Text) → any sep a ≡ false → split_at sep a ≡ a ∷ []
unfolding split_at
split_at-whole sep [] h = refl
split_at-whole sep (x ∷ a) h = ground (arith, split_at-whole sep a)

split_at-some :
    (sep : ℕ → Bool) (t : Text) → (p : Text) × (ps : List Text) × (split_at sep t ≡ p ∷ ps)
unfolding split_at
split_at-some sep [] = ([], [], refl)
split_at-some sep (c ∷ cs) =
    let (p, ps, e) = split_at-some sep cs in
    elim (Bool-cases (sep c)) [
      | inl h ↦ ([], split_at sep cs, rw h refl)
      | inr h ↦ (c ∷ p, ps, rw (h, e) refl)
    ]

pub split_once-lacks : (sep : ℕ → Bool) (t : Text) → any sep t ≡ false → split_once sep t ≡ none
unfolding split_once
split_once-lacks sep [] h = refl
split_once-lacks sep (c ∷ cs) h = ground (arith, split_once-lacks sep cs)

pub split_once-cons :
    (sep : ℕ → Bool) (a : Text) (c : ℕ) (rest : Text)
    → any sep a ≡ false
    → sep c ≡ true
    → split_once sep (a ++ c ∷ rest) ≡ some (a, rest)
unfolding split_once
split_once-cons sep [] c rest h k = rw k refl
split_once-cons sep (x ∷ a) c rest h k = ground (arith, split_once-cons sep a c rest)

abbrev pub is_newline : ℕ → Bool
is_newline c = c == 10

-- No whitespace at either end, and not empty.
abbrev pub starts_solid : Text → Bool
starts_solid [] = false
starts_solid (c ∷ cs) = not (is_whitespace c)

abbrev pub ends_solid : Text → Bool
ends_solid [] = false
ends_solid (c ∷ []) = not (is_whitespace c)
ends_solid (c ∷ d ∷ cs) = ends_solid (d ∷ cs)

pub ends_solid-append : (a b : Text) → ends_solid b ≡ true → ends_solid (a ++ b) ≡ true
ends_solid-append [] b h = h
ends_solid-append (x ∷ []) (y ∷ b) h = h
ends_solid-append (x ∷ []) [] h = cc
ends_solid-append (x ∷ y ∷ a) b h = ends_solid-append (y ∷ a) b h

pub trim_start-solid : (t : Text) → starts_solid t ≡ true → trim_start t ≡ t
unfolding trim_start
trim_start-solid [] h = refl
trim_start-solid (c ∷ cs) h = ground arith

pub starts_solid-append : (a b : Text) → starts_solid a ≡ true → starts_solid (a ++ b) ≡ true
starts_solid-append (c ∷ a) b h = h
starts_solid-append [] b h = cc

pub starts_solid-reverse : (t : Text) → ends_solid t ≡ true → starts_solid (reverse t) ≡ true
starts_solid-reverse [] h = cc
starts_solid-reverse (c ∷ []) h = h
starts_solid-reverse (c ∷ d ∷ cs) h =
    rw (reverse-append (c ∷ []) (d ∷ cs))
      (starts_solid-append (reverse (d ∷ cs)) (c ∷ []) (starts_solid-reverse (d ∷ cs) h))

pub trim-solid : (t : Text) → starts_solid t ≡ true → ends_solid t ≡ true → trim t ≡ t
unfolding trim
trim-solid t h k =
    rw (trim_start-solid t h)
      (rw (trim_start-solid (reverse t) (starts_solid-reverse t k)) (reverse-reverse t))

not_return : (c : ℕ) → is_whitespace c ≡ false → (c == 13) ≡ false
unfolding is_whitespace
not_return c h = ground arith

pub chomp-solid : (t : Text) → ends_solid t ≡ true → chomp t ≡ t
unfolding chomp
chomp-solid [] h = refl
chomp-solid (c ∷ []) h = ground (arith, not_return c)
chomp-solid (c ∷ d ∷ cs) h = rw (chomp-solid (d ∷ cs) h) (ground arith)

-- A line of its own in front of other text.
pub lines-cons :
    (t rest : Text)
    → any is_newline t ≡ false
    → chomp t ≡ t
    → lines (t ++ b'\n' ∷ rest) ≡ t ∷ lines rest
unfolding lines
lines-cons t rest h k =
    let (p, ps, e) = split_at-some is_newline rest in
    rw (split_at-cons is_newline t b'\n' rest h refl) (rw e (ground (arith, k)))
