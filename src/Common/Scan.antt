-- ===== src/Common/Scan.antt =====
-- Taking text apart and putting it together: `lines`, `split_whitespace`, `split_once`, `join`, numbers.
pub mod Pieces
pub mod Numbers
use Prim.Native.Nat.{ℕ, ◌+◌, ◌-◌, ◌*◌}
use mathlib.Core.Bool.{Bool, ◌&&◌, ◌||◌}
use mathlib.Core.List.{List, [], ◌∷◌, ◌++◌}
use mathlib.Core.Option.{Option, none, some}
use vpnmgr.Common.Tests.{ltb, leb, ◌==◌, if◌then◌else◌}
use vpnmgr.Common.Lists.{is_empty}
use vpnmgr.Common.Text.{Text, is_whitespace, starts_with}

-- A character in front of the first of the pieces.
cons_first : ℕ → List Text → List Text
cons_first c [] = (c ∷ []) ∷ []
cons_first c (p ∷ ps) = (c ∷ p) ∷ ps

-- `str::split` at the characters that pass a test: one piece more than there are such characters.
unfoldable pub split_at : (ℕ → Bool) → Text → List Text
unfolding cons_first
split_at sep [] = [] ∷ []
split_at sep (c ∷ cs) = if sep c then [] ∷ split_at sep cs else cons_first c (split_at sep cs)

abbrev pub drop_empty : List Text → List Text
drop_empty [] = []
drop_empty (p ∷ ps) = if is_empty p then drop_empty ps else p ∷ drop_empty ps

unfoldable pub split_whitespace : Text → List Text
unfolding split_at is_whitespace
split_whitespace t = drop_empty (split_at is_whitespace t)

-- `str::lines`: a newline at the end starts no further line, and `\r` before one is dropped.
unfoldable pub chomp : Text → Text
chomp [] = []
chomp (c ∷ cs) = if (c == 13) && is_empty cs then [] else c ∷ chomp cs

line_pieces : List Text → List Text
line_pieces [] = []
line_pieces (p ∷ []) = if is_empty p then [] else p ∷ []
line_pieces (p ∷ q ∷ ps) = chomp p ∷ line_pieces (q ∷ ps)

unfoldable pub lines : Text → List Text
unfolding split_at chomp line_pieces
lines t = line_pieces (split_at (λ c. c == 10) t)

-- `str::split_once` at the first character that passes a test.
before : ℕ → Option (Text × Text) → Option (Text × Text)
before c none = none
before c (some (a, b)) = some (c ∷ a, b)

unfoldable pub split_once : (ℕ → Bool) → Text → Option (Text × Text)
unfolding before
split_once sep [] = none
split_once sep (c ∷ cs) = if sep c then some ([], cs) else before c (split_once sep cs)

unfoldable pub contains_text : Text → Text → Bool
unfolding starts_with
contains_text needle [] = is_empty needle
contains_text needle (c ∷ cs) = starts_with needle (c ∷ cs) || contains_text needle cs

unfoldable pub join : Text → List Text → Text
join sep [] = []
join sep (t ∷ []) = t
join sep (t ∷ u ∷ ts) = t ++ (sep ++ join sep (u ∷ ts))

-- The value of a run of decimal digits, after those already read.
pub digits : ℕ → Text → Option ℕ
digits acc [] = some acc
digits acc (c ∷ cs) =
    let rest = digits (acc * 10 + (c - b'0')) cs in if leb b'0' c && leb c b'9' then rest else none

unfoldable pub within : ℕ → Option ℕ → Option ℕ
within bound none = none
within bound (some n) = if ltb n bound then some n else none

-- `parse` of an unsigned integer below a bound; one `+` may stand in front of the digits.
unfoldable pub parse_below : ℕ → Text → Option ℕ
unfolding digits within
parse_below bound [] = none
parse_below bound (c ∷ []) = if c == b'+' then none else within bound (digits 0 (c ∷ []))
parse_below bound (c ∷ d ∷ cs) = within bound (digits 0 (if c == b'+' then d ∷ cs else c ∷ d ∷ cs))
