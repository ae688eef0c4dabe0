-- ===== src/Core/Wgconf.antt =====
-- crates/vpnmgr-core/src/wgconf.rs: the importer of a WireGuard configuration file. How `std::net`
-- reads and prints an address is the argument AddrText.
pub mod Parse
pub mod Clean
pub mod Items
pub mod Reading
pub mod Written
pub mod Gathered
pub mod Usable
pub mod RoundTrip
pub mod Outcomes
pub mod Imported
pub mod Tests
use vpnmgr.Common.{
  ℕ, zero, suc, ◌+◌, ◌^◌, Bool, ◌||◌, true, false, Option, none, some, List, [], ◌∷◌, ◌++◌, ◌==◌,
  ltb, if◌then◌else◌, is_empty, find, retain, map, any,
}
use vpnmgr.Common.Text.{Text, text, text_eq, trim, lowercase, print_nat}
use vpnmgr.Common.Scan.{split_at, split_once, lines, parse_below}
use vpnmgr.Core.Net.{IpAddr, v4, v6, is_ipv4, Cidr, is_default_route}
use vpnmgr.Core.Key.{KeyError}
use vpnmgr.Core.Config.{ClientConfig}

pub record AddrText : Type 0 where
  pub show_ip : IpAddr → Text
  pub parse_ip : Text → Option IpAddr

-- Why a file is refused; the message names the line, and the entry or the value where there is one.
pub data Reason : Type 0 where
  unknown_section : ℕ → Text → Reason
  not_key_value : ℕ → Reason
  before_sections : ℕ → Text → Reason
  no_peer : Reason
  many_peers : ℕ → Reason
  missing : Text → Reason
  bad_key : ℕ → Text → KeyError → Reason
  bad_entry : ℕ → Text → Text → Reason
  bad_value : ℕ → Text → Text → Reason

pub data Parsed {ℓ} (A : Type ℓ) : Type ℓ where
  ok : A → Parsed A
  bad : Reason → Parsed A

infixl 5 ◌>>=◌
abbrev pub ◌>>=◌ {ℓ κ} : {A : Type ℓ} {B : Type κ} → Parsed A → (A → Parsed B) → Parsed B
ok a >>= f = f a
bad e >>= f = bad e

-- `Option::ok_or_else`.
abbrev pub ok_or {ℓ} : {A : Type ℓ} → Option A → Reason → Parsed A
ok_or none e = bad e
ok_or (some a) e = ok a

-- The most bits that a prefix of the address can have.
abbrev pub max_prefix : IpAddr → ℕ
max_prefix a = if is_ipv4 a then 32 else 128

pub bounded_prefix : IpAddr → Option ℕ → Option Cidr
bounded_prefix a none = none
bounded_prefix a (some p) =
    if ltb (max_prefix a) p then none else some (record { addr = a; prefix = p })

pub with_prefix : IpAddr → Option Text → Option Cidr
unfolding bounded_prefix
with_prefix a none = some (record { addr = a; prefix = max_prefix a })
with_prefix a (some p) = bounded_prefix a (parse_below 256 (trim p))

-- A failure to read the address is found before one of the prefix.
pub of_parts : AddrText → Text → Option Text → Option Cidr
unfolding with_prefix
of_parts at addr_part prefix_part = elim (at.parse_ip (trim addr_part)) [
  | none ↦ none
  | some a ↦ with_prefix a prefix_part
]

pub slash_parts : AddrText → Text → Option (Text × Text) → Option Cidr
unfolding of_parts
slash_parts at s none = of_parts at s none
slash_parts at s (some (a, p)) = of_parts at a (some p)

-- `Cidr::from_str`, without the text of its error.
unfoldable pub parse_cidr : AddrText → Text → Option Cidr
unfolding slash_parts
parse_cidr at s = slash_parts at (trim s) (split_once (λ c. c == b'/') (trim s))

unfoldable pub show_cidr : AddrText → Cidr → Text
show_cidr at c = at.show_ip c.addr ++ (text "/" ++ print_nat c.prefix)

-- The key in lower case, the raw value, and the line.
abbrev pub Section : Type 0
Section = List (Text × Text × ℕ)

abbrev pub set : Text → Text → ℕ → Section → Section
set key value lineno s = s ++ (lowercase key, value, lineno) ∷ []

abbrev pub value_of : Option (Text × Text × ℕ) → Option (Text × ℕ)
value_of none = none
value_of (some (k, v, n)) = some (v, n)

unfoldable pub get : Text → Section → Option (Text × ℕ)
get key s = value_of (find (λ e. text_eq e.0 key) s)

unfoldable pub get_all : Text → Section → List (Text × ℕ)
get_all key s = map (λ e. (e.1, e.2)) (retain (λ e. text_eq e.0 key) s)

-- The section that a line belongs to: none yet, [Interface], or the last [Peer].
pub data Current : Type 0 where
  nowhere in_interface in_peer : Current

pub record Reader : Type 0 where
  pub interface : Section
  pub peers : List Section
  pub current : Current

abbrev pub set_last : Text → Text → ℕ → List Section → List Section
set_last key value lineno [] = []
set_last key value lineno (s ∷ []) = set key value lineno s ∷ []
set_last key value lineno (s ∷ t ∷ rest) = s ∷ set_last key value lineno (t ∷ rest)

abbrev pub is_comment : ℕ → Bool
is_comment c = c == b'#' || c == b';'

abbrev kept : Text → Option (Text × Text) → Text
kept line none = line
kept line (some (before, rest)) = before

unfoldable pub strip_comment : Text → Text
strip_comment line = kept line (split_once is_comment line)

cons_to : ℕ → Option Text → Option Text
cons_to c none = none
cons_to c (some t) = some (c ∷ t)

strip_suffix : ℕ → Text → Option Text
unfolding cons_to
strip_suffix c [] = none
strip_suffix c (x ∷ []) = if x == c then some [] else none
strip_suffix c (x ∷ y ∷ rest) = cons_to x (strip_suffix c (y ∷ rest))

-- The name between brackets.
unfoldable pub section_name : Text → Option Text
unfolding strip_suffix
section_name [] = none
section_name (c ∷ cs) = if c == b'[' then strip_suffix b']' cs else none
