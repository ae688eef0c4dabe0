-- ===== src/Core/Wgconf/Tests.antt =====
-- Runs of the importer and the renderer, with an encoding of keys and of addresses to run them on.
use vpnmgr.Common.{
  ℕ, ◌+◌, ◌-◌, ◌^◌, ◌<◌, ◌≡◌, refl, ap, true, false, Option, none, some, List, [], ◌∷◌, ◌==◌, map,
  All, any, arith, if◌then◌else◌,
}
use vpnmgr.Common.Text.{Text, text, print_nat, is_whitespace, trim, trim_start, text_eq, lower_char}
use vpnmgr.Common.Scan.{parse_below, lines, split_at, split_once}
use vpnmgr.Common.Scan.Pieces.{ends_solid}
use vpnmgr.Common.Scan.Numbers.{is_digit, all-print_nat, parse_below-print_nat}
use vpnmgr.Core.Net.{IpAddr, v4, v6, SocketAddr, Cidr}
use vpnmgr.Core.Config.{ClientConfig}
use vpnmgr.Core.Key.{Base64}
use vpnmgr.Core.Render.{to_conf}
use vpnmgr.Core.Wgconf.{AddrText, ok, bad, no_peer, strip_comment, section_name}
use vpnmgr.Core.Wgconf.Clean.{IsItem, parts, any-all, digits-IsItem}
use vpnmgr.Core.Wgconf.Parse.{parse}
use vpnmgr.Core.Wgconf.Usable.{IsKeyBytes, IsAddress, IsFaithful, IsUsable}
use vpnmgr.Core.Wgconf.RoundTrip.{parse-to_conf}
use vpnmgr.Core.Wgconf.Imported.{IsImported, parse-IsImported}

-- A byte is a letter beyond Latin-1.
abbrev pub shifted : Base64
shifted = record { encode = map (λ c. c + 256); decode = λ t. some (map (λ c. c - 256) t) }

shift_back : (k : List ℕ) → map (λ c. c - 256) (map (λ c. c + 256) k) ≡ k
shift_back [] = refl
shift_back (c ∷ k) = ground (arith, shift_back k)

shift_plain : (k : List ℕ) → All (λ c. c < 256) k → any parts (map (λ c. c + 256) k) ≡ false
shift_plain [] h = refl
shift_plain (c ∷ k) h = ground (arith, shift_plain k)

shift_solid : (c : ℕ) → c < 256 → is_whitespace (c + 256) ≡ false
unfolding is_whitespace
shift_solid c h = ground arith

shift_ends :
    (c : ℕ) (k : List ℕ)
    → All (λ d. d < 256) (c ∷ k)
    → ends_solid (map (λ d. d + 256) (c ∷ k)) ≡ true
shift_ends c [] h = ground (arith, shift_solid c)
shift_ends c (d ∷ k) h = shift_ends d k h.1

shifted_item : (k : List ℕ) → IsKeyBytes k → IsItem (shifted.encode k)
shifted_item [] h = absurd (omega (arith, h.length_is))
shifted_item (c ∷ k) h = record {
  plain = shift_plain (c ∷ k) h.bytes;
  starts = ground (arith, shift_solid c, h.bytes);
  ends = shift_ends c k h.bytes;
}

-- The family and the number.
abbrev show_number : IpAddr → Text
show_number (v4 a) = b'4' ∷ print_nat a
show_number (v6 a) = b'6' ∷ print_nat a

abbrev family : (ℕ → IpAddr) → Option ℕ → Option IpAddr
family f none = none
family f (some a) = some (f a)

abbrev read_number : Text → Option IpAddr
read_number [] = none
read_number (c ∷ cs) =
    if c == b'4'
    then family v4 (parse_below (2 ^ 32) cs)
    else if c == b'6'
    then family v6 (parse_below (2 ^ 128) cs)
    else none

abbrev pub numbered : AddrText
numbered = record { show_ip = show_number; parse_ip = read_number }

read-show : (a : IpAddr) → IsAddress a → read_number (show_number a) ≡ some a
read-show (v4 a) h = rw (parse_below-print_nat (2 ^ 32) a h) refl
read-show (v6 a) h = rw (parse_below-print_nat (2 ^ 128) a h) refl

show-IsItem : (a : IpAddr) → IsAddress a → IsItem (show_number a)
show-IsItem (v4 a) h = digits-IsItem b'4' (print_nat a) (all-print_nat a)
show-IsItem (v6 a) h = digits-IsItem b'6' (print_nat a) (all-print_nat a)

digit_no_slash : (c : ℕ) → is_digit c ≡ true → (c == b'/') ≡ false
digit_no_slash c h = ground arith

show-no_slash : (a : IpAddr) → IsAddress a → any (λ c. c == b'/') (show_number a) ≡ false
show-no_slash (v4 a) h =
    any-all is_digit (λ c. c == b'/') (show_number (v4 a)) digit_no_slash (all-print_nat a)
show-no_slash (v6 a) h =
    any-all is_digit (λ c. c == b'/') (show_number (v6 a)) digit_no_slash (all-print_nat a)

numbered-IsFaithful : IsFaithful shifted numbered
numbered-IsFaithful = record {
  decode_encode = λ k h. ap some (shift_back k);
  encode_item = shifted_item;
  parse_show = read-show;
  show_item = show-IsItem;
  show_no_slash = show-no_slash;
}

abbrev key_bytes : List ℕ
key_bytes =
    1 ∷ 2 ∷ 3 ∷ 4 ∷ 5 ∷ 6 ∷ 7 ∷ 8 ∷ 9 ∷ 10 ∷ 11 ∷ 12 ∷ 13 ∷ 14 ∷ 15 ∷ 16 ∷ 17 ∷ 18 ∷ 19 ∷ 20 ∷ 21
    ∷ 22 ∷ 23 ∷ 24 ∷ 25 ∷ 26 ∷ 27 ∷ 28 ∷ 29 ∷ 30 ∷ 31 ∷ 255 ∷ []

key_bytes-IsKeyBytes : IsKeyBytes key_bytes
key_bytes-IsKeyBytes = record { length_is = refl; bytes = omega arith }

abbrev everything : Cidr
everything = record { addr = v4 0; prefix = 0 }

abbrev own_address : Cidr
own_address = record { addr = v4 167772162; prefix = 32 }

abbrev pub client : ClientConfig
client = record {
  private_key = key_bytes;
  addresses = own_address ∷ [];
  dns = v4 167772161 ∷ v6 1 ∷ [];
  search_domains = text "corp.internal" ∷ [];
  mtu = some 1320;
  peer_public_key = key_bytes;
  preshared_key = none;
  allowed_ips = everything ∷ own_address ∷ [];
  persistent_keepalive = some 15;
}

abbrev entry : SocketAddr
entry = record { ip = v4 3113004970; port = 1637 }

client-IsUsable : IsUsable numbered client
unfolding is_whitespace
client-IsUsable = record {
  private_key = key_bytes-IsKeyBytes;
  public_key = key_bytes-IsKeyBytes;
  preshared_key = tt;
  some_address = refl;
  addresses = (record { address = omega arith; prefix_le = omega arith }, tt);
  dns = (omega arith, (omega arith, tt));
  domains = (
    record { item = record { plain = refl; starts = refl; ends = refl }; no_address = refl },
    tt,
  );
  mtu = omega arith;
  keepalive = omega arith;
  some_allowed = refl;
  allowed = (
    record { address = omega arith; prefix_le = omega arith },
    (record { address = omega arith; prefix_le = omega arith }, tt),
  );
}

parse-to_conf_example : parse shifted numbered (to_conf shifted numbered client entry) ≡ ok client
parse-to_conf_example =
    parse-to_conf shifted numbered numbered-IsFaithful client entry client-IsUsable (omega arith)

parse-IsImported_example : IsImported client
parse-IsImported_example =
    parse-IsImported shifted numbered (to_conf shifted numbered client entry) client
      parse-to_conf_example

no_peer_test : parse shifted numbered (text "[Interface]\n# nothing here\n") ≡ bad no_peer
unfolding parse lines split_at trim trim_start is_whitespace split_once text_eq lower_char
    strip_comment section_name
no_peer_test = refl
