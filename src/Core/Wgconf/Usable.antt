-- ===== src/Core/Wgconf/Usable.antt =====
-- The configurations that can be written to a file, and what is asked of base64 and of addresses.
use vpnmgr.Common.{
  ℕ, ◌^◌, ◌≤◌, ◌<◌, ◌≡◌, refl, false, Option, none, some, List, ◌++◌, ◌==◌, any, is_empty, arith,
  All, length,
}
use vpnmgr.Common.Text.{is_whitespace, Text, text, print_nat}
use vpnmgr.Common.Scan.Pieces.{ends_solid-append, trim-solid, split_once-cons}
use vpnmgr.Common.Scan.Numbers.{parse_below-print_nat}
use vpnmgr.Core.Net.{IpAddr, v4, v6, Cidr}
use vpnmgr.Core.Config.{ClientConfig}
use vpnmgr.Core.Key.{Base64, key_len, valid, from_base64}
use vpnmgr.Core.Render.{show_socket}
use vpnmgr.Core.Wgconf.{AddrText, of_parts, with_prefix, parse_cidr, show_cidr, max_prefix}
use vpnmgr.Core.Wgconf.Clean.{IsItem, IsValue, IsItem-IsValue, IsItem-between, print_nat-IsItem}
use vpnmgr.Core.Wgconf.Items.{IsEntry}

-- The bytes of a key.
pub record IsKeyBytes (k : List ℕ) : Type 0 where
  pub length_is : length k ≡ key_len
  pub bytes : All (λ c. c < 256) k

abbrev pub IsAddress : IpAddr → Type 0
IsAddress (v4 a) = a < 2 ^ 32
IsAddress (v6 a) = a < 2 ^ 128

pub record IsCidr (c : Cidr) : Type 0 where
  pub address : IsAddress c.addr
  pub prefix_le : c.prefix ≤ max_prefix c.addr

-- Base64 decodes what it encoded and an address that is shown is read back; neither writes anything
-- that has a meaning in the file.
pub record IsFaithful (b : Base64) (at : AddrText) : Type 0 where
  pub decode_encode : (k : List ℕ) → IsKeyBytes k → b.decode (b.encode k) ≡ some k
  pub encode_item : (k : List ℕ) → IsKeyBytes k → IsItem (b.encode k)
  pub parse_show : (a : IpAddr) → IsAddress a → at.parse_ip (at.show_ip a) ≡ some a
  pub show_item : (a : IpAddr) → IsAddress a → IsItem (at.show_ip a)
  pub show_no_slash : (a : IpAddr) → IsAddress a → any (λ c. c == b'/') (at.show_ip a) ≡ false

abbrev pub Holds : {A : Type 0} → (A → Type 0) → Option A → Type 0
Holds P none = Unit {0}
Holds P (some a) = P a

-- A search domain is an item that is no address.
pub record IsDomain (at : AddrText) (d : Text) : Type 0 where
  pub item : IsItem d
  pub no_address : at.parse_ip d ≡ none

pub record IsUsable (at : AddrText) (c : ClientConfig) : Type 0 where
  pub private_key : IsKeyBytes c.private_key
  pub public_key : IsKeyBytes c.peer_public_key
  pub preshared_key : Holds IsKeyBytes c.preshared_key
  pub some_address : is_empty c.addresses ≡ false
  pub addresses : All IsCidr c.addresses
  pub dns : All IsAddress c.dns
  pub domains : All (IsDomain at) c.search_domains
  pub mtu : Holds (λ n. n < 2 ^ 32) c.mtu
  pub keepalive : Holds (λ n. n < 2 ^ 16) c.persistent_keepalive
  pub some_allowed : is_empty c.allowed_ips ≡ false
  pub allowed : All IsCidr c.allowed_ips

module _ (b : Base64) (at : AddrText) (laws : IsFaithful b at) where
  pub from_base64-encode : (k : List ℕ) → IsKeyBytes k → from_base64 b (b.encode k) ≡ valid k
  unfolding from_base64
  from_base64-encode k h =
      let item = laws.encode_item k h in
      rw (trim-solid (b.encode k) item.starts item.ends)
        (rw (laws.decode_encode k h) (ground (arith, h.length_is)))

  prefix-lt : (a : IpAddr) (p : ℕ) → p ≤ max_prefix a → p < 256
  prefix-lt (v4 a) p h = omega arith
  prefix-lt (v6 a) p h = omega arith

  cidr-item : (c : Cidr) → IsCidr c → IsItem (show_cidr at c)
  unfolding show_cidr
  cidr-item c h =
      IsItem-between (at.show_ip c.addr) (text "/") (print_nat c.prefix)
        (laws.show_item c.addr h.address) refl (print_nat-IsItem c.prefix)

  parse_cidr-show_cidr : (c : Cidr) → IsCidr c → parse_cidr at (show_cidr at c) ≡ some c
  unfolding parse_cidr show_cidr
  parse_cidr-show_cidr c h =
      let whole = cidr-item c h in
      let shown = laws.show_item c.addr h.address in
      let number = print_nat-IsItem c.prefix in
      let bound = prefix-lt c.addr c.prefix h.prefix_le in
      let cut =
        split_once-cons (λ x. x == b'/') (at.show_ip c.addr) b'/' (print_nat c.prefix)
          (laws.show_no_slash c.addr h.address) refl in
      rw (trim-solid (show_cidr at c) whole.starts whole.ends) (
        rw cut (
          rw (trim-solid (at.show_ip c.addr) shown.starts shown.ends, of_parts)
            (rw (laws.parse_show c.addr h.address) (
              rw (trim-solid (print_nat c.prefix) number.starts number.ends, with_prefix)
                (rw (parse_below-print_nat 256 c.prefix bound) (ground (arith, h.prefix_le)))))))

  pub cidr-IsEntry : (c : Cidr) → IsCidr c → IsEntry (parse_cidr at) (show_cidr at) c
  cidr-IsEntry c h = record { item = cidr-item c h; read = parse_cidr-show_cidr c h }

  pub show_socket-IsValue : (a : IpAddr) (port : ℕ) → IsAddress a → IsValue (show_socket at a port)
  unfolding show_socket is_whitespace
  show_socket-IsValue (v4 a) port h =
      IsItem-IsValue (at.show_ip (v4 a) ++ (text ":" ++ print_nat port)) (
        IsItem-between (at.show_ip (v4 a)) (text ":") (print_nat port) (laws.show_item (v4 a) h)
          refl (print_nat-IsItem port))
  show_socket-IsValue (v6 a) port h =
      let body = at.show_ip (v6 a) ++ (text "]:" ++ print_nat port) in
      let item =
        IsItem-between (at.show_ip (v6 a)) (text "]:") (print_nat port) (laws.show_item (v6 a) h)
          refl (print_nat-IsItem port) in
      let inner = IsItem-IsValue body item in
      record {
        plain = inner.plain;
        starts = refl;
        ends = ends_solid-append (text "[") body inner.ends;
      }
