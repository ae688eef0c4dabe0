-- ===== src/Core/Net.antt =====
-- `std::net` and crates/vpnmgr-core/src/wgconf.rs: addresses as numbers, sockets, prefixes.
use vpnmgr.Common.{ℕ, Bool, true, false, ◌&&◌, ◌==◌, ◌≡◌, ◌↔◌, arith}

pub data IpAddr : Type 0 where
  v4 : ℕ → IpAddr
  v6 : ℕ → IpAddr

pub record SocketAddr : Type 0 where
  pub ip : IpAddr
  pub port : ℕ

-- An address with a prefix length.
pub record Cidr : Type 0 where
  pub addr : IpAddr
  pub prefix : ℕ

unfoldable pub ip_eq : IpAddr → IpAddr → Bool
ip_eq (v4 a) (v4 b) = a == b
ip_eq (v6 a) (v6 b) = a == b
ip_eq _ _ = false

unfoldable pub endpoint_eq : SocketAddr → SocketAddr → Bool
unfolding ip_eq
endpoint_eq a b = ip_eq a.ip b.ip && a.port == b.port

pub ip_eq_iff : (a b : IpAddr) → (ip_eq a b ≡ true) ↔ (a ≡ b)
unfolding ip_eq
ip_eq_iff (v4 a) b = ground arith
ip_eq_iff (v6 a) b = ground arith

abbrev pub is_ipv4 : IpAddr → Bool
is_ipv4 (v4 a) = true
is_ipv4 (v6 a) = false

-- `0.0.0.0/0` or `::/0`.
abbrev pub is_default_route : Cidr → Bool
is_default_route c = c.prefix == 0
