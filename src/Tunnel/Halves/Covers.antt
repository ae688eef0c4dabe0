-- ===== src/Tunnel/Halves/Covers.antt =====
-- Splitting the default routes changes nothing about what the tunnel carries.
use vpnmgr.Common.{ℕ, ◌-◌, ◌/◌, ◌^◌, Bool, false, not, ◌&&◌, ◌==◌}
use vpnmgr.Core.Net.{IpAddr, v4, v6, Cidr, is_default_route}

-- The address agrees with the prefix in the prefix's bits.
abbrev pub covers_parts : IpAddr → ℕ → IpAddr → Bool
covers_parts (v4 net) p (v4 a) = net / 2 ^ (32 - p) == a / 2 ^ (32 - p)
covers_parts (v6 net) p (v6 a) = net / 2 ^ (128 - p) == a / 2 ^ (128 - p)
covers_parts (v4 net) p (v6 a) = false
covers_parts (v6 net) p (v4 a) = false

abbrev pub covers : IpAddr → Cidr → Bool
covers a c = covers_parts c.addr c.prefix a

abbrev pub is_zero : IpAddr → Bool
is_zero (v4 net) = net == 0
is_zero (v6 net) = net == 0

-- A default route written with an address that is not zero, such as `5.0.0.0/0`.
abbrev pub is_odd_default : Cidr → Bool
is_odd_default c = is_default_route c && not (is_zero c.addr)
