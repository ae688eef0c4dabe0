-- ===== src/Tunnel/Halves.antt =====
-- `split_default_routes` of crates/vpnmgr-tunnel/src/windows.rs.
pub mod Covers
use vpnmgr.Common.{ℕ, ◌^◌, Bool, ◌&&◌, List, [], ◌∷◌, ◌++◌, ◌==◌, if◌then◌else◌}
use vpnmgr.Core.Net.{IpAddr, v4, v6, Cidr}
use vpnmgr.Core.Config.{ClientConfig}

-- A default route becomes its two halves; everything else stays.
unfoldable pub split_route : Cidr → List Cidr
split_route c = elim c.addr [
  | v4 a ↦
      if a == 0 && c.prefix == 0
      then record { addr = v4 0; prefix = 1 } ∷ record { addr = v4 (2 ^ 31); prefix = 1 } ∷ []
      else c ∷ []
  | v6 a ↦
      if a == 0 && c.prefix == 0
      then record { addr = v6 0; prefix = 1 } ∷ record { addr = v6 (2 ^ 127); prefix = 1 } ∷ []
      else c ∷ []
]

unfoldable pub split_routes : List Cidr → List Cidr
unfolding split_route
split_routes [] = []
split_routes (c ∷ cs) = split_route c ++ split_routes cs

unfoldable pub split_default_routes : ClientConfig → ClientConfig
unfolding split_routes
split_default_routes client = record client { allowed_ips = split_routes client.allowed_ips }
