-- ===== src/Tunnel/Bypass.antt =====
-- crates/vpnmgr-tunnel/src/bypass.rs on Linux: the destinations that are routed around the tunnel.
pub mod Ranges
pub mod Plan
pub mod Installed
use vpnmgr.Common.{
  ℕ, Bool, true, false, not, ◌&&◌, ◌||◌, Option, none, some, List, [], ◌∷◌, ◌++◌, ◌==◌,
  if◌then◌else◌, any, is_empty,
}
use vpnmgr.Common.Text.{Text, text, text_eq, has_char, starts_with}

pub data Via : Type 0 where
  device : Text → Via
  gateway : Text → Text → Via

pub record Route : Type 0 where
  pub destination : Text
  pub via : Via

unfoldable pub is_v6 : Route → Bool
is_v6 r = has_char b':' r.destination

-- `Route::prefix`.
unfoldable pub prefix : Route → Text
unfolding is_v6
prefix r =
    if has_char b'/' r.destination
    then r.destination
    else if is_v6 r
    then r.destination ++ text "/128"
    else r.destination ++ text "/32"

via_args : Via → List Text
via_args (device dev) = text "dev" ∷ dev ∷ []
via_args (gateway gw dev) = text "via" ∷ gw ∷ text "dev" ∷ dev ∷ []

unfoldable pub add_args : Route → List Text
unfolding via_args
add_args r = text "route" ∷ text "add" ∷ r.destination ∷ via_args r.via

abbrev pub del_args : Route → List Text
del_args r = text "route" ∷ text "del" ∷ r.destination ∷ []

-- `derive(PartialEq)`.
via_eq : Via → Via → Bool
via_eq (device a) (device b) = text_eq a b
via_eq (gateway a b) (gateway c d) = text_eq a c && text_eq b d
via_eq _ _ = false

unfoldable pub route_eq : Route → Route → Bool
unfolding via_eq
route_eq a b = text_eq a.destination b.destination && via_eq a.via b.via

abbrev pub vpn_interfaces : List Text
vpn_interfaces =
    text "tailscale" ∷ text "tun" ∷ text "tap" ∷ text "wg" ∷ text "ppp" ∷ text "zt" ∷ []

abbrev pub never_mirror : List Text
never_mirror = text "fe80:" ∷ text "ff00:" ∷ text "169.254." ∷ text "224.0.0." ∷ []

-- Names that `ip route` prints in front of a line where no destination stands.
abbrev pub not_destinations : List Text
not_destinations =
    text "default"
    ∷ text "multicast"
    ∷ text "local"
    ∷ text "broadcast"
    ∷ text "unreachable"
    ∷ text "prohibit"
    ∷ []

unfoldable pub is_vpn_interface : Text → Bool
is_vpn_interface name = any (λ p. starts_with p name) vpn_interfaces

pub record Gateway : Type 0 where
  pub address : Text
  pub device : Text
  pub v6 : Bool

pub record Bypass : Type 0 where
  pub installed : List Route

abbrev pub new_bypass : Bypass
new_bypass = record { installed = [] }
