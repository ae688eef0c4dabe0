-- ===== src/Tunnel/Bypass/Ranges.antt =====
-- The private ranges that are kept on the physical link: `lan_ranges` of bypass.rs.
pub mod Clear
use vpnmgr.Common.{
  ℕ, ◌-◌, ◌/◌, ◌^◌, ◌≡◌, ◌≤◌, refl, Bool, true, false, not, ◌&&◌, Option, none, some, is_some, List,
  [], ◌∷◌, ◌==◌, leb, if◌then◌else◌, find, retain, All, any, arith, retain-All, All-mono, In,
  All-in,
}
use vpnmgr.Common.Text.{Text, text}
use vpnmgr.Common.Scan.{split_once, parse_below}
use vpnmgr.Core.Net.{IpAddr, v4, v6}

abbrev pub private_ranges : List Text
private_ranges =
    text "10.0.0.0/8" ∷ text "172.16.0.0/12" ∷ text "192.168.0.0/16" ∷ text "fc00::/7" ∷ []

-- The high `prefix` bits of two addresses of `width` bits are the same; what the masks of the source
-- compare.
unfoldable pub same_prefix : ℕ → ℕ → ℕ → ℕ → Bool
same_prefix width prefix a b = a / 2 ^ (width - prefix) == b / 2 ^ (width - prefix)

unfoldable pub net_contains : Option IpAddr → ℕ → IpAddr → Bool
unfolding same_prefix
net_contains (some (v4 net)) prefix (v4 a) = leb prefix 32 && same_prefix 32 prefix net a
net_contains (some (v6 net)) prefix (v6 a) = leb prefix 128 && same_prefix 128 prefix net a
net_contains _ prefix a = false

-- `str::parse::<IpAddr>` is the argument `parse_ip`.
module _ (parse_ip : Text → Option IpAddr) where
  prefix_contains : Text → Option ℕ → IpAddr → Bool
  unfolding net_contains
  prefix_contains network none a = false
  prefix_contains network (some prefix) a = net_contains (parse_ip network) prefix a

  split_contains : Option (Text × Text) → IpAddr → Bool
  unfolding prefix_contains
  split_contains none a = false
  split_contains (some (network, prefix)) a =
      prefix_contains network (parse_below (2 ^ 32) prefix) a

  unfoldable pub cidr_contains : Text → IpAddr → Bool
  unfolding split_contains
  cidr_contains cidr a = split_contains (split_once (λ c. c == b'/') cidr) a

  unfoldable pub lan_ranges : List IpAddr → List Text
  lan_ranges tunnel_addresses =
      retain (λ range. not (is_some (find (cidr_contains range) tunnel_addresses))) private_ranges
