-- ===== src/Tunnel/Bypass/Plan.antt =====
-- What should bypass the tunnel: `Bypass::plan` of bypass.rs.
pub mod Sorted
pub mod Mirrored
use vpnmgr.Common.{
  ℕ, Bool, true, false, not, ◌&&◌, ◌||◌, Option, none, some, List, [], ◌∷◌, ◌++◌, map, ◌==◌,
  if◌then◌else◌, find, any, filter_map,
}
use vpnmgr.Common.Text.{Text, text, text_eq, text_le, has_char, starts_with, contains}
use vpnmgr.Common.Scan.{lines, split_whitespace}
use vpnmgr.Common.Sorting.{sort_by}
use vpnmgr.Core.Net.{IpAddr}
use vpnmgr.Tunnel.Bypass.{
  Via, device, gateway, Route, Gateway, route_eq, is_vpn_interface, never_mirror, not_destinations,
}
use vpnmgr.Tunnel.Bypass.Ranges.{lan_ranges}

pub record Request : Type 0 where
  pub cidrs : List Text
  pub hosts : List Text
  pub other_vpns : Bool
  pub lan : Bool
  pub tunnel_addresses : List IpAddr
  pub our_interface : Text

route_via : Text → Option Gateway → Option Route
route_via destination none = none
route_via destination (some g) =
    some (record { destination = destination; via = gateway g.address g.device })

same_family : Bool → Bool → Bool
same_family true b = b
same_family false b = not b

-- A route through the first gateway of the destination's family.
unfoldable pub via_gateway : List Gateway → Text → Option Route
unfolding route_via same_family
via_gateway gateways destination =
    route_via destination (find (λ g. same_family (has_char b':' destination) g.v6) gateways)

-- The values behind the last `via` and the last `dev` of a line.
scan_default : Option Text → Option Text → List Text → Option Text × Option Text
scan_default gw dev [] = (gw, dev)
scan_default gw dev (t ∷ []) =
    if text_eq t (text "via")
    then (none, dev)
    else if text_eq t (text "dev")
    then (gw, none)
    else (gw, dev)
scan_default gw dev (t ∷ u ∷ rest) =
    let at_via = scan_default (some u) dev rest in
    let at_dev = scan_default gw (some u) rest in
    let other = scan_default gw dev (u ∷ rest) in
    if text_eq t (text "via") then at_via else if text_eq t (text "dev") then at_dev else other

both : Bool → Option Text × Option Text → Option Gateway
both v6 (some gw, some dev) = some (record { address = gw; device = dev; v6 = v6 })
both v6 (gw, dev) = none

-- The first default route of a listing that names a gateway and a device.
first_gateway : Bool → List Text → Option Gateway
unfolding scan_default both
first_gateway v6 [] = none
first_gateway v6 (line ∷ rest) = elim (both v6 (scan_default none none (split_whitespace line))) [
  | none ↦ first_gateway v6 rest
  | some g ↦ some g
]

listing_gateway : Bool → Option Text → List Gateway
unfolding first_gateway
listing_gateway v6 none = []
listing_gateway v6 (some listing) = elim (first_gateway v6 (lines listing)) [
  | none ↦ []
  | some g ↦ g ∷ []
]

-- The device that a line names last.
scan_device : Option Text → List Text → Option Text
scan_device dev [] = dev
scan_device dev (t ∷ []) = if text_eq t (text "dev") then none else dev
scan_device dev (t ∷ u ∷ rest) =
    let named = scan_device (some u) rest in
    let other = scan_device dev (u ∷ rest) in if text_eq t (text "dev") then named else other

-- A destination that belongs to another VPN's interface.
mirrored : Text → Text → Option Text → Option Route
mirrored our_interface destination none = none
mirrored our_interface destination (some dev) =
    if text_eq dev our_interface || not (is_vpn_interface dev)
    then none
    else some (record { destination = destination; via = device dev })

unfoldable pub route_of_line : Text → List Text → Option Route
unfolding scan_device mirrored
route_of_line our_interface [] = none
route_of_line our_interface (destination ∷ rest) =
    if contains destination not_destinations || any (λ p. starts_with p destination) never_mirror
    then none
    else mirrored our_interface destination (scan_device none (destination ∷ rest))

-- The first route to each destination.
collect_one : List Text → Option Route → (List Text → List Route) → List Route
collect_one seen none rest = rest seen
collect_one seen (some r) rest =
    if contains r.destination seen then rest seen else r ∷ rest (r.destination ∷ seen)

unfoldable pub collect_lines : Text → List Text → List Text → List Route
unfolding collect_one
collect_lines our_interface seen [] = []
collect_lines our_interface seen (line ∷ more) =
    collect_one seen (route_of_line our_interface (split_whitespace line))
      (λ seen'. collect_lines our_interface seen' more)

abbrev lines_of : Option Text → List Text
lines_of none = []
lines_of (some listing) = lines listing

-- `Vec::dedup`: one of each run of equal neighbours, which are the same value.
unfoldable pub dedup : List Route → List Route
dedup [] = []
dedup (r ∷ []) = r ∷ []
dedup (r ∷ s ∷ rest) = (if route_eq r s then [] else r ∷ []) ++ dedup (s ∷ rest)

abbrev pub by_destination : Route → Route → Bool
by_destination a b = text_le a.destination b.destination

-- What the machine answers: `ip -4` or `ip -6` with its arguments, and the resolver.
pub record Machine : Type 0 where
  pub ip_output : Bool → List Text → Option Text
  pub resolve : Text → List IpAddr
  pub parse_ip : Text → Option IpAddr
  pub show_ip : IpAddr → Text

module _ (m : Machine) where
  unfoldable pub default_gateways : List Gateway
  unfolding listing_gateway
  default_gateways =
      let args = text "route" ∷ text "show" ∷ text "default" ∷ [] in
      listing_gateway false (m.ip_output false args) ++ listing_gateway true (m.ip_output true args)

  unfoldable pub other_vpn_routes : Text → List Route
  unfolding collect_lines
  other_vpn_routes our_interface =
      let args = text "route" ∷ text "show" ∷ text "table" ∷ text "all" ∷ [] in
      collect_lines our_interface []
        (lines_of (m.ip_output false args) ++ lines_of (m.ip_output true args))

  host_routes : List Gateway → List Text → List Route
  host_routes gateways [] = []
  host_routes gateways (host ∷ rest) =
      filter_map (λ a. via_gateway gateways (m.show_ip a)) (m.resolve host)
      ++ host_routes gateways rest

  -- The routes in the order in which they are collected.
  unfoldable pub gathered : Request → List Route
  unfolding host_routes
  gathered r =
      let gateways = default_gateways in
      (if r.other_vpns then other_vpn_routes r.our_interface else [])
      ++ ((if r.lan
            then filter_map (via_gateway gateways) (lan_ranges m.parse_ip r.tunnel_addresses)
            else [])
          ++ (filter_map (via_gateway gateways) r.cidrs ++ host_routes gateways r.hosts))

  unfoldable pub plan : Request → List Route
  unfolding gathered dedup
  plan r = dedup (sort_by by_destination (gathered r))
