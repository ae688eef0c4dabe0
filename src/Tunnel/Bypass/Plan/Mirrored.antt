-- ===== src/Tunnel/Bypass/Plan/Mirrored.antt =====
-- Which routes of other VPNs are kept in front of the tunnel.
use vpnmgr.Common.{
  ◌≡◌, ◌≢◌, refl, true, false, not, ◌||◌, Option, none, some, List, [], ◌∷◌, All, Bool-cases, inl,
  inr, arith, any,
}
use vpnmgr.Common.Text.{Text, text_eq, text_eq_iff, starts_with, contains}
use vpnmgr.Common.Scan.{split_whitespace}
use vpnmgr.Tunnel.Bypass.{device, Route, is_vpn_interface, never_mirror, not_destinations}
use vpnmgr.Tunnel.Bypass.Plan.{
  Machine, scan_device, mirrored, route_of_line, collect_one, collect_lines, other_vpn_routes,
}

-- The route goes by the interface of another VPN, to a destination that may be mirrored.
pub record IsMirrored (our_interface : Text) (r : Route) : Type 0 where
  pub interface : Text
  pub via : r.via ≡ device interface
  pub other : interface ≢ our_interface
  pub vpn : is_vpn_interface interface ≡ true
  pub destination : contains r.destination not_destinations ≡ false
  pub allowed : any (λ p. starts_with p r.destination) never_mirror ≡ false

abbrev IfSome : (Route → Type 0) → Option Route → Type 0
IfSome P none = Unit
IfSome P (some r) = P r

mirrored-Some :
    (ours destination : Text) (o : Option Text)
    → contains destination not_destinations ≡ false
    → any (λ p. starts_with p destination) never_mirror ≡ false
    → IfSome (IsMirrored ours) (mirrored ours destination o)
unfolding mirrored
mirrored-Some ours destination none h k = tt
mirrored-Some ours destination (some dev) h k =
    elim (Bool-cases (text_eq dev ours || not (is_vpn_interface dev))) [
      | inl e ↦ rw e tt
      | inr e ↦ rw e (record {
        interface = dev;
        via = refl;
        other = λ same. ground (arith, text_eq_iff dev ours, e);
        vpn = ground (arith, e);
        destination = h;
        allowed = k;
      })
    ]

route_of_line-Some :
    (ours : Text) (words : List Text) → IfSome (IsMirrored ours) (route_of_line ours words)
unfolding route_of_line
route_of_line-Some ours [] = tt
route_of_line-Some ours (destination ∷ rest) =
    elim (Bool-cases (
      contains destination not_destinations || any (λ p. starts_with p destination) never_mirror)) [
        | inl e ↦ rw e tt
        | inr e ↦ rw e (
            mirrored-Some ours destination (scan_device none (destination ∷ rest))
              (ground (arith, e)) (ground (arith, e)))
      ]

-- No destination twice, and none of those seen before.
abbrev pub IsDistinct : List Text → List Route → Type 0
IsDistinct seen [] = Unit
IsDistinct seen (r ∷ rs) =
    (contains r.destination seen ≡ false) × IsDistinct (r.destination ∷ seen) rs

abbrev Collected : Text → List Text → List Route → Type 0
Collected ours seen rs = All (IsMirrored ours) rs × IsDistinct seen rs

collect_one-Collected :
    (ours : Text) (seen : List Text) (o : Option Route) (rest : List Text → List Route)
    → IfSome (IsMirrored ours) o
    → ((seen' : List Text) → Collected ours seen' (rest seen'))
    → Collected ours seen (collect_one seen o rest)
unfolding collect_one
collect_one-Collected ours seen none rest h k = k seen
collect_one-Collected ours seen (some r) rest h k =
    elim (Bool-cases (contains r.destination seen)) [
      | inl e ↦ rw e (k seen)
      | inr e ↦ let (a, d) = k (r.destination ∷ seen) in rw e ((h, a), (e, d))
    ]

collect_lines-Collected :
    (ours : Text) (seen : List Text) (ls : List Text)
    → Collected ours seen (collect_lines ours seen ls)
unfolding collect_lines
collect_lines-Collected ours seen [] = (tt, tt)
collect_lines-Collected ours seen (line ∷ more) =
    collect_one-Collected ours seen (route_of_line ours (split_whitespace line))
      (λ seen'. collect_lines ours seen' more) (route_of_line-Some ours (split_whitespace line))
      (λ seen'. collect_lines-Collected ours seen' more)

-- Every route taken over belongs to the interface of another VPN and leads to a destination that may
-- be mirrored, and no two lead to the same one.
pub other_vpn_routes-IsMirrored :
    (m : Machine) (our_interface : Text)
    → All (IsMirrored our_interface) (other_vpn_routes m our_interface)
      × IsDistinct [] (other_vpn_routes m our_interface)
unfolding other_vpn_routes
other_vpn_routes-IsMirrored m our_interface = collect_lines-Collected our_interface [] _
