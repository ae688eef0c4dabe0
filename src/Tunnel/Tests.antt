-- ===== src/Tunnel/Tests.antt =====
-- Runs of vpnmgr-tunnel on a small machine and a routing table of prefixes.
use vpnmgr.Common.{
  ◌*◌, ◌^◌, InOrder, ◌≡◌, ◌↔◌, refl, Bool, true, false, not, ◌||◌, Option, none, some, List, [],
  ◌∷◌, In, All, arith, if◌then◌else◌, ◌&&◌,
}
use vpnmgr.Common.Text.{Text, text, text_le, text_eq, text_eq_iff}
use vpnmgr.Core.Net.{IpAddr, v4, v6}
use vpnmgr.Tunnel.Bypass.{Route, device, prefix, new_bypass}
use vpnmgr.Tunnel.Bypass.Plan.{Machine, Request, gathered, plan, other_vpn_routes}
use vpnmgr.Tunnel.Bypass.Plan.Sorted.{NoTwins, plan_lem}
use vpnmgr.Tunnel.Bypass.Plan.Mirrored.{IsMirrored, IsDistinct, other_vpn_routes-IsMirrored}
use vpnmgr.Tunnel.Bypass.Ranges.{lan_ranges}
use vpnmgr.Tunnel.Bypass.Ranges.Clear.{ReadsNetworks, lan_ranges-clear}
use vpnmgr.Tunnel.Bypass.Installed.{MainTable, install, remove}
use vpnmgr.Tunnel.Bypass.Installed.Restored.{IsTable, remove-install}
use vpnmgr.Tunnel.Killswitch.Nft.{count_in, ran}
use vpnmgr.Tunnel.Killswitch.{Killswitch, rules}
use vpnmgr.Tunnel.Killswitch.Verdict.{Packet, passes, is_permitted, rules-is_permitted}

abbrev parse_ip : Text → Option IpAddr
parse_ip t =
    if text_eq t (text "10.0.0.0")
    then some (v4 167772160)
    else if text_eq t (text "172.16.0.0")
    then some (v4 2886729728)
    else if text_eq t (text "192.168.0.0")
    then some (v4 3232235520)
    else if text_eq t (text "fc00::")
    then some (v6 (252 * 2 ^ 120))
    else none

abbrev pub machine : Machine
machine = record {
  ip_output =
      λ v6 args. some (text "100.64.0.0/10 dev tailscale0\ndefault via 192.168.0.1 dev eth0\n");
  resolve = λ host. v4 5 ∷ [];
  parse_ip = parse_ip;
  show_ip = λ a. text "5.6.7.8";
}

abbrev bypass_request : Request
bypass_request = record {
  cidrs = text "203.0.113.0/24" ∷ [];
  hosts = text "example.org" ∷ [];
  other_vpns = true;
  lan = true;
  tunnel_addresses = v4 167772161 ∷ [];
  our_interface = text "vpnmgr0";
}

abbrev strict : Killswitch
strict = record {
  interface = text "vpnmgr0";
  fwmark = 51820;
  allow_lan = false;
  bypass = text "203.0.113.0/24" ∷ [];
}

abbrev stray : Packet
stray = record {
  interface = text "eth0";
  mark = 0;
  in_v4 = λ set. false;
  in_v6 = λ set. false;
  dhcp = false;
}

rules-is_permitted_example : passes stray (rules strict) ≡ is_permitted strict stray
rules-is_permitted_example = rules-is_permitted strict stray

plan_example :
    ((a : Route) → In a (plan machine bypass_request) ↔ In a (gathered machine bypass_request))
    × InOrder (λ a b. text_le a.destination b.destination ≡ true) (plan machine bypass_request)
    × NoTwins (plan machine bypass_request)
plan_example = plan_lem machine bypass_request

other_vpn_routes_example :
    All (IsMirrored (text "vpnmgr0")) (other_vpn_routes machine (text "vpnmgr0"))
    × IsDistinct [] (other_vpn_routes machine (text "vpnmgr0"))
other_vpn_routes_example = other_vpn_routes-IsMirrored machine (text "vpnmgr0")

parse_ip-ReadsNetworks : ReadsNetworks parse_ip
unfolding text_eq
parse_ip-ReadsNetworks = record {
  ten = refl;
  one_seven_two = refl;
  one_nine_two = refl;
  unique_local = refl;
}

lan_ranges-clear_example :
    lan_ranges parse_ip (v4 167772161 ∷ [])
    ≡ text "172.16.0.0/12" ∷ text "192.168.0.0/16" ∷ text "fc00::/7" ∷ []
lan_ranges-clear_example = lan_ranges-clear parse_ip parse_ip-ReadsNetworks (v4 167772161 ∷ [])

-- A table is the list of its prefixes.
abbrev holds : Text → List Text → Bool
holds p [] = false
holds p (q ∷ qs) = text_eq q p || holds p qs

abbrev without : Text → List Text → List Text
without p [] = []
without p (q ∷ qs) = if text_eq q p then without p qs else q ∷ without p qs

abbrev pub table : MainTable (List Text)
table = record {
  route_exists = λ r w. holds (prefix r) w;
  sys_add = λ r w. (true, prefix r ∷ w);
  sys_del = λ r w. (true, without (prefix r) w);
}

abbrev pub same_route : Route → Route → Bool
same_route r s = text_eq (prefix r) (prefix s)

holds-without :
    (p q : Text) (w : List Text) → holds q (without p w) ≡ (holds q w && not (text_eq p q))
holds-without p q [] = refl
holds-without p q (x ∷ xs) =
    ground (arith, holds-without p q xs, text_eq_iff x p, text_eq_iff x q, text_eq_iff p q)

holds-same : (p q : Text) (w : List Text) → text_eq p q ≡ true → holds p w ≡ holds q w
holds-same p q w h = let e : p ≡ q = (text_eq_iff p q).0 h in rw e refl

pub table-IsTable : IsTable table same_route
table-IsTable = record {
  exists_same = λ r s w h. holds-same (prefix r) (prefix s) w h;
  add_exists = λ r s w. ground arith;
  del_exists = λ r s w. holds-without (prefix r) (prefix s) w;
}

abbrev pub lan_route : Route
lan_route = record { destination = text "192.168.0.0/16"; via = device (text "eth0") }

remove-install_example :
    let q = install table (lan_route ∷ []) new_bypass [] in
    let done = remove table q.0 q.1 in
    (done.0 ≡ new_bypass) × (table.route_exists lan_route done.1 ≡ table.route_exists lan_route [])
remove-install_example = remove-install table same_route table-IsTable (lan_route ∷ []) [] lan_route

-- The counter of a listing by nft.
counts :
    count_in (
      ran true (
        text
          "table inet vpnmgr {\n  chain output {\n    counter packets 12 bytes 900 drop\n  }\n}\n"))
    ≡ some 12
unfolding count_in
counts = refl
