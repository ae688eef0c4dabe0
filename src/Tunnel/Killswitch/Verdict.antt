-- ===== src/Tunnel/Killswitch/Verdict.antt =====
-- What the rules of the kill switch let out, packet by packet.
use vpnmgr.Common.{
  ℕ, ◌≡◌, refl, Bool, true, false, not, ◌&&◌, ◌||◌, List, [], ◌∷◌, ◌++◌, ◌==◌, is_empty, retain,
  arith, if◌then◌else◌,
}
use vpnmgr.Common.Text.{Text, text, text_eq}
use vpnmgr.Common.Scan.{join}
use vpnmgr.Tunnel.Killswitch.{
  Killswitch, Rule, accept_out, accept_mark, accept_v4, accept_v6, accept_dhcp, drop_rest, rules,
  lan_rules, destination_rule, is_v4, comma,
}

-- An outgoing packet. Whether its destination stands in a set that is written as a text is nft's to
-- say; an address of one family stands in no set of the other.
pub record Packet : Type 0 where
  pub interface : Text
  pub mark : ℕ
  pub in_v4 : Text → Bool
  pub in_v6 : Text → Bool
  pub dhcp : Bool

-- Whether a rule matches, and what the chain does: the first rule that matches decides.
abbrev pub matches : Packet → Rule → Bool
matches p (accept_out name) = text_eq p.interface name
matches p (accept_mark m) = p.mark == m
matches p (accept_v4 ds) = p.in_v4 ds
matches p (accept_v6 ds) = p.in_v6 ds
matches p accept_dhcp = p.dhcp
matches p drop_rest = true

abbrev pub is_accept : Rule → Bool
is_accept drop_rest = false
is_accept _ = true

-- The chain's policy is to accept.
abbrev pub passes : Packet → List Rule → Bool
passes p [] = true
passes p (r ∷ rs) = if matches p r then is_accept r else passes p rs

abbrev in_listed : (Text → Bool) → List Text → Bool
in_listed in_set ds = not (is_empty ds) && in_set (join comma ds)

-- What is meant to leave: loopback, the tunnel, the tunnel's own packets, the local link, DHCP, the
-- private networks where the setting lets them, and the destinations that bypass the tunnel.
abbrev pub is_permitted : Killswitch → Packet → Bool
is_permitted k p =
    text_eq p.interface (text "lo")
    || text_eq p.interface k.interface
    || p.mark == k.fwmark
    || p.in_v4 (text "169.254.0.0/16, 224.0.0.0/4, 255.255.255.255")
    || p.in_v6 (text "fe80::/10, ff00::/8")
    || p.dhcp
    || (k.allow_lan
        && (p.in_v4 (text "10.0.0.0/8, 172.16.0.0/12, 192.168.0.0/16")
            || p.in_v6 (text "fc00::/7")))
    || in_listed p.in_v4 (retain is_v4 k.bypass)
    || in_listed p.in_v6 (retain (λ d. not (is_v4 d)) k.bypass)

passes-lan :
    (p : Packet) (b : Bool) (rest : List Rule)
    → passes p (lan_rules b ++ rest)
      ≡ (b
          && (p.in_v4 (text "10.0.0.0/8, 172.16.0.0/12, 192.168.0.0/16")
              || p.in_v6 (text "fc00::/7")))
        || passes p rest
unfolding lan_rules
passes-lan p true rest = ground arith
passes-lan p false rest = refl

passes-destination_v4 :
    (p : Packet) (ds : List Text) (rest : List Rule)
    → passes p (destination_rule accept_v4 ds ++ rest) ≡ in_listed p.in_v4 ds || passes p rest
unfolding destination_rule
passes-destination_v4 p [] rest = refl
passes-destination_v4 p (d ∷ ds) rest = ground arith

passes-destination_v6 :
    (p : Packet) (ds : List Text) (rest : List Rule)
    → passes p (destination_rule accept_v6 ds ++ rest) ≡ in_listed p.in_v6 ds || passes p rest
unfolding destination_rule
passes-destination_v6 p [] rest = refl
passes-destination_v6 p (d ∷ ds) rest = ground arith

-- A packet leaves exactly if it is meant to: everything else is dropped, also with no tunnel up.
pub rules-is_permitted : (k : Killswitch) (p : Packet) → passes p (rules k) ≡ is_permitted k p
unfolding rules
rules-is_permitted k p =
    let six = destination_rule accept_v6 (retain (λ d. not (is_v4 d)) k.bypass) ++ drop_rest ∷ [] in
    let four = destination_rule accept_v4 (retain is_v4 k.bypass) ++ six in
    ground (
      arith,
      passes-lan p k.allow_lan four,
      passes-destination_v4 p (retain is_v4 k.bypass) six,
      passes-destination_v6 p (retain (λ d. not (is_v4 d)) k.bypass) (drop_rest ∷ []),
    )
