-- ===== src/Tunnel/WindowsKillswitch/Verdict.antt =====
-- What Windows Firewall lets out by the rules: anything that a rule allows, and nothing else.
use vpnmgr.Common.{
  ℕ, ◌≡◌, refl, Bool, true, false, not, ◌&&◌, ◌||◌, List, [], ◌∷◌, ◌++◌, is_empty, arith,
}
use vpnmgr.Common.Text.{Text, text, text_eq, print_nat}
use vpnmgr.Tunnel.WindowsKillswitch.{
  WindowsKillswitch, Scope, adapter, udp_port, remote, Rule, rules, lan_rules, bypass_rules, quoted,
}

-- An outgoing packet. Whether its port or its destination stands in a list that is written as a text
-- is the firewall's to say.
pub record Packet : Type 0 where
  pub on_adapter : Text
  pub to_udp : Text → Bool
  pub to_address : Text → Bool

abbrev pub matches : Packet → Scope → Bool
matches p (adapter name) = text_eq p.on_adapter name
matches p (udp_port ports) = p.to_udp ports
matches p (remote addresses) = p.to_address addresses

-- The default action blocks.
abbrev pub passes : Packet → List Rule → Bool
passes p [] = false
passes p (r ∷ rs) = matches p r.1 || passes p rs

-- What is meant to leave: the tunnel, encrypted packets by their port, the local link, DHCP, the
-- private networks where the setting lets them, and the destinations that bypass the tunnel.
abbrev pub is_permitted : WindowsKillswitch → Packet → Bool
is_permitted k p =
    text_eq p.on_adapter k.interface
    || p.to_udp (print_nat k.port)
    || p.to_address (text "169.254.0.0/16,224.0.0.0/4,255.255.255.255")
    || p.to_address (text "fe80::/10,ff00::/8")
    || p.to_udp (text "67,68")
    || (k.allow_lan
        && (p.to_address (text "10.0.0.0/8,172.16.0.0/12,192.168.0.0/16")
            || p.to_address (text "fc00::/7")))
    || (not (is_empty k.allowed) && p.to_address (quoted k.allowed))

passes-append :
    (p : Packet) (xs ys : List Rule) → passes p (xs ++ ys) ≡ (passes p xs || passes p ys)
passes-append p [] ys = refl
passes-append p (x ∷ xs) ys = ground (arith, passes-append p xs ys)

passes-lan :
    (p : Packet) (b : Bool)
    → passes p (lan_rules b) ≡ (
        b
        && (p.to_address (text "10.0.0.0/8,172.16.0.0/12,192.168.0.0/16")
            || p.to_address (text "fc00::/7")))
unfolding lan_rules
passes-lan p true = ground arith
passes-lan p false = refl

passes-bypass :
    (p : Packet) (ds : List Text)
    → passes p (bypass_rules ds) ≡ (not (is_empty ds) && p.to_address (quoted ds))
unfolding bypass_rules
passes-bypass p [] = refl
passes-bypass p (d ∷ ds) = ground arith

-- With the default action at Block, a packet leaves exactly if it is meant to.
pub windows_rules-is_permitted :
    (k : WindowsKillswitch) (p : Packet) → passes p (rules k) ≡ is_permitted k p
unfolding rules
windows_rules-is_permitted k p = ground (
  arith,
  passes-append p (lan_rules k.allow_lan) (bypass_rules k.allowed),
  passes-lan p k.allow_lan,
  passes-bypass p k.allowed,
)

-- A WireGuard packet to the port, on the link that carries it, outside every listed range.
abbrev pub encrypted_to : Text → ℕ → Packet
encrypted_to link port = record {
  on_adapter = link;
  to_udp = λ ports. text_eq ports (print_nat port);
  to_address = λ addresses. false;
}
