-- ===== src/Tunnel/Killswitch.antt =====
-- crates/vpnmgr-tunnel/src/killswitch.rs: the nftables ruleset that confines traffic to the tunnel.
pub mod Verdict
pub mod Nft
use vpnmgr.Common.{ℕ, Bool, true, false, not, List, [], ◌∷◌, ◌++◌, if◌then◌else◌, is_empty, retain}
use vpnmgr.Common.Text.{Text, text, has_char, print_nat}
use vpnmgr.Common.Scan.{join}

abbrev pub table_name : Text
table_name = text "vpnmgr"

pub record Killswitch : Type 0 where
  pub interface : Text
  pub fwmark : ℕ
  pub allow_lan : Bool
  pub bypass : List Text

unfoldable pub killswitch_for : Text → ℕ → Bool → Killswitch
killswitch_for interface fwmark allow_lan = record {
  interface = interface;
  fwmark = fwmark;
  allow_lan = allow_lan;
  bypass = [];
}

unfoldable pub allowing : List Text → Killswitch → Killswitch
allowing destinations k = record k { bypass = destinations }

abbrev comma : Text
comma = text ", "

-- The rules of the chain, in order; nft takes the first that matches.
pub data Rule : Type 0 where
  accept_out : Text → Rule
  accept_mark : ℕ → Rule
  accept_v4 accept_v6 : Text → Rule
  accept_dhcp drop_rest : Rule

lan_rules : Bool → List Rule
lan_rules true =
    accept_v4 (text "10.0.0.0/8, 172.16.0.0/12, 192.168.0.0/16") ∷ accept_v6 (text "fc00::/7") ∷ []
lan_rules false = []

-- No rule where there is nothing to accept.
destination_rule : (Text → Rule) → List Text → List Rule
destination_rule rule ds = if is_empty ds then [] else rule (join comma ds) ∷ []

abbrev pub is_v4 : Text → Bool
is_v4 d = not (has_char b':' d)

unfoldable pub rules : Killswitch → List Rule
unfolding lan_rules destination_rule
rules k =
    accept_out (text "lo")
    ∷ accept_out k.interface
    ∷ accept_mark k.fwmark
    ∷ accept_v4 (text "169.254.0.0/16, 224.0.0.0/4, 255.255.255.255")
    ∷ accept_v6 (text "fe80::/10, ff00::/8")
    ∷ accept_dhcp
    ∷ (lan_rules k.allow_lan
        ++ (destination_rule accept_v4 (retain is_v4 k.bypass)
            ++ (destination_rule accept_v6 (retain (λ d. not (is_v4 d)) k.bypass)
                ++ drop_rest ∷ [])))

show_rule : Rule → Text
show_rule (accept_out name) = text "    oifname \"" ++ (name ++ text "\" accept\n")
show_rule (accept_mark mark) = text "    meta mark " ++ (print_nat mark ++ text " accept\n")
show_rule (accept_v4 ds) = text "    ip daddr { " ++ (ds ++ text " } accept\n")
show_rule (accept_v6 ds) = text "    ip6 daddr { " ++ (ds ++ text " } accept\n")
show_rule accept_dhcp = text "    udp dport { 67, 68 } accept\n"
show_rule drop_rest = text "    counter drop\n"

show_rules : List Rule → Text
unfolding show_rule
show_rules [] = []
show_rules (r ∷ rs) = show_rule r ++ show_rules rs

-- Creating the table and deleting it makes the deletion succeed whether or not it was there.
abbrev pub release_script : Text
release_script =
    text "table inet "
    ++ (table_name ++ (text " {}\ndelete table inet " ++ (table_name ++ text "\n")))

unfoldable pub script : Killswitch → Text
unfolding rules show_rules
script k =
    release_script
    ++ (text "table inet "
        ++ (table_name
            ++ (text
                  " {\n  chain output {\n    type filter hook output priority filter; policy accept;\n"
                ++ (show_rules (rules k) ++ text "  }\n}\n"))))
