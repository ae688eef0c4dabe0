-- ===== src/Tunnel/WindowsKillswitch.antt =====
-- crates/vpnmgr-tunnel/src/killswitch_windows.rs: the rules that Windows Firewall lets traffic out by
-- once the default action is to block.
pub mod Verdict
use vpnmgr.Common.{
  ℕ, Bool, true, false, Option, none, some, List, [], ◌∷◌, ◌++◌, ltb, if◌then◌else◌, is_empty, map,
  ◌^◌,
}
use vpnmgr.Common.Text.{Text, text, trim, print_nat}
use vpnmgr.Common.Scan.{join, lines, parse_below}
use vpnmgr.Tunnel.Spec.Interface.{Outcome, done, failed}
use vpnmgr.Tunnel.Command.{
  ℤ, pos, show_int, Spawned, not_started, exited, System, config_dir, join_path,
}

abbrev group : Text
group = text "vpnmgr"

pub record WindowsKillswitch : Type 0 where
  pub interface : Text
  pub port : ℕ
  pub allow_lan : Bool
  pub allowed : List Text

-- The firewall mark is taken for the sake of the other platform, and not kept.
unfoldable pub killswitch_for : Text → ℕ → Bool → WindowsKillswitch
killswitch_for interface fwmark allow_lan = record {
  interface = interface;
  port = 1637;
  allow_lan = allow_lan;
  allowed = [];
}

unfoldable pub with_port : ℕ → WindowsKillswitch → WindowsKillswitch
with_port port k = record k { port = port }

unfoldable pub allowing : List Text → WindowsKillswitch → WindowsKillswitch
allowing destinations k = record k { allowed = destinations }

-- What an allow rule lets out: an adapter, a remote UDP port, or remote addresses.
pub data Scope : Type 0 where
  adapter udp_port remote : Text → Scope

-- A rule by its name and its scope.
abbrev pub Rule : Type 0
Rule = Text × Scope

lan_rules : Bool → List Rule
lan_rules true =
    (text "lan-v4", remote (text "10.0.0.0/8,172.16.0.0/12,192.168.0.0/16"))
    ∷ (text "lan-v6", remote (text "fc00::/7"))
    ∷ []
lan_rules false = []

-- Each destination in quotes.
abbrev pub quoted : List Text → Text
quoted ds = join (text ",") (map (λ d. text "'" ++ (d ++ text "'")) ds)

bypass_rules : List Text → List Rule
bypass_rules [] = []
bypass_rules (d ∷ ds) = (text "bypass", remote (quoted (d ∷ ds))) ∷ []

-- The rules in the order in which the script makes them; the first only where the adapter exists.
unfoldable pub rules : WindowsKillswitch → List Rule
unfolding lan_rules bypass_rules
rules k =
    (text "tunnel", adapter k.interface)
    ∷ (text "wireguard", udp_port (print_nat k.port))
    ∷ (text "link-v4", remote (text "169.254.0.0/16,224.0.0.0/4,255.255.255.255"))
    ∷ (text "link-v6", remote (text "fe80::/10,ff00::/8"))
    ∷ (text "dhcp", udp_port (text "67,68"))
    ∷ (lan_rules k.allow_lan ++ bypass_rules k.allowed)

show_scope : Scope → Text
show_scope (adapter name) = text "-InterfaceAlias '" ++ (name ++ text "'")
show_scope (udp_port ports) = text "-Protocol UDP -RemotePort " ++ ports
show_scope (remote addresses) = text "-RemoteAddress " ++ addresses

new_rule : Rule → Text
unfolding show_scope
new_rule (name, scope) =
    text "New-NetFirewallRule -DisplayName 'vpnmgr-allow-"
    ++ (name
        ++ (text "' -Group '"
            ++ (group
                ++ (text "' -Direction Outbound -Action Allow -Profile Any "
                    ++ (show_scope scope ++ text " | Out-Null\n")))))

-- The rule for an adapter stands behind a test that the adapter is there.
show_rule : Rule → Text
unfolding new_rule
show_rule (name, adapter alias) =
    text "if (Get-NetAdapter -Name '"
    ++ (alias
        ++ (text "' -ErrorAction SilentlyContinue) {\n  "
            ++ (new_rule (name, adapter alias) ++ text "}\n")))
show_rule (name, scope) = new_rule (name, scope)

show_rules : List Rule → Text
unfolding show_rule
show_rules [] = []
show_rules (r ∷ rs) = show_rule r ++ show_rules rs

abbrev remove_group : Text
remove_group =
    text "Get-NetFirewallRule -Group '"
    ++ (group
        ++ text
            "' -ErrorAction SilentlyContinue | Remove-NetFirewallRule -ErrorAction SilentlyContinue\n")

module _ {World : Type 0} (s : System World) where
  restore_path : Text
  unfolding join_path config_dir
  restore_path = join_path (config_dir s) (text "killswitch-restore.txt")

  -- The action to go back to is recorded once, and blocking comes last.
  unfoldable pub script : WindowsKillswitch → Text
  unfolding restore_path rules show_rules
  script k =
      text "$ErrorActionPreference = 'Stop'\n"
      ++ (remove_group
          ++ (text "$restore = '"
              ++ (restore_path
                  ++ (text
                        "'\nNew-Item -ItemType Directory -Force -Path (Split-Path -Parent $restore) | Out-Null\nif (-not (Test-Path $restore)) {\n  (Get-NetFirewallProfile -All | ForEach-Object { \"$($_.Name)=$($_.DefaultOutboundAction)\" }) -join ';' | Set-Content -Path $restore\n}\n"
                      ++ (show_rules (rules k)
                          ++ text "Set-NetFirewallProfile -All -DefaultOutboundAction Block\n")))))

  pub release_script : Text
  unfolding restore_path
  release_script =
      text "$ErrorActionPreference = 'Continue'\n"
      ++ (remove_group
          ++ (text "$restore = '"
              ++ (restore_path
                  ++ text
                      "'\nif (Test-Path $restore) {\n  foreach ($entry in (Get-Content $restore) -split ';') {\n    $parts = $entry -split '='\n    if ($parts.Count -eq 2) { Set-NetFirewallProfile -Name $parts[0] -DefaultOutboundAction $parts[1] }\n  }\n  Remove-Item -Force $restore\n} else {\n  # No record: Allow is the Windows default, and leaving the machine\n  # unable to reach anything would be worse than a wrong guess.\n  Set-NetFirewallProfile -All -DefaultOutboundAction Allow\n}\n")))

  unfoldable pub powershell : Text → World → Spawned × World
  powershell command w =
      s.spawn (text "powershell")
        (text "-NoProfile" ∷ text "-NonInteractive" ∷ text "-Command" ∷ command ∷ []) w

  first_line : List Text → Text
  first_line [] = text "no output"
  first_line (l ∷ ls) = if is_empty (trim l) then first_line ls else trim l

  abbrev code_text : Option ℤ → Text
  code_text none = text "-1"
  code_text (some code) = show_int code

  unfoldable pub powershell_result : Spawned → Outcome (Unit {0})
  unfolding first_line show_int
  powershell_result (not_started e) = failed e
  powershell_result (exited true code stdout stderr) = done tt
  powershell_result (exited false code stdout stderr) =
      failed
        (text "powershell exited " ++ (code_text code ++ (text ": " ++ first_line (lines stderr))))

  abbrev labelled : Text → Outcome (Unit {0}) → Outcome (Unit {0})
  labelled operation (done u) = done u
  labelled operation (failed e) = failed (operation ++ (text " the kill switch failed: " ++ e))

  -- Removes the rules and puts the default action back.
  unfoldable pub release : World → Outcome (Unit {0}) × World
  unfolding release_script powershell powershell_result
  release w =
      let (r, w') = powershell release_script w in
      (labelled (text "releasing") (powershell_result r), w')

  -- A script that failed is rolled back; a rollback that fails is only logged.
  unfoldable pub or_rolled_back : Outcome (Unit {0}) → World → Outcome (Unit {0}) × World
  unfolding release
  or_rolled_back (done u) w = (done u, w)
  or_rolled_back (failed e) w = (labelled (text "engaging") (failed e), (release w).1)

  unfoldable pub engage : WindowsKillswitch → World → Outcome (Unit {0}) × World
  unfolding script powershell powershell_result or_rolled_back
  engage k w = let (r, w') = powershell (script k) w in or_rolled_back (powershell_result r) w'

  counted : Option ℕ → Bool
  counted none = false
  counted (some n) = ltb 0 n

  engaged_output : Spawned → Bool
  unfolding counted
  engaged_output (exited true code stdout stderr) = counted (parse_below (2 ^ 32) (trim stdout))
  engaged_output _ = false

  -- Whether the rules are there.
  pub is_engaged : World → Bool
  unfolding engaged_output powershell
  is_engaged w =
      engaged_output
        (powershell
          (text "@(Get-NetFirewallRule -Group '"
            ++ (group ++ text "' -ErrorAction SilentlyContinue).Count"))
          w).0
