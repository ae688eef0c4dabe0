-- ===== src/Tunnel/Windows/Tests.antt =====
-- Runs of the Windows tunnel and its kill switch on a machine where every process succeeds.
use vpnmgr.Common.{◌≡◌, refl, Bool, ◌==◌, true, Option, none, List, [], ◌∷◌}
use vpnmgr.Common.Text.{Text, text, text_eq, is_whitespace}
use vpnmgr.Core.Net.{v4, v6, Cidr, SocketAddr}
use vpnmgr.Core.Wgconf.Tests.{shifted, numbered}
use vpnmgr.Tunnel.Tests.{table, same_route, table-IsTable, lan_route}
use vpnmgr.Tunnel.Command.{System, exited, removed}
use vpnmgr.Tunnel.Spec.Restores.{Restores}
use vpnmgr.Tunnel.Spec.Interface.{done, failed}
use vpnmgr.Tunnel.WgShow.Fields.{IsField}
use vpnmgr.Tunnel.WindowsKillswitch.{WindowsKillswitch, powershell, rules}
use vpnmgr.Tunnel.WindowsKillswitch.Verdict.{
  passes, is_permitted, windows_rules-is_permitted, encrypted_to,
}
use vpnmgr.Tunnel.Windows.{windows_backend}
use vpnmgr.Tunnel.Windows.Quiet.{IsQuiet, Apart}
use vpnmgr.Tunnel.Windows.Withdrawn.{windows_backend-Restores}

abbrev machine : System (List Text)
machine = record {
  program_data = none;
  exists = λ path w. true;
  spawn = λ program args w. (exited true none [] [], w);
  create_dir_all = λ dir w. (done tt, w);
  write_file = λ path contents w. (failed (text "disk full"), w);
  remove_file = λ path w. (removed, w);
}

abbrev no_endpoint : Text → Option SocketAddr
no_endpoint t = none

-- The tunnel's own range would be that of the route to the local network.
abbrev owned : Cidr → Bool
owned c = c.prefix == 16

machine-IsQuiet :
    IsQuiet machine table shifted numbered no_endpoint lan_route owned
      (λ w. Unit {0})
      (λ path w. Unit {0})
unfolding powershell
machine-IsQuiet = record {
  table_clear = record { add = λ r w c. c; del = λ r w c. c };
  engage_rules = λ ks w c. (refl, c);
  release_rules = λ w c. (refl, c);
  icacls = λ args w c. (refl, c);
  wg = λ args w c. (refl, c);
  uninstall = λ name w c. (refl, c);
  install = λ path w there c. (refl, c);
  written = λ path c e w apart h. tt;
  create_dir_all = λ dir w c. (refl, c);
  write_file = λ path contents w c. (refl, c);
  remove_file = λ path w c. (refl, c);
}

windows_backend-Restores_example :
    Restores
      (windows_backend machine table shifted numbered no_endpoint)
      (λ w. table.route_exists lan_route w)
      (λ w. Unit {0})
      (Apart owned)
windows_backend-Restores_example =
    windows_backend-Restores machine table shifted numbered no_endpoint same_route lan_route
      table-IsTable owned (λ w. Unit {0}) (λ path w. Unit {0}) machine-IsQuiet

abbrev everything : List Cidr
everything = record { addr = v4 0; prefix = 0 } ∷ record { addr = v6 0; prefix = 0 } ∷ []

abbrev strict : WindowsKillswitch
strict = record {
  interface = text "vpnmgr0";
  port = 1637;
  allow_lan = true;
  allowed = text "203.0.113.0/24" ∷ [];
}

windows_rules-is_permitted_example :
    passes (encrypted_to (text "Ethernet") 1637) (rules strict)
    ≡ is_permitted strict (encrypted_to (text "Ethernet") 1637)
windows_rules-is_permitted_example =
    windows_rules-is_permitted strict (encrypted_to (text "Ethernet") 1637)

abbrev columns : List Text
columns = text "1024" ∷ text "2048" ∷ []

column-IsField : IsField (text "1024") × IsField (text "2048") × IsField (text "PUBKEY")
unfolding is_whitespace text_eq
column-IsField = (
  record { no_tab = refl; no_newline = refl; starts = refl; ends = refl; says = refl },
  record { no_tab = refl; no_newline = refl; starts = refl; ends = refl; says = refl },
  record { no_tab = refl; no_newline = refl; starts = refl; ends = refl; says = refl },
)
