-- ===== src/Tray/Linux/Menu.antt =====
-- The menu of the Linux tray: `menu` of crates/vpnmgr-tray/src/linux.rs. Each part is put in front of
-- what follows it, in the order of the code.
pub mod Offered
use vpnmgr.Common.{
  ℕ, Bool, true, false, ◌&&◌, Option, none, some, is_some, is_none, List, [], ◌∷◌, ◌++◌, map,
  if◌then◌else◌,
}
use vpnmgr.Common.Text.{Text, text, trim, print_nat}
use vpnmgr.Common.Float.{Float}
use vpnmgr.Common.Scan.{lines}
use vpnmgr.Daemon.Ranked.{RankedServer, PendingSwitch, StatusReport}
use vpnmgr.Tray.Format.{truncate}
use vpnmgr.Tray.Client.{Action, connect, disconnect, autotune, edit_config, approve, dismiss, quit}
use vpnmgr.Tray.Linux.{
  VpnTray, connected, headline, baseline_line, handshake_text, quick_connect_entries,
}

-- `activate` is the action that a click dispatches.
pub record Item : Type 0 where
  pub label : Text
  pub icon_name : Text
  pub enabled : Bool
  pub activate : Option Action

pub data MenuItem : Type 0 where
  separator : MenuItem
  standard : Item → MenuItem
  sub_menu : Text → List Item → MenuItem

abbrev pub button : Text → Text → Bool → Action → Item
button label icon_name enabled action = record {
  label = label;
  icon_name = icon_name;
  enabled = enabled;
  activate = some action;
}

unfoldable pub disabled : Text → MenuItem
disabled label =
    standard (record { label = label; icon_name = []; enabled = false; activate = none })

-- A remedy stands on a line of its own, which is kept whole up to a width of 90.
pub reason_lines : Option Text → List MenuItem
unfolding disabled truncate lines trim
reason_lines none = []
reason_lines (some reason) =
    map (λ line. disabled (text "  " ++ truncate (trim line) 90)) (lines reason)

pub note : (Text → Text) → Option Text → List MenuItem
unfolding disabled
note show none = []
note show (some t) = disabled (show t) ∷ []

pub busy_text : Text → Text
busy_text busy = busy ++ text "…"

pub error_line : Text → Text
unfolding truncate
error_line error = text "error: " ++ truncate error 60

or_zero : Option ℕ → ℕ
or_zero none = 0
or_zero (some n) = n

pub edit_item : Bool → Option Text → List MenuItem
edit_item idle none = []
edit_item idle (some path) =
    standard (button (text "Edit configuration…") (text "document-edit") idle (edit_config path))
    ∷ []

pub choice_item : Bool → Text × Text → Item
choice_item idle (name, label) = record {
  label = label;
  icon_name = [];
  enabled = idle;
  activate = some (connect (some name) none);
}

pub choices : Bool → Bool → List (Text × Text) → List MenuItem
unfolding choice_item
choices is_connected idle [] = []
choices is_connected idle (e ∷ es) =
    sub_menu (if is_connected then text "Switch to" else text "Connect to")
      (map (choice_item idle) (e ∷ es))
    ∷ []

-- Connecting is offered in two ways, and only with no connection.
pub connection_items : Bool → Bool → Bool → List MenuItem
connection_items true reachable idle =
    standard (button (text "Disconnect") (text "network-offline") idle disconnect) ∷ []
connection_items false reachable idle =
    standard (
      button (text "Connect to best server") (text "network-vpn") (reachable && idle)
        (connect none (some false)))
    ∷ standard (
        button (text "Measure and connect") (text "speedometer") (reachable && idle)
          (connect none (some true)))
    ∷ []

pub tune_items : Option Text → List MenuItem
unfolding disabled truncate
tune_items none = []
tune_items (some tune) = separator ∷ disabled (truncate tune 70) ∷ []

pub quit_items : List MenuItem
quit_items =
    separator ∷ standard (button (text "Quit tray") (text "application-exit") true quit) ∷ []

module _ {F : Type 0} where
  -- The first field of the status that is asked for, `and_then` on the status.
  abbrev pub field : {A : Type 0} → (StatusReport F → Option A) → Option (StatusReport F) → Option A
  field f none = none
  field f (some s) = f s

  pub reason_items : Option (StatusReport F) → Option Text → List MenuItem
  unfolding reason_lines
  reason_items none unreachable = reason_lines unreachable
  reason_items (some s) unreachable = []

  pub entry_items : Option (StatusReport F) → List MenuItem
  unfolding disabled handshake_text or_zero
  entry_items none = []
  entry_items (some s) =
      if s.connected
      then disabled (
          text "entry "
          ++ (print_nat (or_zero s.entry)
              ++ (text " · handshake "
                  ++ (handshake_text s.last_handshake_secs
                      ++ (text " · "
                          ++ (if s.healthy then text "healthy" else text "NO TRAFFIC"))))))
        ∷ []
      else []

module _ {F : Type 0} ⦃fl : Float F⦄ where
  pub pending_items : Option (PendingSwitch F) → List MenuItem
  unfolding disabled
  pending_items none = []
  pending_items (some p) =
      separator
      ∷ disabled (
          text "Suggested: "
          ++ (p.to.name ++ (text " (" ++ (fl.format 1 p.to.rtt_ms ++ text "ms)"))))
      ∷ standard (button (text "Switch to " ++ p.to.name) (text "go-next") true approve)
      ∷ standard (button (text "Keep current server") [] true dismiss)
      ∷ []

  -- What is told, above what can be clicked.
  pub told_items : VpnTray F → List MenuItem
  unfolding disabled headline reason_items entry_items baseline_line note busy_text error_line
  told_items t =
      disabled (headline t) ∷ reason_items t.status t.unreachable
      ++ (entry_items t.status
          ++ (note (λ b. b) (baseline_line t)
              ++ (note busy_text t.busy ++ note error_line t.error)))

  unfoldable pub is_idle : VpnTray F → Bool
  is_idle t = is_none t.busy && is_some t.status

  pub control_items : VpnTray F → List MenuItem
  unfolding is_idle edit_item connection_items connected choices quick_connect_entries
  control_items t =
      standard
          (button (text "Test now") (text "view-refresh") (is_some t.status && is_idle t) autotune)
        ∷ edit_item (is_idle t) (field (λ s. s.config_path) t.status)
      ++ (connection_items (connected t) (is_some t.status) (is_idle t)
          ++ choices (connected t) (is_idle t) (quick_connect_entries t))

  unfoldable pub menu : VpnTray F → List MenuItem
  unfolding told_items pending_items control_items tune_items quit_items
  menu t =
      told_items t
      ++ (pending_items (field (λ s. s.pending_switch) t.status)
          ++ (separator ∷ control_items t
              ++ (tune_items (field (λ s. s.last_tune) t.status) ++ quit_items)))
