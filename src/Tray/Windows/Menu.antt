-- ===== src/Tray/Windows/Menu.antt =====
-- The menu of the Windows tray and the way back from an item to its action: `build_menu` and `MenuMap` of
-- crates/vpnmgr-tray/src/windows.rs. The toolkit gives each item an identifier, and no two the same.
use vpnmgr.Common.{
  ℕ, zero, suc, ◌+◌, ◌≡◌, refl, Bool, true, false, Option, none, some, is_some, List, [], ◌∷◌, ◌++◌,
  map, ◌==◌, if◌then◌else◌, get_elem?, arith,
}
use vpnmgr.Common.Text.{Text, text}
use vpnmgr.Common.Float.{Float}
use vpnmgr.Daemon.Ranked.{PendingSwitch, StatusReport}
use vpnmgr.Tray.Format.{truncate}
use vpnmgr.Tray.Client.{Action, connect, disconnect, autotune, edit_config, approve, dismiss, quit}
use vpnmgr.Tray.Windows.{Snapshot, connected, headline, baseline_line, quick_connect_entries}

pub record Button : Type 0 where
  pub label : Text
  pub enabled : Bool
  pub action : Action

-- A line that only tells something is never enabled.
pub data Line : Type 0 where
  separator : Line
  told : Text → Line
  button : Button → Line
  sub_menu : Text → Bool → List Button → Line

abbrev press : Text → Bool → Action → Line
press label enabled action = button (record { label = label; enabled = enabled; action = action })

told_if : (Text → Text) → Option Text → List Line
told_if show none = []
told_if show (some t) = told (show t) ∷ []

connection_lines : Bool → Bool → List Line
connection_lines true reachable = press (text "Disconnect") reachable disconnect ∷ []
connection_lines false reachable =
    press (text "Connect to best server") reachable (connect none (some false))
    ∷ press (text "Measure and connect") reachable (connect none (some true))
    ∷ []

choice : Text × Text → Button
choice (name, label) = record {
  label = label;
  enabled = true;
  action = connect (some name) (some false);
}

choice_lines : Bool → List (Text × Text) → List Line
unfolding choice
choice_lines reachable [] = []
choice_lines reachable (e ∷ es) = sub_menu (text "Connect to") reachable (map choice (e ∷ es)) ∷ []

edit_lines : Option Text → List Line
edit_lines none = []
edit_lines (some path) = press (text "Edit configuration…") true (edit_config path) ∷ []

module _ {F : Type 0} where
  abbrev field : {A : Type 0} → (StatusReport F → Option A) → Option (StatusReport F) → Option A
  field f none = none
  field f (some s) = f s

  pending_lines : Option (PendingSwitch F) → List Line
  unfolding truncate
  pending_lines none = []
  pending_lines (some p) =
      separator
      ∷ told
          (text "Suggested: " ++ (p.to.name ++ (text " (" ++ (truncate p.reason 40 ++ text ")"))))
      ∷ press (text "Switch now") true approve
      ∷ press (text "Keep the current server") true dismiss
      ∷ []

module _ {F : Type 0} ⦃fl : Float F⦄ where
  unfoldable pub build_menu : Snapshot F → List Line
  unfolding headline told_if truncate baseline_line pending_lines connection_lines connected
      choice_lines quick_connect_entries edit_lines
  build_menu s =
      told (headline s) ∷ told_if (λ reason. truncate reason 60) s.unreachable
      ++ (told_if (λ busy. busy ++ text "…") s.busy
          ++ (told_if (λ baseline. baseline) (baseline_line s)
              ++ (pending_lines (field (λ r. r.pending_switch) s.status)
                  ++ (separator ∷ connection_lines (connected s) (is_some s.status)
                      ++ (choice_lines (is_some s.status) (quick_connect_entries s)
                          ++ (press (text "Test servers now") (is_some s.status) autotune
                                ∷ edit_lines (field (λ r. r.config_path) s.status)
                              ++ (separator ∷ press (text "Quit") true quit ∷ [])))))))

line_actions : Line → List Action
line_actions separator = []
line_actions (told t) = []
line_actions (button b) = b.action ∷ []
line_actions (sub_menu label enabled buttons) = map (λ b. b.action) buttons

-- The actions of the items, in the order in which the items are made.
unfoldable pub actions : List Line → List Action
unfolding line_actions
actions [] = []
actions (l ∷ ls) = line_actions l ++ actions ls

module _ {MenuId : Type 0} (ids : ℕ → MenuId) (same : MenuId → MenuId → Bool) where
  -- `entries` of the `MenuMap`, from the item with the number `n` on.
  entries_from : ℕ → List Action → List (MenuId × Action)
  entries_from n [] = []
  entries_from n (a ∷ acts) = (ids n, a) ∷ entries_from (n + 1) acts

  unfoldable pub menu_map : List Line → List (MenuId × Action)
  unfolding entries_from actions
  menu_map lines = entries_from 0 (actions lines)

  unfoldable pub action_for : MenuId → List (MenuId × Action) → Option Action
  action_for id [] = none
  action_for id ((candidate, action) ∷ more) =
      if same candidate id then some action else action_for id more

  action_for-entries_from :
      ((i j : ℕ) → same (ids i) (ids j) ≡ (i == j))
      → (acts : List Action) (n k m : ℕ) → m ≡ n + k
      → action_for (ids m) (entries_from n acts) ≡ get_elem? acts k
  unfolding action_for entries_from
  action_for-entries_from h [] n k m e = refl
  action_for-entries_from h (a ∷ acts) n zero m e =
      let hit : (n == m) ≡ true = ground arith in rw (h n m, hit) refl
  action_for-entries_from h (a ∷ acts) n (suc k) m e =
      let miss : (n == m) ≡ false = ground arith in
      rw (h n m, miss) (action_for-entries_from h acts (n + 1) k m (omega arith))

  -- Where the identifiers tell the items apart, a click leads to the action of the item clicked.
  pub action_for-menu_map :
      ((i j : ℕ) → same (ids i) (ids j) ≡ (i == j))
      → (lines : List Line) (k : ℕ)
      → action_for (ids k) (menu_map lines) ≡ get_elem? (actions lines) k
  unfolding menu_map
  action_for-menu_map h lines k = action_for-entries_from h (actions lines) 0 k k (omega arith)
