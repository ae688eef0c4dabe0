-- ===== src/Tray/Linux/Menu/Offered.antt =====
-- What a click on the menu can ask for, against a description of it that knows no menu.
use vpnmgr.Common.{
  ◌≡◌, refl, sym, ap, ◌∙◌, Bool, true, false, Bool-cases, inl, inr, ◌&&◌, Option, none, some,
  is_some, is_none, List, [], ◌∷◌, ◌++◌, map, take, if◌then◌else◌,
}
use mathlib.Core.List.{append_assoc, append-nil}
use vpnmgr.Common.Text.{Text, text, trim}
use vpnmgr.Common.Scan.{lines}
use vpnmgr.Tray.Format.{truncate}
use vpnmgr.Common.Float.{Float}
use vpnmgr.Daemon.Ranked.{RankedServer, ServerSummary, PendingSwitch, StatusReport}
use vpnmgr.Tray.Client.{
  Action, connect, disconnect, autotune, edit_config, approve, dismiss, quit, quick_connect_limit,
}
use vpnmgr.Tray.Linux.Menu.{
  Item, MenuItem, separator, standard, sub_menu, disabled, field, is_idle, menu, told_items,
  pending_items, control_items, tune_items, quit_items, reason_lines, note, busy_text, reason_items,
  entry_items, edit_item, choices, choice_item, connection_items,
}
use vpnmgr.Tray.Linux.{
  baseline_line, ranked_entry, server_entry, entries_of, VpnTray, connected, quick_connect_entries,
}

abbrev options : {A : Type 0} → Option A → List A
options none = []
options (some a) = a ∷ []

item_clicks : Item → List Action
item_clicks i = if i.enabled then options i.activate else []

items_clicks : List Item → List Action
unfolding item_clicks
items_clicks [] = []
items_clicks (i ∷ is) = item_clicks i ++ items_clicks is

entry_clicks : MenuItem → List Action
unfolding item_clicks items_clicks
entry_clicks separator = []
entry_clicks (standard i) = item_clicks i
entry_clicks (sub_menu label items) = items_clicks items

-- The actions of the entries that are enabled, from top to bottom.
unfoldable pub clicks : List MenuItem → List Action
unfolding entry_clicks
clicks [] = []
clicks (m ∷ ms) = entry_clicks m ++ clicks ms

choose : Text → Action
choose name = connect (some name) none

moves : Bool → List Action
moves true = disconnect ∷ []
moves false = connect none (some false) ∷ connect none (some true) ∷ []

module _ {F : Type 0} where
  -- The servers to choose: the first of the ranking, or else of the list by load.
  names : List (RankedServer F) → List ServerSummary → List Text
  names [] servers = map (λ s. s.name) (take quick_connect_limit servers)
  names (r ∷ rs) servers = map (λ s. s.name) (take quick_connect_limit (r ∷ rs))

  answers : Option (PendingSwitch F) → List Action
  answers none = []
  answers (some p) = approve ∷ dismiss ∷ []

  requests : VpnTray F → List Action
  unfolding moves names choose
  requests t =
      autotune ∷ map edit_config (options (field (λ s. s.config_path) t.status))
      ++ (moves (connected t) ++ map choose (names t.ranking t.servers))

  unfoldable pub offered : VpnTray F → List Action
  unfolding answers requests
  offered t =
      answers (field (λ s. s.pending_switch) t.status)
      ++ ((if is_none t.busy && is_some t.status then requests t else []) ++ quit ∷ [])

clicks-append : (xs ys : List MenuItem) → clicks (xs ++ ys) ≡ clicks xs ++ clicks ys
unfolding clicks
clicks-append [] ys = refl
clicks-append (m ∷ xs) ys =
    ap (λ z. entry_clicks m ++ z) (clicks-append xs ys)
    ∙ sym (append_assoc (entry_clicks m) (clicks xs) (clicks ys))

-- What nothing can be clicked in.
clicks-disabled :
    {A : Type 0} (f : A → Text) (xs : List A) → clicks (map (λ x. disabled (f x)) xs) ≡ []
unfolding clicks entry_clicks item_clicks disabled
clicks-disabled f [] = refl
clicks-disabled f (x ∷ xs) = clicks-disabled f xs

clicks-edit_item :
    (b : Bool) (o : Option Text)
    → clicks (edit_item b o) ≡ (if b then map edit_config (options o) else [])
unfolding clicks entry_clicks item_clicks edit_item
clicks-edit_item true none = refl
clicks-edit_item false none = refl
clicks-edit_item true (some path) = refl
clicks-edit_item false (some path) = refl

clicks-connection_items :
    (c r b : Bool) → r && b ≡ b → clicks (connection_items c r b) ≡ (if b then moves c else [])
unfolding clicks entry_clicks item_clicks connection_items moves
clicks-connection_items true r true h = refl
clicks-connection_items true r false h = refl
clicks-connection_items false true true h = refl
clicks-connection_items false true false h = refl
clicks-connection_items false false true h = cc
clicks-connection_items false false false h = refl

items_clicks-choices :
    (b : Bool) (es : List (Text × Text))
    → items_clicks (map (choice_item b) es) ≡ (if b then map (λ e. choose e.0) es else [])
unfolding items_clicks item_clicks choice_item choose
items_clicks-choices true [] = refl
items_clicks-choices false [] = refl
items_clicks-choices true (e ∷ es) =
    ap (λ z. connect (some e.0) none ∷ z) (items_clicks-choices true es)
items_clicks-choices false (e ∷ es) = items_clicks-choices false es

clicks-choices :
    (c b : Bool) (es : List (Text × Text))
    → clicks (choices c b es) ≡ (if b then map (λ e. choose e.0) es else [])
unfolding clicks entry_clicks choices
clicks-choices c true [] = refl
clicks-choices c false [] = refl
clicks-choices c b (e ∷ es) = append-nil _ ∙ items_clicks-choices b (e ∷ es)

quiet-append : (xs ys : List MenuItem) → clicks xs ≡ [] → clicks ys ≡ [] → clicks (xs ++ ys) ≡ []
quiet-append xs ys h k = rw (clicks-append xs ys, h, k) refl

clicks-note : (f : Text → Text) (o : Option Text) → clicks (note f o) ≡ []
unfolding clicks entry_clicks item_clicks note disabled
clicks-note f none = refl
clicks-note f (some t) = refl

clicks-tune_items : (o : Option Text) → clicks (tune_items o) ≡ []
unfolding clicks entry_clicks item_clicks tune_items disabled
clicks-tune_items none = refl
clicks-tune_items (some t) = refl

clicks-reason_lines : (o : Option Text) → clicks (reason_lines o) ≡ []
unfolding reason_lines clicks
clicks-reason_lines none = refl
clicks-reason_lines (some reason) =
    clicks-disabled (λ line. text "  " ++ truncate (trim line) 90) (lines reason)

and_absorb : (r n : Bool) → r && (n && r) ≡ n && r
and_absorb true true = refl
and_absorb true false = refl
and_absorb false true = refl
and_absorb false false = refl

if_append :
    {A : Type 0} (b : Bool) (a e m n : List A)
    → (if b then a else [])
        ++ ((if b then e else []) ++ ((if b then m else []) ++ (if b then n else [])))
      ≡ (if b then a ++ (e ++ (m ++ n)) else [])
if_append true a e m n = refl
if_append false a e m n = refl

clicks-controls :
    (c r b : Bool) (path : Option Text) (es : List (Text × Text))
    → r && b ≡ b
    → (if r && b then autotune ∷ [] else [])
        ++ clicks (edit_item b path ++ (connection_items c r b ++ choices c b es))
      ≡ (if b
          then autotune ∷ map edit_config (options path) ++ (moves c ++ map (λ e. choose e.0) es)
          else [])
clicks-controls c r b path es h =
    rw
      (
        clicks-append (edit_item b path) (connection_items c r b ++ choices c b es),
        clicks-append (connection_items c r b) (choices c b es),
        clicks-edit_item b path,
        clicks-connection_items c r b h,
        clicks-choices c b es,
        h,
      )
      (if_append b (autotune ∷ []) _ (moves c) _)

module _ {F : Type 0} where
  clicks-reason_items :
      (o : Option (StatusReport F)) (u : Option Text) → clicks (reason_items o u) ≡ []
  unfolding reason_items clicks
  clicks-reason_items none u = clicks-reason_lines u
  clicks-reason_items (some s) u = refl

  clicks-entry_items : (o : Option (StatusReport F)) → clicks (entry_items o) ≡ []
  unfolding entry_items clicks entry_clicks item_clicks disabled
  clicks-entry_items none = refl
  clicks-entry_items (some s) = elim (Bool-cases s.connected) [
    | inl e ↦ rw e refl
    | inr e ↦ rw e refl
  ]

module _ (F : Type 0) ⦃fl : Float F⦄ where
  map-server_entry :
      (rs : List ServerSummary)
      → map (λ e. choose e.0) (map (server_entry F) rs) ≡ map choose (map (λ s. s.name) rs)
  unfolding server_entry
  map-server_entry [] = refl
  map-server_entry (r ∷ rs) = ap (λ z. choose r.name ∷ z) (map-server_entry rs)

module _ {F : Type 0} ⦃fl : Float F⦄ where
  clicks-pending_items : (o : Option (PendingSwitch F)) → clicks (pending_items o) ≡ answers o
  unfolding pending_items clicks entry_clicks item_clicks disabled answers
  clicks-pending_items none = refl
  clicks-pending_items (some p) = refl

  clicks-told_items : (t : VpnTray F) → clicks (told_items t) ≡ []
  unfolding told_items clicks entry_clicks item_clicks disabled
  clicks-told_items t =
      quiet-append (reason_items t.status t.unreachable) _
        (clicks-reason_items t.status t.unreachable)
        (quiet-append (entry_items t.status) _ (clicks-entry_items t.status) (
          quiet-append (note (λ b. b) (baseline_line t)) _ (clicks-note _ (baseline_line t)) (
            quiet-append (note busy_text t.busy) _ (clicks-note _ t.busy) (clicks-note _ t.error))))

  map-ranked_entry :
      (rs : List (RankedServer F))
      → map (λ e. choose e.0) (map ranked_entry rs) ≡ map choose (map (λ s. s.name) rs)
  unfolding ranked_entry
  map-ranked_entry [] = refl
  map-ranked_entry (r ∷ rs) = ap (λ z. choose r.name ∷ z) (map-ranked_entry rs)

  map-entries :
      (rs : List (RankedServer F)) (ss : List ServerSummary)
      → map (λ e. choose e.0) (entries_of rs ss) ≡ map choose (names rs ss)
  unfolding entries_of names
  map-entries [] ss = map-server_entry F (take quick_connect_limit ss)
  map-entries (r ∷ rs) ss = map-ranked_entry (take quick_connect_limit (r ∷ rs))

  clicks-control_items :
      (t : VpnTray F)
      → clicks (control_items t) ≡ (if is_none t.busy && is_some t.status then requests t else [])
  unfolding clicks entry_clicks item_clicks control_items is_idle requests quick_connect_entries
  clicks-control_items t =
      clicks-controls (connected t) (is_some t.status) (is_none t.busy && is_some t.status)
        (field (λ s. s.config_path) t.status) (quick_connect_entries t)
        (and_absorb (is_some t.status) (is_none t.busy))
      ∙ ap
          (λ m.
            if is_none t.busy && is_some t.status
            then autotune ∷ map edit_config (options (field (λ s. s.config_path) t.status))
              ++ (moves (connected t) ++ m)
            else [])
          (map-entries t.ranking t.servers)

  clicks-below :
      (t : VpnTray F) (o : Option Text)
      → clicks (separator ∷ control_items t ++ (tune_items o ++ quit_items))
        ≡ (if is_none t.busy && is_some t.status then requests t else []) ++ quit ∷ []
  unfolding clicks entry_clicks item_clicks quit_items
  clicks-below t o =
      rw
        (
          clicks-append (control_items t) (tune_items o ++ quit_items),
          clicks-append (tune_items o) quit_items,
          clicks-tune_items o,
          clicks-control_items t,
        )
        refl

  -- The entries of the menu that can be clicked, from top to bottom: the two answers while a proposal is
  -- pending, whatever else goes on; the requests, if the daemon answers and none is under way, with
  -- connecting if there is no connection and disconnecting if there is, and with one choice for each of
  -- the first servers of the ranking, or of the list by load before there is a ranking; and quitting.
  pub clicks-menu : (t : VpnTray F) → clicks (menu t) ≡ offered t
  unfolding menu offered
  clicks-menu t =
      let pending = field (λ s. s.pending_switch) t.status in
      let tune = field (λ s. s.last_tune) t.status in
      clicks-append (told_items t) _
      ∙ rw
          (
            clicks-told_items t,
            clicks-append (pending_items pending)
                (separator ∷ control_items t ++ (tune_items tune ++ quit_items)),
            clicks-pending_items pending,
            clicks-below t tune,
          )
          refl
