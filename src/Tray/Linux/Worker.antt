-- ===== src/Tray/Linux/Worker.antt =====
-- The worker of the Linux tray: `run_actions`, `refresh` and `edit_config` of
-- crates/vpnmgr-tray/src/linux.rs. The daemon behind the socket and the desktop are a parameter.
pub mod Answered
pub mod Served
use vpnmgr.Common.{
  ℕ, Bool, true, false, Option, none, some, is_some, List, [], ◌∷◌, ◌==◌, if◌then◌else◌,
}
use vpnmgr.Common.Text.{Text, text}
use vpnmgr.Tunnel.Spec.Interface.{Outcome, done, failed}
use vpnmgr.Daemon.Ranked.{RankedServer, ServerSummary, StatusReport}
use vpnmgr.Daemon.Handle.{Request, Response}
use vpnmgr.Tray.Client.{
  Action, connect, disconnect, autotune, edit_config, approve, dismiss, quit, Ran, succeeded,
  exited, not_started, Desktop, error_text, told, ranking_in, servers_in, quick_connect_limit,
}
use vpnmgr.Tray.Linux.{VpnTray, connected}

pub editors : List Text
editors =
    text "xdg-open" ∷ text "gedit" ∷ text "kate" ∷ text "mousepad" ∷ text "gnome-text-editor" ∷ []

or_false : Option Bool → Bool
or_false none = false
or_false (some b) = b

-- The request that an action stands for, and what the tray says meanwhile. A named server means a
-- switch once there is a connection.
unfoldable pub request_of : Bool → Action → Option (Request × Text)
unfolding or_false
request_of is_connected (connect none measure) = some (
  Request.connect none measure,
  if or_false measure
      then text "Measuring, then choosing a server"
      else text "Finding the best server",
)
request_of true (connect (some server) measure) = some (Request.switch server, text "Switching")
request_of false (connect (some server) measure) =
    some (Request.connect (some server) measure, text "Connecting")
request_of is_connected disconnect = some (Request.disconnect, text "Disconnecting")
request_of is_connected autotune = some (Request.autotune, text "Testing servers")
request_of is_connected (edit_config path) = some (Request.reload, text "Reloading")
request_of is_connected approve = some (Request.approve, text "Switching")
request_of is_connected dismiss = some (Request.dismiss, text "Dismissing")
request_of is_connected quit = none

unwrap_or : {A : Type 0} → Option A → A → A
unwrap_or none a = a
unwrap_or (some b) a = b

-- `Option::map`.
abbrev pub map_some : {A B : Type 0} → (A → B) → Option A → Option B
map_some f none = none
map_some f (some a) = some (f a)

module _ {F : Type 0} (d : Desktop F) where
  -- An editor that was closed, or a prompt that was turned down, ends the search.
  pub is_settled : Ran → Bool
  is_settled succeeded = true
  is_settled (exited (some code)) = code == 126
  is_settled (exited none) = false
  is_settled not_started = false

  pub open_editor : List Text → Text → d.World → d.World
  unfolding is_settled
  open_editor [] path w = w
  open_editor (editor ∷ more) path w =
      let (ran, w1) = d.open_with editor path w in
      let rest = open_editor more path w1 in if is_settled ran then w1 else rest

  unfoldable pub edit : Text → d.World → d.World
  unfolding open_editor editors
  edit path w = if d.has_pkexec w then open_editor editors path w else w

  -- The editor runs before the daemon is asked to read the file again.
  unfoldable pub prepare : Action → d.World → d.World
  unfolding edit
  prepare (edit_config path) w = edit path w
  prepare _ w = w

  -- Why a request failed, if it did.
  unfoldable pub error_in : Outcome (Response F) → Option Text
  unfolding error_text
  error_in (failed e) = some e
  error_in (done (Response.error e)) = some (error_text d.debug e)
  error_in (done _) = none

  -- The list by load is asked for only while there is no ranking.
  unfoldable pub fall_back : List (RankedServer F) → d.World → Option (List ServerSummary) × d.World
  unfolding servers_in
  fall_back [] w =
      let (answer, w1) = d.ask (Request.servers none (some quick_connect_limit) false) w in
      (servers_in answer, w1)
  fall_back (r ∷ rs) w = (none, w)

  unfoldable pub lists :
      Option (StatusReport F)
      → d.World
      → (Option (List (RankedServer F)) × Option (List ServerSummary)) × d.World
  unfolding ranking_in fall_back
  lists none w = ((none, none), w)
  lists (some s) w =
      let (answer, w1) = d.ask (Request.last_ranking (some quick_connect_limit)) w in
      let ranking = ranking_in answer in
      let (servers, w2) = fall_back ranking w1 in ((some ranking, servers), w2)

  -- Without an answer the lists stay as they were.
  unfoldable pub show_answers :
      VpnTray F
      → Option (StatusReport F) × Option Text
      → (Option (List (RankedServer F)) × Option (List ServerSummary)) × d.World
      → VpnTray F × d.World
  unfolding unwrap_or
  show_answers t (status, unreachable) ((ranking, servers), w) = (
    record t {
      status = status;
      unreachable = unreachable;
      ranking = unwrap_or ranking t.ranking;
      servers = unwrap_or servers t.servers;
    },
    w,
  )

  unfoldable pub refresh : VpnTray F → d.World → VpnTray F × d.World
  unfolding told lists show_answers
  refresh t w =
      let (answer, w1) = d.ask Request.status w in
      let news = told d.debug answer in show_answers t news (lists news.0 w1)

  -- The two updates around a request.
  unfoldable pub start_request : Text → VpnTray F → VpnTray F
  start_request busy t = record t { busy = some busy; error = none }

  unfoldable pub end_request : Outcome (Response F) → VpnTray F → VpnTray F
  unfolding error_in
  end_request answer t = record t { busy = none; error = error_in answer }

  unfoldable pub carry_out : Request × Text → VpnTray F → d.World → VpnTray F × d.World
  unfolding start_request end_request refresh
  carry_out (request, busy) t w =
      let t1 = start_request busy t in
      let (answer, w1) = d.ask request w in refresh (end_request answer t1) w1

  -- One turn of the loop; `none` is the return at `Quit`.
  unfoldable pub run_action : Action → VpnTray F → d.World → Option (VpnTray F × d.World)
  unfolding request_of prepare carry_out connected
  run_action action t w =
      map_some (λ job. carry_out job t (prepare action w)) (request_of (connected t) action)

  -- The actions of the channel, until it is closed or `Quit` comes.
  unfoldable pub run_actions : List Action → VpnTray F → d.World → VpnTray F × d.World
  unfolding run_action
  run_actions [] t w = (t, w)
  run_actions (action ∷ actions) t w = elim (run_action action t w) [
    | none ↦ (t, w)
    | some (t1, w1) ↦ run_actions actions t1 w1
  ]
