-- ===== src/Tray/Windows/Loop.antt =====
-- The client thread of the Windows tray: `daemon_loop` and `refresh` of
-- crates/vpnmgr-tray/src/windows.rs, one turn for each tick of the timer and each click. The thread of
-- the icon is there to take the snapshots.
pub mod Refused
use vpnmgr.Common.{ℕ, ◌==◌, if◌then◌else◌, Bool, true, false, Option, none, some, List, [], ◌∷◌}
use vpnmgr.Common.Text.{Text, text}
use vpnmgr.Tunnel.Spec.Interface.{Outcome}
use vpnmgr.Daemon.Ranked.{RankedServer, ServerSummary, StatusReport}
use vpnmgr.Daemon.Handle.{Request, Response}
use vpnmgr.Tray.Client.{
  Action, connect, disconnect, autotune, edit_config, approve, dismiss, quit, told, ranking_in,
  servers_in, quick_connect_limit,
}
use vpnmgr.Tray.Windows.{Snapshot}

pub data Event : Type 0 where
  tick : Event
  click : Action → Event

-- What the tray says meanwhile, and the request; `none` is for the return and for what needs an editor.
unfoldable pub job_of : Action → Option (Text × Request)
job_of (connect server measure) = some (text "Connecting", Request.connect server measure)
job_of disconnect = some (text "Disconnecting", Request.disconnect)
job_of autotune = some (text "Testing servers", Request.autotune)
job_of approve = some (text "Switching", Request.approve)
job_of dismiss = some (text "Dismissing", Request.dismiss)
job_of (edit_config path) = none
job_of quit = none

-- An apostrophe in a PowerShell text is written twice.
unfoldable pub quoted : Text → Text
quoted [] = []
quoted (c ∷ cs) = let rest = quoted cs in if c == b'\'' then c ∷ c ∷ rest else c ∷ rest

abbrev or_empty : {A : Type 0} → Option (List A) → List A
or_empty none = []
or_empty (some xs) = xs

-- `ask` is the request on the socket; `launch` runs the script that opens an editor on the quoted path.
module _ {F W : Type 0} (ask : Request → W → Outcome (Response F) × W) (debug : Text → Text)
    (launch : Text → W → W) where
  pub listed : List (RankedServer F) → W → List ServerSummary × W
  unfolding servers_in
  listed [] w =
      let (answer, w1) = ask (Request.servers none (some quick_connect_limit) false) w in
      (or_empty (servers_in answer), w1)
  listed (r ∷ rs) w = ([], w)

  -- The lists are asked for only once the daemon has answered.
  pub with_lists : Option Text → Option (StatusReport F) × Option Text → W → Snapshot F × W
  unfolding ranking_in listed
  with_lists busy (none, reason) w =
      (record { status = none; ranking = []; servers = []; unreachable = reason; busy = busy }, w)
  with_lists busy (some report, reason) w =
      let (answer, w1) = ask (Request.last_ranking (some quick_connect_limit)) w in
      let ranking = ranking_in answer in
      let (servers, w2) = listed ranking w1 in
      (
        record {
          status = some report;
          ranking = ranking;
          servers = servers;
          unreachable = reason;
          busy = busy;
        },
        w2,
      )

  unfoldable pub refresh : Option Text → W → Snapshot F × W
  unfolding told with_lists
  refresh busy w = let (answer, w1) = ask Request.status w in with_lists busy (told debug answer) w1

  -- A failure of the request is logged and shown nowhere.
  pub carry_out : Option (Text × Request) → W → Option (List (Snapshot F)) × W
  unfolding refresh
  carry_out none w = (none, w)
  carry_out (some (busy, request)) w =
      let (before, w1) = refresh (some busy) w in
      let w2 = (ask request w1).1 in
      let (after, w3) = refresh none w2 in (some (before ∷ after ∷ []), w3)

  -- The snapshots that a turn sends; `none` ends the loop.
  unfoldable pub turn : Event → W → Option (List (Snapshot F)) × W
  unfolding refresh carry_out job_of quoted
  turn tick w = let (s, w1) = refresh none w in (some (s ∷ []), w1)
  turn (click (edit_config path)) w =
      let w1 = (ask Request.reload (launch (quoted path) w)).1 in
      let (s, w2) = refresh none w1 in (some (s ∷ []), w2)
  turn (click action) w = carry_out (job_of action) w
