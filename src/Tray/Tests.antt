-- ===== src/Tray/Tests.antt =====
-- Runs of the trays against the daemon.
use vpnmgr.Common.{ℕ, ◌+◌, ◌≡◌, refl, Bool, true, false, none, some, [], ◌∷◌}
use vpnmgr.Common.Text.{Text, text}
use vpnmgr.Common.Float.{Fixed, fixed}
use vpnmgr.Tunnel.Spec.Interface.{Outcome, done}
use vpnmgr.Daemon.Env.{Sys}
use vpnmgr.Daemon.Ranked.{StatusReport}
use vpnmgr.Daemon.Steps.{Frame}
use vpnmgr.Daemon.Report
use vpnmgr.Daemon.Handle.{Request, Response, handle}
use vpnmgr.Daemon.Handle.Reached.{start}
use vpnmgr.Daemon.Tests
use vpnmgr.Daemon.Tests.{env, idle, at_beta, to_alpha}
use vpnmgr.Tray.Client.{connect, disconnect, Ran, succeeded, Desktop, told, ranking_in}
use vpnmgr.Tray.Linux.{VpnTray, new_tray, connected, says_connected}
use vpnmgr.Tray.Linux.Menu.{menu}
use vpnmgr.Tray.Linux.Menu.Offered
use vpnmgr.Tray.Linux.Menu.Offered.{clicks, clicks-menu}
use vpnmgr.Tray.Linux.Worker.{
  refresh, run_action, carry_out, request_of, prepare, start_request, end_request, lists, fall_back,
  show_answers,
}
use vpnmgr.Tray.Linux.Worker.Answered.{Answered, carry_out-Answered}
use vpnmgr.Tray.Linux.Worker.Served.{served, InStep, Course-InStep, begins, polls, acts}
use vpnmgr.Tray.Linux.Session.{
  Lists, ask_next, show_news, after_answer, Session, take_action, waiting, asleep, polling, unread,
  Turns, start, next, taken, answered, worker_asks, worker_shows, poller_wakes, poller_asks,
  poller_shows,
}
use vpnmgr.Tray.Linux.Session.Honest.{Honest, WorkerRead, PollerRead, is_asking, Turns-Honest}
use vpnmgr.Tray.Windows.Loop.{click, turn}
use vpnmgr.Tray.Windows.Loop.Refused.{turn-connect-Frame}

abbrev debug : Text → Text
debug t = t

abbrev has_pkexec : ℕ → Bool
has_pkexec w = true

abbrev open_with : Text → Text → ℕ → Ran × ℕ
open_with editor path w = (succeeded, w + 1)

abbrev desktop : Desktop Fixed
desktop = served env debug has_pkexec open_with

abbrev launch : Text → Sys env → Sys env
launch path s = s

abbrev ask_env : Request → Sys env → Outcome (Response Fixed) × Sys env
ask_env r s = let (response, s') = handle env r s in (done response, s')

-- A tray that shows a connection with a proposal.
abbrev tray : VpnTray Fixed
tray = record new_tray {
  status = some (Report.status env Tests.offered.state Tests.offered.world);
  ranking = to_alpha ∷ [];
}

clicks-menu_example : clicks (menu tray) ≡ Offered.offered tray
clicks-menu_example = clicks-menu tray

carry_out-Answered_example :
    Answered desktop Request.disconnect idle
      (carry_out desktop (Request.disconnect, text "Disconnecting") tray idle).0
carry_out-Answered_example =
    carry_out-Answered desktop Request.disconnect (text "Disconnecting") tray idle

-- A poll, and then the user disconnects.
abbrev polled : VpnTray Fixed × Sys env
polled = refresh desktop new_tray idle

abbrev parted : VpnTray Fixed × Sys env
parted = carry_out desktop (Request.disconnect, text "Disconnecting") polled.0 polled.1

Course-InStep_example : InStep env debug has_pkexec open_with idle parted
unfolding run_action request_of prepare
Course-InStep_example =
    Course-InStep env debug has_pkexec open_with idle parted.0 parted.1
      (acts disconnect (polls begins) refl)

turn-connect-Frame_example :
    Frame Tests.offered.state
      (turn ask_env debug launch
        (click (connect (some (text "Alpha")) (some false)))
        Tests.offered).1.state
turn-connect-Frame_example =
    turn-connect-Frame env debug launch at_beta (some (text "Alpha")) (some false) Tests.offered
      refl

abbrev session : Session desktop
session = record {
  tray = new_tray;
  world = idle;
  queue = disconnect ∷ [];
  worker = waiting;
  poller = asleep;
}

-- The worker has asked to disconnect, and meanwhile the poller has woken up.
abbrev later : Session desktop
later =
    record (take_action desktop disconnect (request_of (connected session.tray) disconnect)
      (record session { queue = [] })) { poller = polling unread }

Turns-Honest_example : Honest desktop later
unfolding take_action request_of WorkerRead PollerRead is_asking
Turns-Honest_example =
    Turns-Honest desktop session later
      (next (next start (taken disconnect [] refl refl)) (poller_wakes refl))
      (record { busy = refl; shown = refl; worker = tt; poller = tt })

-- A daemon whose state is whether there is a connection.
abbrev report : Bool → StatusReport Fixed
report is_up = record (Report.status env idle.state idle.world) { connected = is_up }

abbrev ask_switch : Request → Bool → Outcome (Response Fixed) × Bool
ask_switch Request.status b = (done (Response.status (report b)), b)
ask_switch Request.disconnect b = (done (Response.done []), false)
ask_switch _ b = (done (Response.ranking (to_alpha ∷ [])), b)

abbrev switch_desktop : Desktop Fixed
switch_desktop = record {
  World = Bool;
  ask = ask_switch;
  debug = debug;
  has_pkexec = λ b. false;
  open_with = λ editor path b. (succeeded, b);
}

abbrev switched_on : Session switch_desktop
switched_on = record {
  tray = new_tray;
  world = true;
  queue = disconnect ∷ [];
  worker = waiting;
  poller = asleep;
}

abbrev lists_found : Lists Fixed
lists_found = (some (to_alpha ∷ []), none)

-- The poller asks for the status, the worker disconnects and shows it, and then the poller shows what it
-- has: with nothing under way the tray tells of a connection that is gone.
stale :
    (s : Session switch_desktop) × Turns switch_desktop switched_on s
    × (s.worker ≡ waiting)
    × (s.poller ≡ asleep)
    × (s.queue ≡ [])
    × (connected s.tray ≡ true)
    × (s.world ≡ false)
unfolding ask_next show_news take_action after_answer request_of prepare start_request end_request
    connected says_connected told lists fall_back ranking_in show_answers
stale = (
  _,
  next
      (next
        (next
          (next
            (next
              (next
                (next (next (next start (poller_wakes refl)) (poller_asks unread refl))
                  (taken disconnect [] refl refl))
                (answered Request.disconnect refl))
              (worker_asks unread refl))
            (worker_asks _ refl))
          (worker_shows _ lists_found refl))
        (poller_asks _ refl))
      (poller_shows _ lists_found refl),
  refl,
  refl,
  refl,
  refl,
  refl,
)
