-- ===== src/Tray/Linux/Session.antt =====
-- The Linux tray as it runs: clicks, the worker and the poller of `main` in crates/vpnmgr-tray/src/linux.rs
-- take turns in any order, and each turn is one request or one update of the tray.
pub mod Honest
use vpnmgr.Common.{◌≡◌, Option, none, some, List, [], ◌∷◌, ◌++◌}
use vpnmgr.Common.Text.{Text}
use vpnmgr.Daemon.Ranked.{RankedServer, ServerSummary, StatusReport}
use vpnmgr.Daemon.Handle.{Request}
use vpnmgr.Tray.Client.{Action, Desktop, told}
use vpnmgr.Tray.Linux.{VpnTray, connected}
use vpnmgr.Tray.Linux.Worker.{request_of, prepare, start_request, end_request, lists, show_answers}

abbrev pub News : Type 0 → Type 0
News F = Option (StatusReport F) × Option Text

abbrev pub Lists : Type 0 → Type 0
Lists F = Option (List (RankedServer F)) × Option (List ServerSummary)

-- How far a refresh has come: before it asks for the status, with the status, and with the lists too.
pub data Reading (F : Type 0) : Type 0 where
  unread : Reading F
  knows : News F → Reading F
  holds : News F → Lists F → Reading F

pub data Worker (F : Type 0) : Type 0 where
  waiting : Worker F
  asking : Request → Worker F
  reading : Reading F → Worker F
  gone : Worker F

pub data Poller (F : Type 0) : Type 0 where
  asleep : Poller F
  polling : Reading F → Poller F

module _ {F : Type 0} (d : Desktop F) where
  pub record Session : Type 0 where
    pub tray : VpnTray F
    pub world : d.World
    pub queue : List Action
    pub worker : Worker F
    pub poller : Poller F

  -- The next question of a refresh; with the lists there is none.
  unfoldable pub ask_next : Reading F → d.World → Reading F × d.World
  unfolding told lists
  ask_next unread w = let (answer, w1) = d.ask Request.status w in (knows (told d.debug answer), w1)
  ask_next (knows news) w = let (found, w1) = lists d news.0 w in (holds news found, w1)
  ask_next (holds news found) w = (holds news found, w)

  unfoldable pub show_news : News F → Lists F → d.World → VpnTray F → VpnTray F
  unfolding show_answers
  show_news news found w t = (show_answers d t news (found, w)).0

  unfoldable pub take_action : Action → Option (Request × Text) → Session → Session
  unfolding prepare start_request
  take_action action none s = record s { worker = gone }
  take_action action (some (request, busy)) s = record s {
    tray = start_request d busy s.tray;
    world = prepare d action s.world;
    worker = asking request;
  }

  unfoldable pub after_answer : Request → Session → Session
  unfolding end_request
  after_answer request s =
      let (answer, w) = d.ask request s.world in
      record s { tray = end_request d answer s.tray; world = w; worker = reading unread }

  -- One turn of somebody.
  pub data Turn (s : Session) : Session → Type 0 where
    clicked : (a : Action) → Turn s (record s { queue = s.queue ++ a ∷ [] })
    taken :
        (a : Action) (rest : List Action)
        → s.worker ≡ waiting
        → s.queue ≡ a ∷ rest
        → Turn s (take_action a (request_of (connected s.tray) a) (record s { queue = rest }))
    answered : (r : Request) → s.worker ≡ asking r → Turn s (after_answer r s)
    worker_asks :
        (x : Reading F)
        → s.worker ≡ reading x
        → Turn s (let (y, w) = ask_next x s.world in record s { worker = reading y; world = w })
    worker_shows :
        (news : News F) (found : Lists F)
        → s.worker ≡ reading (holds news found)
        → Turn s (record s { worker = waiting; tray = show_news news found s.world s.tray })
    poller_wakes : s.poller ≡ asleep → Turn s (record s { poller = polling unread })
    poller_asks :
        (x : Reading F)
        → s.poller ≡ polling x
        → Turn s (let (y, w) = ask_next x s.world in record s { poller = polling y; world = w })
    poller_shows :
        (news : News F) (found : Lists F)
        → s.poller ≡ polling (holds news found)
        → Turn s (record s { poller = asleep; tray = show_news news found s.world s.tray })
    outside : (w : d.World) → Turn s (record s { world = w })

  pub data Turns (s : Session) : Session → Type 0 where
    start : Turns s s
    next : {t u : Session} → Turns s t → Turn t u → Turns s u
