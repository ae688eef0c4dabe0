-- ===== src/Tray/Linux/Session/Honest.antt =====
-- The Linux tray tells the truth about itself in whatever order the worker and the poller take turns.
use vpnmgr.Common.{
  ◌≡◌, refl, ap, ◌∙◌, Bool, true, false, not, ◌&&◌, Option, none, some, is_some, arith,
}
use mathlib.Core.Path.{subst}
use vpnmgr.Common.Text.{Text}
use vpnmgr.Daemon.Handle.{Request}
use vpnmgr.Tray.Client.{Action, Desktop}
use vpnmgr.Tray.Linux.{connected}
use vpnmgr.Tray.Linux.Session.{
  News, Reading, unread, knows, holds, Worker, waiting, asking, reading, gone, Poller, asleep,
  polling, Session, ask_next, show_news, take_action, after_answer, Turn, clicked, taken, answered,
  worker_asks, worker_shows, poller_wakes, poller_asks, poller_shows, outside, Turns, start, next,
}
use vpnmgr.Tray.Linux.Worker.{request_of, start_request, end_request, show_answers}
use vpnmgr.Tray.Linux.Worker.Answered.{told-IsExclusive}

module _ {F : Type 0} where
  -- Not both a report and a reason for its absence.
  abbrev pub NotBoth : News F → Type 0
  NotBoth (status, reason) = is_some status && is_some reason ≡ false

  pub IsRead : Reading F → Type 0
  IsRead unread = Unit
  IsRead (knows news) = NotBoth news
  IsRead (holds news found) = NotBoth news

  unfoldable pub WorkerRead : Worker F → Type 0
  unfolding IsRead
  WorkerRead waiting = Unit
  WorkerRead (asking r) = Unit
  WorkerRead (reading x) = IsRead x
  WorkerRead gone = Unit

  unfoldable pub PollerRead : Poller F → Type 0
  unfolding IsRead
  PollerRead asleep = Unit
  PollerRead (polling x) = IsRead x

  unfoldable pub is_asking : Worker F → Bool
  is_asking (asking r) = true
  is_asking _ = false

module _ {F : Type 0} (d : Desktop F) where
  -- The tray calls itself busy exactly while the worker waits for an answer, and never shows both a
  -- report and a reason for its absence.
  pub record Honest (s : Session d) : Type 0 where
    pub busy : is_some s.tray.busy ≡ is_asking s.worker
    pub shown : NotBoth (s.tray.status, s.tray.unreachable)
    pub worker : WorkerRead s.worker
    pub poller : PollerRead s.poller

  not_both : (a b : Bool) → a ≡ not b → a && b ≡ false
  not_both a b h = ground arith

  ask_next-IsRead : (x : Reading F) (w : d.World) → IsRead x → IsRead (ask_next d x w).0
  unfolding ask_next IsRead
  ask_next-IsRead unread w h = not_both _ _ (told-IsExclusive d.debug (d.ask Request.status w).0)
  ask_next-IsRead (knows news) w h = h
  ask_next-IsRead (holds news found) w h = h

  take_action-Honest :
      (a : Action) (o : Option (Request × Text)) (s : Session d)
      → s.worker ≡ waiting
      → Honest s
      → Honest (take_action d a o s)
  unfolding take_action start_request is_asking WorkerRead
  take_action-Honest a none s e h = record {
    busy = h.busy ∙ ap is_asking e;
    shown = h.shown;
    worker = tt;
    poller = h.poller;
  }
  take_action-Honest a (some job) s e h = record {
    busy = refl;
    shown = h.shown;
    worker = tt;
    poller = h.poller;
  }

  reading-IsRead : (s : Session d) (x : Reading F) → s.worker ≡ reading x → Honest s → IsRead x
  unfolding WorkerRead
  reading-IsRead s x e h = subst WorkerRead e h.worker

  Turn-Honest : (s t : Session d) → Turn d s t → Honest s → Honest t
  unfolding after_answer end_request is_asking WorkerRead PollerRead IsRead show_news show_answers
  Turn-Honest s t (clicked a) h = record {
    busy = h.busy;
    shown = h.shown;
    worker = h.worker;
    poller = h.poller;
  }
  Turn-Honest s t (taken a rest e k) h =
      take_action-Honest a (request_of (connected s.tray) a) (record s { queue = rest }) e
        (record { busy = h.busy; shown = h.shown; worker = h.worker; poller = h.poller })
  Turn-Honest s t (answered r e) h = record {
    busy = refl;
    shown = h.shown;
    worker = tt;
    poller = h.poller;
  }
  Turn-Honest s t (worker_asks x e) h = record {
    busy = h.busy ∙ ap is_asking e;
    shown = h.shown;
    worker = ask_next-IsRead x s.world (reading-IsRead s x e h);
    poller = h.poller;
  }
  Turn-Honest s t (worker_shows news found e) h = record {
    busy = h.busy ∙ ap is_asking e;
    shown = reading-IsRead s (holds news found) e h;
    worker = tt;
    poller = h.poller;
  }
  Turn-Honest s t (poller_wakes e) h = record {
    busy = h.busy;
    shown = h.shown;
    worker = h.worker;
    poller = tt;
  }
  Turn-Honest s t (poller_asks x e) h = record {
    busy = h.busy;
    shown = h.shown;
    worker = h.worker;
    poller = ask_next-IsRead x s.world (subst PollerRead e h.poller);
  }
  Turn-Honest s t (poller_shows news found e) h = record {
    busy = h.busy;
    shown = subst PollerRead e h.poller;
    worker = h.worker;
    poller = tt;
  }
  Turn-Honest s t (outside w) h = record {
    busy = h.busy;
    shown = h.shown;
    worker = h.worker;
    poller = h.poller;
  }

  -- However clicks, requests and updates are interleaved, the tray calls itself busy exactly while the
  -- worker waits for an answer, and never shows both a report and a reason for its absence.
  pub Turns-Honest : (s t : Session d) → Turns d s t → Honest s → Honest t
  Turns-Honest s t start h = h
  Turns-Honest s t (next {t = u} past turn) h = Turn-Honest u t turn (Turns-Honest s u past h)
