-- ===== src/Daemon/Handle/Sound.antt =====
-- Whatever requests, passes and changes of the world come, a tunnel stands with a connection, and only
-- servers that the filters allow are proposed.
use vpnmgr.Common.{true, false, Bool-cases, inl, inr, ◌==◌}
use vpnmgr.Common.Float.{Float}
use vpnmgr.Daemon.Env.{Env, Sys, Result, ok, err}
use vpnmgr.Daemon.Steps.{Frame, Travels, Frame-Travels, St}
use vpnmgr.Daemon.Sweep
use vpnmgr.Daemon.Connect
use vpnmgr.Daemon.Best
use vpnmgr.Daemon.Report
use vpnmgr.Daemon.Tune
use vpnmgr.Daemon.Speed
use vpnmgr.Daemon.Answer
use vpnmgr.Daemon.Sweep.Frame.{sweep-Frame}
use vpnmgr.Daemon.Connect.Travel.{disconnect-Travels, switch-Travels}
use vpnmgr.Daemon.Best.Travel.{connect-Travels}
use vpnmgr.Daemon.Speed.Travel.{servers-Frame, speedtest-Frame, baseline-Travels}
use vpnmgr.Daemon.Speed.Switch.{killswitch-Keeps}
use vpnmgr.Daemon.Tune.{time_until_next_tune, autotune}
use vpnmgr.Daemon.Tune.Offered.{Sound, Keeps, Travels-Keeps, autotune-Keeps}
use vpnmgr.Daemon.Answer.Kept.{approve-Keeps, dismiss-Keeps, reload-Keeps}
use vpnmgr.Daemon.Handle.{Request, Response, answer, handle, scheduled}
use vpnmgr.Daemon.Handle.Reached.{Reached, start, request, pass, outside}

module _ {F : Type 0} ⦃fl : Float F⦄ (env : Env F) where
  answer-Keeps :
      {A : Type 0} (show : A → Response F) (s : St env) (r : Result A × Sys env)
      → Keeps s r.1.state
      → Keeps s (answer env show r).1.state
  answer-Keeps show s (ok a, t) h = h
  answer-Keeps show s (err e, t) h = h

  answer-Travels :
      {A : Type 0} (show : A → Response F) (s : St env) (r : Result A × Sys env)
      → Travels s r.1.state
      → Keeps s (answer env show r).1.state
  answer-Travels show s r h = answer-Keeps show s r (Travels-Keeps s r.1.state h)

  answer-Frame :
      {A : Type 0} (show : A → Response F) (s : St env) (r : Result A × Sys env)
      → Frame s r.1.state
      → Keeps s (answer env show r).1.state
  answer-Frame show s r h = answer-Travels show s r (Frame-Travels s r.1.state h)

  -- Every request keeps a tunnel with a connection and every proposal within the filters, whether it
  -- succeeds or fails.
  pub handle-Sound : (r : Request) (s : Sys env) → Sound s.state → Sound (handle env r s).1.state
  unfolding handle
  handle-Sound Request.version s = λ h. h
  handle-Sound Request.status s = λ h. h
  handle-Sound (Request.connect server measure) s =
      answer-Travels _ s.state (Best.connect env server measure s)
        (connect-Travels env server measure s)
  handle-Sound Request.disconnect s =
      answer-Travels _ s.state (Connect.disconnect env s) (disconnect-Travels env s)
  handle-Sound (Request.switch server) s =
      answer-Travels _ s.state (Connect.switch env server s) (switch-Travels env server s)
  handle-Sound (Request.test country) s =
      answer-Frame _ s.state (Sweep.sweep env country s) (sweep-Frame env country s)
  handle-Sound (Request.last_ranking limit) s = λ h. h
  handle-Sound (Request.servers country limit all) s =
      answer-Frame _ s.state (Report.servers env country limit all s)
        (servers-Frame env country limit all s)
  handle-Sound Request.reload s = answer-Keeps _ s.state (Answer.reload env s) (reload-Keeps env s)
  handle-Sound Request.autotune s =
      answer-Keeps _ s.state (Tune.autotune env s) (autotune-Keeps env s)
  handle-Sound Request.approve s =
      answer-Keeps _ s.state (Answer.approve env s) (approve-Keeps env s)
  handle-Sound Request.speedtest s =
      answer-Frame _ s.state (Speed.speedtest env s) (speedtest-Frame env s)
  handle-Sound (Request.baseline true) s =
      answer-Travels _ s.state (Speed.baseline env s) (baseline-Travels env s)
  handle-Sound (Request.baseline false) s = λ h. h
  handle-Sound (Request.killswitch enable) s =
      answer-Keeps _ s.state (Speed.killswitch env enable s) (killswitch-Keeps env enable s)
  handle-Sound Request.dismiss s =
      answer-Keeps _ s.state (Answer.dismiss env s) (dismiss-Keeps env s)

  scheduled-Sound : (s : Sys env) → Sound s.state → Sound (scheduled env s).1.state
  unfolding scheduled
  scheduled-Sound s h = elim (Bool-cases (time_until_next_tune (env.now s.world) s.state == 0)) [
    | inl e ↦ rw e (autotune-Keeps env s h)
    | inr e ↦ rw e h
  ]

  -- From a state in which there is a tunnel exactly if there is a connection, and any proposal is one
  -- that the filters allow, the daemon comes to no state where this fails, by any sequence of requests,
  -- scheduled passes and changes of the world.
  pub Reached-Sound : (s t : Sys env) → Reached env s t → Sound s.state → Sound t.state
  Reached-Sound s t start h = h
  Reached-Sound s t (request {t = u} r past) h = handle-Sound r u (Reached-Sound s u past h)
  Reached-Sound s t (pass {t = u} past) h = scheduled-Sound u (Reached-Sound s u past h)
  Reached-Sound s t (outside {t = u} w past) h = Reached-Sound s u past h
