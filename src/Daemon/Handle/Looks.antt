-- ===== src/Daemon/Handle/Looks.antt =====
-- The requests that only look at the daemon leave the connection alone.
use vpnmgr.Common.{ℕ, ◌≡◌, refl, Bool, Option, some}
use vpnmgr.Common.Text.{Text}
use vpnmgr.Common.Float.{Float}
use vpnmgr.Daemon.Env.{Connection, already_connected, Env, Sys, Result, ok, err}
use vpnmgr.Daemon.Steps.{Frame, St}
use vpnmgr.Daemon.Report
use vpnmgr.Daemon.Best.{connect-refused}
use vpnmgr.Daemon.Speed.Travel.{servers-Frame}
use vpnmgr.Daemon.Handle.{Request, Response, answer, handle}

module _ {F : Type 0} ⦃fl : Float F⦄ (env : Env F) where
  answer-Leaves :
      {A : Type 0} (show : A → Response F) (s : St env) (r : Result A × Sys env)
      → Frame s r.1.state
      → Frame s (answer env show r).1.state
  answer-Leaves show s (ok a, t) h = h
  answer-Leaves show s (err e, t) h = h

  pub handle-servers-Frame :
      (country : Option Text) (limit : Option ℕ) (all : Bool) (s : Sys env)
      → Frame s.state (handle env (Request.servers country limit all) s).1.state
  unfolding handle
  handle-servers-Frame country limit all s =
      answer-Leaves Response.servers s.state (Report.servers env country limit all s)
        (servers-Frame env country limit all s)

  -- A request to connect is refused, and changes nothing, while there is a connection.
  pub handle-connect-refused :
      (c : Connection) (server : Option Text) (measure : Option Bool) (s : Sys env)
      → s.state.current ≡ some c
      → handle env (Request.connect server measure) s
        ≡ (Response.error (already_connected c.server), s)
  unfolding handle
  handle-connect-refused c server measure s e = rw (connect-refused env c server measure s e) refl
