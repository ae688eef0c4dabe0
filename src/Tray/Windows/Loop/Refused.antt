-- ===== src/Tray/Windows/Loop/Refused.antt =====
-- A server that is chosen in the Windows tray while there is a connection.
use vpnmgr.Common.{◌≡◌, ◌∙◌, false, Bool, Option, none, some, List, [], ◌∷◌}
use vpnmgr.Common.Text.{Text, text}
use vpnmgr.Common.Float.{Float}
use vpnmgr.Tunnel.Spec.Interface.{Outcome, done}
use vpnmgr.Daemon.Ranked.{RankedServer}
use vpnmgr.Daemon.Env.{Connection, Env, Sys}
use vpnmgr.Daemon.Report
use vpnmgr.Daemon.Steps.{Frame, Frame-refl, Frame-trans}
use vpnmgr.Daemon.Handle.{Request, Response, handle}
use vpnmgr.Daemon.Handle.Looks.{handle-servers-Frame, handle-connect-refused}
use vpnmgr.Tray.Client.{connect, told, quick_connect_limit}
use vpnmgr.Tray.Windows.Loop.{click, listed, with_lists, carry_out, refresh, turn}

module _ {F : Type 0} ⦃fl : Float F⦄ (env : Env F) (debug : Text → Text)
    (launch : Text → Sys env → Sys env) where
  -- The daemon behind the socket.
  abbrev ask_daemon : Request → Sys env → Outcome (Response F) × Sys env
  ask_daemon r s = let (response, s') = handle env r s in (done response, s')

  listed-Frame :
      (rs : List (RankedServer F)) (s : Sys env)
      → Frame s.state (listed ask_daemon debug launch rs s).1.state
  unfolding listed
  listed-Frame [] s = handle-servers-Frame env none (some quick_connect_limit) false s
  listed-Frame (r ∷ rs) s = Frame-refl s.state

  refresh-Frame :
      (busy : Option Text) (s : Sys env)
      → Frame s.state (refresh ask_daemon debug launch busy s).1.state
  unfolding refresh with_lists told handle
  refresh-Frame busy s =
      listed-Frame (Report.last_ranking (env.now s.world) (some quick_connect_limit) s.state) s

  -- While there is a connection, choosing a server in the Windows tray, which asks to connect and not to
  -- switch, moves nothing: the connection, the tunnel, the settings and the proposal are as before.
  pub turn-connect-Frame :
      (c : Connection) (server : Option Text) (measure : Option Bool) (s : Sys env)
      → s.state.current ≡ some c
      → Frame s.state (turn ask_daemon debug launch (click (connect server measure)) s).1.state
  unfolding turn carry_out
  turn-connect-Frame c server measure s e =
      let s1 = (refresh ask_daemon debug launch (some (text "Connecting")) s).1 in
      let first = refresh-Frame (some (text "Connecting")) s in
      let refused = handle-connect-refused env c server measure s1 (first.current ∙ e) in
      Frame-trans s.state s1.state _ first (rw refused (refresh-Frame none s1))
