-- ===== src/Tray/Linux/Worker/Answered.antt =====
-- What the Linux tray shows once a request has been carried out, whatever the daemon answers.
use vpnmgr.Common.{◌≡◌, refl, not, Option, none, is_some}
use vpnmgr.Common.Text.{Text}
use vpnmgr.Tunnel.Spec.Interface.{Outcome, done, failed}
use vpnmgr.Daemon.Ranked.{StatusReport}
use vpnmgr.Daemon.Handle.{Request, Response}
use vpnmgr.Tray.Client.{Desktop, told}
use vpnmgr.Tray.Linux.{VpnTray}
use vpnmgr.Tray.Linux.Worker.{error_in, show_answers, refresh, end_request, carry_out}

module _ {F : Type 0} where
  -- The daemon's report stands exactly if there is no reason for its absence.
  abbrev pub IsExclusive : Option (StatusReport F) × Option Text → Type 0
  IsExclusive (status, reason) = is_some status ≡ not (is_some reason)

  pub told-IsExclusive :
      (debug : Text → Text) (o : Outcome (Response F)) → IsExclusive (told debug o)
  unfolding told
  told-IsExclusive debug (failed e) = refl
  told-IsExclusive debug (done (Response.status r)) = refl
  told-IsExclusive debug (done (Response.error e)) = refl
  told-IsExclusive debug (done (Response.ranking r)) = refl
  told-IsExclusive debug (done (Response.servers r)) = refl
  told-IsExclusive debug (done (Response.done r)) = refl
  told-IsExclusive debug (done (Response.version r)) = refl
  told-IsExclusive debug (done (Response.tuned r)) = refl
  told-IsExclusive debug (done (Response.speed r)) = refl
  told-IsExclusive debug (done (Response.killswitch r)) = refl

module _ {F : Type 0} (d : Desktop F) where
  pub record Answered (request : Request) (w : d.World) (t : VpnTray F) : Type 0 where
    pub error : t.error ≡ error_in d (d.ask request w).0
    pub idle : t.busy ≡ none
    pub told : is_some t.status ≡ not (is_some t.unreachable)

  -- After a request nothing is under way any more, the tray shows the error of this request or none, and
  -- it shows either the daemon's report or why there is none, whatever the daemon answers to this and to
  -- the requests of the refresh.
  pub carry_out-Answered :
      (request : Request) (busy : Text) (t : VpnTray F) (w : d.World)
      → Answered request w (carry_out d (request, busy) t w).0
  unfolding carry_out end_request refresh show_answers
  carry_out-Answered request busy t w = record {
    error = refl;
    idle = refl;
    told = told-IsExclusive d.debug (d.ask Request.status (d.ask request w).1).0;
  }
