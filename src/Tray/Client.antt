-- ===== src/Tray/Client.antt =====
-- What both trays take of the outside: the daemon behind its socket, and the editor of its configuration.
use vpnmgr.Common.{ℕ, Bool, Option, none, some, List, [], ◌++◌}
use vpnmgr.Common.Text.{Text, text, print_nat}
use vpnmgr.Tunnel.Spec.Interface.{Outcome, done, failed}
use vpnmgr.Daemon.Ranked.{RankedServer, ServerSummary, StatusReport}
use vpnmgr.Daemon.Env.{
  Error, core, tunnel, throughput, not_connected, already_connected, unknown_server,
  server_unreachable, no_candidates, all_unreachable, no_pending_switch, consent_required,
}
use vpnmgr.Daemon.Handle.{Request, Response}

-- A click.
pub data Action : Type 0 where
  connect : Option Text → Option Bool → Action
  disconnect autotune : Action
  edit_config : Text → Action
  approve dismiss quit : Action

-- How a program that was started ended.
pub data Ran : Type 0 where
  succeeded : Ran
  exited : Option ℕ → Ran
  not_started : Ran

-- `vpnmgr_ipc::client::request` on the socket, and the programs that a desktop has. `debug` is the
-- `Debug` form of a text, in quotation marks.
pub record Desktop (F : Type 0) : Type 1 where
  pub World : Type 0
  pub ask : Request → World → Outcome (Response F) × World
  pub debug : Text → Text
  -- Whether `pkexec --version` starts, and an editor opened through `pkexec`.
  pub has_pkexec : World → Bool
  pub open_with : Text → Text → World → Ran × World

-- The message of an error as the daemon sends it.
unfoldable pub error_text : (Text → Text) → Error → Text
error_text debug (core e) = e
error_text debug (tunnel e) = e
error_text debug (throughput e) = text "measuring throughput: " ++ e
error_text debug not_connected = text "not connected"
error_text debug (already_connected server) =
    text "already connected to " ++ (server ++ text "; disconnect first or use switch")
error_text debug (unknown_server name) =
    text "no server named " ++ (debug name ++ text "; try `vpnmgr servers` to see the list")
error_text debug (server_unreachable server) =
    server
    ++ (text " did not answer a handshake on any of its entry addresses; "
        ++ text "it may be down even though the API reports it healthy")
error_text debug (all_unreachable probed) =
    text "every one of the "
    ++ (print_nat probed
        ++ (text " probed servers was unreachable. "
            ++ (text "That means either this machine has no working internet connection, "
                ++ (text "or the credentials in the config are no longer accepted by AirVPN "
                    ++ (text "(a wrong peer key produces silence, not an error). "
                        ++ text "Check connectivity first, then re-import the config.")))))
error_text debug (no_candidates why) = text "no servers match the configured filters: " ++ why
error_text debug no_pending_switch = text "nothing is waiting for approval"
error_text debug consent_required =
    text "this drops the tunnel, exposing your real IP address and releasing the "
    ++ text "kill switch, so it needs explicit confirmation: pass --yes"

abbrev pub quick_connect_limit : ℕ
quick_connect_limit = 12

module _ {F : Type 0} where
  -- What an answer to `status` says: the report, or why there is none.
  unfoldable pub told : (Text → Text) → Outcome (Response F) → Option (StatusReport F) × Option Text
  unfolding error_text
  told debug (failed e) = (none, some e)
  told debug (done (Response.status report)) = (some report, none)
  told debug (done (Response.error e)) = (none, some (error_text debug e))
  told debug (done _) = (none, some (text "vpnmgrd sent an unexpected reply"))

  -- An answer of any other kind counts as no list.
  unfoldable pub ranking_in : Outcome (Response F) → List (RankedServer F)
  ranking_in (done (Response.ranking r)) = r
  ranking_in _ = []

  unfoldable pub servers_in : Outcome (Response F) → Option (List ServerSummary)
  servers_in (done (Response.servers s)) = some s
  servers_in _ = none
