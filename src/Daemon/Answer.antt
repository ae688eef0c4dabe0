-- ===== src/Daemon/Answer.antt =====
-- What the user answers to a proposal, and new settings: `approve`, `dismiss` and `reload` of
-- crates/vpnmgrd/src/state.rs.
pub mod Kept
pub mod Dismissed
use vpnmgr.Common.{
  ℕ, ◌-◌, ◌*◌, min, Bool, true, false, not, Option, none, some, is_some_and, List, [], ◌∷◌, ◌++◌,
  length, ltb, if◌then◌else◌, first, find, retain,
}
use vpnmgr.Common.Text.{Text, text, text_eq}
use vpnmgr.Common.Float.{Float, of_nat, ◌<=f◌, ◌*f◌}
use vpnmgr.Core.Airvpn.{Server, ServerList, wg_entries}
use vpnmgr.Core.Airvpn
use vpnmgr.Core.Config.{Config, ClientConfig, Loaded, loaded, load_client_config}
use vpnmgr.Core.Config
use vpnmgr.Core.Config.Targets.{second, interval}
use vpnmgr.Core.Filter.{Ruleset, ruleset_of, accepts}
use vpnmgr.Core.Score.{Measured}
use vpnmgr.Probe.{prober_for, with_fwmark}
use vpnmgr.Tunnel.Spec.{default_fwmark}
use vpnmgr.Tunnel.Spec.Interface.{Outcome, done, failed}
use vpnmgr.Daemon.Ranked.{RankedServer, SweepSummary, PendingSwitch, TuneReport}
use vpnmgr.Daemon.Tuner.{
  Assessment, Reason, Decision, not_connected, healthy, propose, nothing_reachable, is_actionable,
  target, decide,
}
use vpnmgr.Daemon.Tuner.Describe.{describe, describe_reason}
use vpnmgr.Daemon.Env.{
  Connection, State, Error, core, all_unreachable, no_pending_switch, Env, Sys, M, Result, ok, err,
  from_outcome, ◌>>=◌, ◌>>◌, give, fail, get, put, observe, run, lift,
}
use vpnmgr.Daemon.Sweep.{sweep, server_list, measure_all, elapsed_secs}
use vpnmgr.Daemon.Connect.{switch}
use vpnmgr.Daemon.Tune.{apply_filters_to_cached_results}

module _ {F : Type 0} ⦃fl : Float F⦄ (env : Env F) where
  approve_pending : Option (RankedServer F × Text × ℕ) → M env (RankedServer F)
  approve_pending none = fail no_pending_switch
  approve_pending (some (to, reason, at)) = do
    s ← get
    put (record s { pending = none })
    moved ← switch env to.name
    s' ← get
    put (record s' {
      last_tune = some (text "switched to " ++ (moved.name ++ text " on approval"));
    })
    give moved

  unfoldable pub approve : M env (RankedServer F)
  unfolding approve_pending
  approve = do s ← get; approve_pending s.pending

  -- What is remembered is where the user chose to stay.
  dismissed_at : ℕ → Option Connection → Option (Text × ℕ) → Option (Text × ℕ)
  dismissed_at now none old = old
  dismissed_at now (some c) old = some (c.server, now)

  dismiss_pending : Option (RankedServer F × Text × ℕ) → M env Text
  unfolding dismissed_at
  dismiss_pending none = fail no_pending_switch
  dismiss_pending (some (to, reason, at)) = do
    s ← get
    now ← observe env.now
    put (record s {
      pending = none;
      dismissed = dismissed_at now s.current s.dismissed;
      last_tune = some (text "dismissed the proposal to move to " ++ to.name);
    })
    give to.name

  unfoldable pub dismiss : M env Text
  unfolding dismiss_pending
  dismiss = do s ← get; dismiss_pending s.pending

  client_of : Loaded → M env ClientConfig
  client_of (loaded c) = give c
  client_of (Config.failed e) = fail (core e)

  -- The old settings stay where the new ones cannot be read.
  unfoldable pub reload : M env (Unit {0})
  unfolding client_of
  reload = do
    s ← get
    read ← observe (env.load s.config_path)
    config ← lift (from_outcome core read)
    keys ← observe env.read_key
    client ← client_of (load_client_config keys config)
    s' ← get
    put (
        apply_filters_to_cached_results
          (record s' { config = config; client = client; servers = none }))
