-- ===== src/Daemon/Tune.antt =====
-- The tuning pass and what it rests on: `autotune`, `probe_current`, `record` and their kin of
-- crates/vpnmgrd/src/state.rs.
pub mod Offered
pub mod Policy
use vpnmgr.Common.{
  ℕ, ◌-◌, ◌*◌, min, Bool, true, false, not, Option, none, some, is_some_and, List, [], ◌∷◌, ◌++◌,
  length, ltb, if◌then◌else◌, first, find, retain,
}
use vpnmgr.Common.Text.{Text, text, text_eq}
use vpnmgr.Common.Float.{Float, of_nat, ◌<=f◌, ◌*f◌}
use vpnmgr.Core.Airvpn.{Server, ServerList, wg_entries}
use vpnmgr.Core.Airvpn
use vpnmgr.Core.Config.{Config, ClientConfig, Loaded, loaded, load_client_config}
use vpnmgr.Core.Config
use vpnmgr.Core.Config.Targets.{second, interval}
use vpnmgr.Core.Filter.{Ruleset, ruleset_of, accepts}
use vpnmgr.Core.Score.{Measured}
use vpnmgr.Probe.{prober_for, with_fwmark}
use vpnmgr.Tunnel.Spec.{default_fwmark}
use vpnmgr.Tunnel.Spec.Interface.{Outcome, done, failed}
use vpnmgr.Daemon.Ranked.{RankedServer, SweepSummary, PendingSwitch, TuneReport}
use vpnmgr.Daemon.Tuner.{
  Assessment, Reason, Decision, not_connected, healthy, propose, nothing_reachable, is_actionable,
  target, decide,
}
use vpnmgr.Daemon.Tuner.Describe.{describe, describe_reason}
use vpnmgr.Daemon.Env.{
  Connection, State, Error, core, all_unreachable, no_pending_switch, Env, Sys, M, Result, ok, err,
  from_outcome, ◌>>=◌, ◌>>◌, give, fail, get, put, observe, run, lift,
}
use vpnmgr.Daemon.Sweep.{sweep, server_list, measure_all, elapsed_secs}
use vpnmgr.Daemon.Connect.{switch}

-- Four hours.
abbrev pub dismissal_cooldown : ℕ
dismissal_cooldown = 4 * 60 * 60 * second

module _ {F : Type 0} where
  unfoldable pub allowed : Ruleset → RankedServer F → Bool
  allowed rules r = accepts rules r.name r.country_code r.load

  unfoldable pub allowed_pending :
      Ruleset → Option (RankedServer F × Text × ℕ) → Option (RankedServer F × Text × ℕ)
  unfolding allowed
  allowed_pending rules none = none
  allowed_pending rules (some (to, reason, at)) =
      if allowed rules to then some (to, reason, at) else none

  pending_at : ℕ → Option (RankedServer F × Text × ℕ) → Option (PendingSwitch F)
  pending_at now none = none
  pending_at now (some (to, reason, at)) =
      some (record { to = to; reason = reason; age_secs = elapsed_secs now at })

dismissal_at : ℕ → Option (Text × ℕ) → Option Text
dismissal_at now none = none
dismissal_at now (some (name, at)) = if ltb (now - at) dismissal_cooldown then some name else none

wait_from : ℕ → ℕ → Option ℕ → ℕ
wait_from now every none = min every (60 * second)
wait_from now every (some at) = every - (now - at)

module _ {F T : Type 0} where
  -- What the filters no longer allow is not offered any more.
  unfoldable pub apply_filters_to_cached_results : State F T → State F T
  unfolding allowed allowed_pending
  apply_filters_to_cached_results s =
      let rules = ruleset_of s.config.filters in
      record s {
        last_ranking = retain (allowed rules) s.last_ranking;
        pending = allowed_pending rules s.pending;
      }

  unfoldable pub active_dismissal : ℕ → State F T → Option Text
  unfolding dismissal_at
  active_dismissal now s = dismissal_at now s.dismissed

  unfoldable pub pending_switch : ℕ → State F T → Option (PendingSwitch F)
  unfolding pending_at
  pending_switch now s = pending_at now s.pending

  -- The first pass comes within a minute, each further one an interval after the last.
  unfoldable pub time_until_next_tune : ℕ → State F T → ℕ
  unfolding wait_from
  time_until_next_tune now s = wait_from now (interval s.config.autotune) s.last_tune_at

module _ {F : Type 0} ⦃fl : Float F⦄ where
  is_nothing_reachable : Decision F → Bool
  is_nothing_reachable (nothing_reachable probed) = true
  is_nothing_reachable _ = false

  -- A proposal is kept; any other outcome makes an earlier one stale.
  unfoldable pub pending_after : ℕ → Decision F → Option (RankedServer F × Text × ℕ)
  pending_after now (propose to reason) = some (to, describe_reason reason, now)
  pending_after now _ = none

module _ {F : Type 0} ⦃fl : Float F⦄ (env : Env F) where
  unfoldable pub record_decision : Decision F → M env (TuneReport F)
  unfolding pending_after is_nothing_reachable
  record_decision d = do
    s ← get
    now ← observe env.now
    put (record s { pending = pending_after now d; last_tune = some (describe d) })
    s' ← get
    give (record {
      summary = describe d;
      switched = is_actionable d;
      nothing_reachable = is_nothing_reachable d;
      pending = pending_switch now s';
    })

  -- Any failure of `probe_current` reads as a server that is silent.
  first_rtt : List Measured → Option F
  first_rtt [] = none
  first_rtt (m ∷ ms) = elim m.rtt [ none ↦ none | some d ↦ some (fl.secs d *f fl.decimal 1000 0) ]

  probe_server : Option Server → M env (Option F)
  unfolding first_rtt
  probe_server none = give none
  probe_server (some server) = do
    s ← get
    measured ←
        measure_all env (with_fwmark default_fwmark (prober_for s.client s.config.probe))
          (server ∷ []) s.config.provider.port
    give (first_rtt measured)

  with_list : Text → Result ServerList × Sys env → Result (Option F) × Sys env
  unfolding probe_server
  with_list name (ok list, s) = probe_server (Airvpn.get list name) s
  with_list name (err e, s) = (ok none, s)

  unfoldable pub probe_current : Text → M env (Option F)
  unfolding with_list
  probe_current name s = with_list name (server_list env s)

  probed_last : Option (SweepSummary F × ℕ) → ℕ → ℕ
  probed_last none n = n
  probed_last (some (summary, at)) n = summary.probed

  score_of : Text → List (RankedServer F) → Option F
  score_of name [] = none
  score_of name (r ∷ rs) = if text_eq r.name name then some r.score else score_of name rs

  unfoldable pub assess :
      ℕ → State F env.backend.Tunnel → Connection → Option F → List (RankedServer F) → Assessment F
  unfolding probed_last score_of
  assess now s c rtt ranked = record {
    current = some (record { name = c.server; rtt_ms = rtt; score = score_of c.server ranked });
    best = first ranked;
    probed = probed_last s.last_sweep (length ranked);
    declined_from = active_dismissal now s;
  }

  carry_out : Bool → Option (RankedServer F) → M env (Unit {0})
  carry_out true (some to) = switch env to.name >> give tt
  carry_out _ _ = give tt

  conclude : Connection → Option F → List (RankedServer F) → M env (TuneReport F)
  unfolding carry_out
  conclude c rtt ranked = do
    s ← get
    now ← observe env.now
    let d = decide (assess now s c rtt ranked) s.config.autotune
    carry_out (is_actionable d) (target d)
    record_decision d

  -- Nothing reachable is reported; any other error of the sweep ends the pass.
  after_sweep :
      Connection
      → Option F
      → Result (List (RankedServer F)) × Sys env
      → Result (TuneReport F) × Sys env
  unfolding conclude
  after_sweep c rtt (ok ranked, s) = conclude c rtt ranked s
  after_sweep c rtt (err (all_unreachable probed), s) = record_decision (nothing_reachable probed) s
  after_sweep c rtt (err e, s) = (err e, s)

  degraded_pass : Connection → Option F → M env (TuneReport F)
  unfolding after_sweep
  degraded_pass c rtt s = after_sweep c rtt (sweep env none s)

  check_current : Connection → Option F → M env (TuneReport F)
  unfolding degraded_pass
  check_current c none = degraded_pass c none
  check_current c (some rtt_ms) = do
    s ← get
    (if rtt_ms <=f of_nat s.config.autotune.max_latency_ms
        then record_decision (healthy c.server rtt_ms)
        else degraded_pass c (some rtt_ms))

  tune_on : Option Connection → M env (TuneReport F)
  unfolding check_current
  tune_on none = record_decision Decision.not_connected
  tune_on (some c) = do rtt ← probe_current c.server; check_current c rtt

  unfoldable pub autotune : M env (TuneReport F)
  unfolding tune_on
  autotune = do
    s ← get
    now ← observe env.now
    put (record s { last_tune_at = some now })
    tune_on s.current
