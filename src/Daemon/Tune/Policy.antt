-- ===== src/Daemon/Tune/Policy.antt =====
-- What a tuning pass may do to the connection under each policy.
use vpnmgr.Common.{◌≡◌, ◌≢◌, refl, ◌∙◌, Option, none, some, List, Bool-cases, inl, inr}
use vpnmgr.Common.Float.{Float, of_nat, ◌<=f◌}
use vpnmgr.Core.Config.{auto}
use vpnmgr.Daemon.Ranked.{RankedServer}
use vpnmgr.Daemon.Tuner.{Decision, healthy, nothing_reachable, is_actionable, target, decide}
use vpnmgr.Daemon.Tuner
use vpnmgr.Daemon.Tuner.Policy.{decide-is_actionable}
use vpnmgr.Daemon.Env.{Connection, all_unreachable, Env, Sys, Result, ok, err}
use vpnmgr.Daemon.Steps.{Steps, St, bind-Steps, Frame}
use vpnmgr.Daemon.Sweep.{sweep}
use vpnmgr.Daemon.Sweep.Frame.{sweep-Frame}
use vpnmgr.Daemon.Tune.{
  record_decision, assess, carry_out, conclude, after_sweep, degraded_pass, check_current, tune_on,
  probe_current, autotune,
}
use vpnmgr.Daemon.Tune.Offered.{probe_current-Frame}

module _ {F : Type 0} ⦃fl : Float F⦄ (env : Env F) where
  -- What stays unless the policy is `auto`.
  abbrev Still : St env → St env → Type 0
  Still s t =
      s.config.autotune.switch_policy ≢ auto
      → (t.config ≡ s.config)
        × (t.current ≡ s.current)
        × (t.tunnel ≡ s.tunnel)
        × (t.dismissed ≡ s.dismissed)

  Still-trans : (s t u : St env) → Still s t → Still t u → Still s u
  Still-trans s t u h k n =
      let (a, b, c, d) = h n in
      let (a', b', c', d') = k (rw a n) in (a' ∙ a, b' ∙ b, c' ∙ c, d' ∙ d)

  Frame-Still : (s t : St env) → Frame s t → Still s t
  Frame-Still s t h n = (h.config, h.current, h.tunnel, h.dismissed)

  record_decision-Still : (d : Decision F) → Steps {env = env} Still (record_decision env d)
  unfolding record_decision
  record_decision-Still d s n = (refl, refl, refl, refl)

  conclude-Still :
      (c : Connection) (rtt : Option F) (ranked : List (RankedServer F))
      → Steps {env = env} Still (conclude env c rtt ranked)
  unfolding conclude carry_out
  conclude-Still c rtt ranked s n =
      let a = assess env (env.now s.world) s.state c rtt ranked in
      let d = decide a s.state.config.autotune in
      elim (Bool-cases (is_actionable d)) [
        | inl e ↦ absurd (n (decide-is_actionable a s.state.config.autotune e))
        | inr e ↦ rw e (record_decision-Still d s n)
      ]

  after_sweep-Still :
      (c : Connection) (rtt : Option F) (s : St env) (r : Result (List (RankedServer F)) × Sys env)
      → Frame s r.1.state
      → Still s (after_sweep env c rtt r).1.state
  unfolding after_sweep
  after_sweep-Still c rtt s (ok ranked, t) h =
      Still-trans s t.state (conclude env c rtt ranked t).1.state (Frame-Still s t.state h)
        (conclude-Still c rtt ranked t)
  after_sweep-Still c rtt s (err (all_unreachable probed), t) h =
      Still-trans s t.state (record_decision env (nothing_reachable probed) t).1.state
        (Frame-Still s t.state h) (record_decision-Still (nothing_reachable probed) t)
  after_sweep-Still c rtt s (err e, t) h = Frame-Still s t.state h

  degraded_pass-Still :
      (c : Connection) (rtt : Option F) → Steps {env = env} Still (degraded_pass env c rtt)
  unfolding degraded_pass
  degraded_pass-Still c rtt s =
      after_sweep-Still c rtt s.state (sweep env none s) (sweep-Frame env none s)

  check_current-Still :
      (c : Connection) (o : Option F) → Steps {env = env} Still (check_current env c o)
  unfolding check_current
  check_current-Still c none s = degraded_pass-Still c none s
  check_current-Still c (some rtt) s =
      elim (Bool-cases (rtt <=f of_nat s.state.config.autotune.max_latency_ms)) [
        | inl e ↦ rw e (record_decision-Still (healthy c.server rtt) s)
        | inr e ↦ rw e (degraded_pass-Still c (some rtt) s)
      ]

  tune_on-Still : (o : Option Connection) → Steps {env = env} Still (tune_on env o)
  unfolding tune_on
  tune_on-Still none s = record_decision-Still Tuner.not_connected s
  tune_on-Still (some c) s =
      bind-Steps {env = env} Still Still-trans (probe_current env c.server) _
        (λ t. Frame-Still t.state _ (probe_current-Frame env c.server t)) (check_current-Still c) s

  -- A tuning pass moves nothing unless the policy is `auto`: the connection, the tunnel, the settings
  -- and the remembered dismissal are as before, whatever the pass finds and whatever fails in it.
  pub autotune-still :
      (s : Sys env)
      → s.state.config.autotune.switch_policy ≢ auto
      → let t = (autotune env s).1.state in
        (t.config ≡ s.state.config)
        × (t.current ≡ s.state.current)
        × (t.tunnel ≡ s.state.tunnel)
        × (t.dismissed ≡ s.state.dismissed)
  unfolding autotune
  autotune-still s n =
      tune_on-Still s.state.current
        (record s { state = record s.state { last_tune_at = some (env.now s.world) } }) n
