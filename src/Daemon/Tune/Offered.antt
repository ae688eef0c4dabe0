-- ===== src/Daemon/Tune/Offered.antt =====
-- Tuning, answering a proposal and reloading keep a tunnel with a connection, and offer only what the
-- filters let through.
use vpnmgr.Common.{
  ℕ, ◌≡◌, refl, sym, ◌∙◌, Bool, true, false, Option, none, some, is_some, List, [], ◌∷◌, first, All,
  Bool-cases, inl, inr, arith,
}
use vpnmgr.Common.Text.{Text}
use vpnmgr.Common.Float.{Float, of_nat, ◌<=f◌}
use vpnmgr.Core.Airvpn.{Server, ServerList}
use vpnmgr.Core.Airvpn
use vpnmgr.Core.Config.{Autotune, Filters}
use vpnmgr.Core.Filter.{ruleset_of}
use vpnmgr.Daemon.Ranked.{RankedServer}
use vpnmgr.Daemon.Tuner.{
  Assessment, Reason, Decision, healthy, propose, nothing_reachable, already_best,
  no_better_available, blocked, suppressed, is_actionable, target, decide,
}
use vpnmgr.Daemon.Tuner
use vpnmgr.Daemon.Tuner.Justified.{decide-Earns}
use vpnmgr.Daemon.Env.{Connection, State, all_unreachable, Env, Sys, Result, ok, err, continue}
use vpnmgr.Daemon.Steps.{
  Steps, St, bind-Steps, IfOk, Frame, Travels, Travels-refl, Frame-Travels, Frame-refl, Frame-trans,
  Travelling, next-Travelling,
}
use vpnmgr.Daemon.Sweep.{sweep, server_list, measure_all}
use vpnmgr.Daemon.Sweep.Frame.{sweep-Frame, server_list-Frame}
use vpnmgr.Daemon.Sweep.Allowed.{Allowed, sweep-Yields}
use vpnmgr.Daemon.Connect.{switch}
use vpnmgr.Daemon.Connect.Travel.{switch-Travels}
use vpnmgr.Daemon.Tune.{
  allowed, allowed_pending, pending_after, record_decision, assess, carry_out, conclude,
  after_sweep, degraded_pass, check_current, tune_on, with_list, probe_server, probe_current,
  autotune,
}

module _ {F : Type 0} where
  -- The filters let the proposed server through.
  abbrev pub Offered : Filters → Option (RankedServer F × Text × ℕ) → Type 0
  Offered f none = Unit
  Offered f (some (to, reason, at)) = Allowed f to

  pub allowed_pending-Offered :
      (f : Filters) (o : Option (RankedServer F × Text × ℕ))
      → Offered f (allowed_pending (ruleset_of f) o)
  unfolding allowed_pending allowed
  allowed_pending-Offered f none = tt
  allowed_pending-Offered f (some (to, reason, at)) =
      elim (Bool-cases (allowed (ruleset_of f) to)) [ inl e ↦ rw e e | inr e ↦ rw e tt ]

module _ {F T : Type 0} where
  -- There is a tunnel exactly if there is a connection, and the proposal is one that the filters allow.
  pub record Sound (s : State F T) : Type 0 where
    pub paired : is_some s.tunnel ≡ is_some s.current
    pub offered : Offered s.config.filters s.pending

  abbrev pub Keeps : State F T → State F T → Type 0
  Keeps s t = Sound s → Sound t

  pub Travels-Keeps : (s t : State F T) → Travels s t → Keeps s t
  Travels-Keeps s t h k = record {
    paired = h.paired k.paired;
    offered = rw (h.config, h.pending) k.offered;
  }

  pub Keeps-trans : (s t u : State F T) → Keeps s t → Keeps t u → Keeps s u
  Keeps-trans s t u h k e = k (h e)

module _ {F : Type 0} ⦃fl : Float F⦄ where
  -- A decision proposes only a server that the filters allow.
  abbrev Proposes : Filters → Decision F → Type 0
  Proposes f d = (to : RankedServer F) → target d ≡ some to → Allowed f to

  pending_after-Offered :
      (f : Filters) (now : ℕ) (d : Decision F) → Proposes f d → Offered f (pending_after now d)
  unfolding pending_after target
  pending_after-Offered f now (propose to reason) h = h to refl
  pending_after-Offered f now Tuner.not_connected h = tt
  pending_after-Offered f now (healthy _ _) h = tt
  pending_after-Offered f now (already_best _ _) h = tt
  pending_after-Offered f now (no_better_available _ _ _ _ _ _) h = tt
  pending_after-Offered f now (Tuner.switch _ _) h = tt
  pending_after-Offered f now (blocked _ _) h = tt
  pending_after-Offered f now (suppressed _ _) h = tt
  pending_after-Offered f now (nothing_reachable _) h = tt

  first-Allowed :
      (f : Filters) (ranked : List (RankedServer F)) (to : RankedServer F)
      → All (Allowed f) ranked
      → first ranked ≡ some to
      → Allowed f to
  first-Allowed f [] to h e = absurd (ground arith)
  first-Allowed f (r ∷ rs) to h e = let same : r ≡ to = ground (arith, e) in rw same at h.0

  decide-Proposes :
      (f : Filters) (ranked : List (RankedServer F)) (a : Assessment F) (t : Autotune F)
      → a.best ≡ first ranked
      → All (Allowed f) ranked
      → Proposes f (decide a t)
  decide-Proposes f ranked a t e h to k =
      first-Allowed f ranked to h (sym e ∙ (decide-Earns a t to k).2)

module _ {F : Type 0} ⦃fl : Float F⦄ (env : Env F) where
  record_decision-Keeps :
      (d : Decision F) (s : Sys env)
      → Proposes s.state.config.filters d
      → Keeps s.state (record_decision env d s).1.state
  unfolding record_decision
  record_decision-Keeps d s h k = record {
    paired = k.paired;
    offered = pending_after-Offered s.state.config.filters (env.now s.world) d h;
  }

  carry_out-Travels : (b : Bool) (o : Option (RankedServer F)) → Travelling env (carry_out env b o)
  unfolding carry_out
  carry_out-Travels true (some to) s =
      next-Travelling env (switch env to.name) _ (switch-Travels env to.name)
        (λ _ t. Travels-refl t.state) s
  carry_out-Travels true none s = Travels-refl s.state
  carry_out-Travels false o s = Travels-refl s.state

  recorded-Keeps :
      (d : Decision F) (s : St env) (r : Result (Unit {0}) × Sys env)
      → Travels s r.1.state
      → Proposes s.config.filters d
      → Keeps s (continue r (λ _. record_decision env d)).1.state
  recorded-Keeps d s (err e, t) h k = Travels-Keeps s t.state h
  recorded-Keeps d s (ok _, t) h k =
      λ sound. record_decision-Keeps d t (rw h.config k) (Travels-Keeps s t.state h sound)

  conclude-Keeps :
      (c : Connection) (rtt : Option F) (ranked : List (RankedServer F)) (s : Sys env)
      → All (Allowed s.state.config.filters) ranked
      → Keeps s.state (conclude env c rtt ranked s).1.state
  unfolding conclude assess
  conclude-Keeps c rtt ranked s h =
      let a = assess env (env.now s.world) s.state c rtt ranked in
      let d = decide a s.state.config.autotune in
      recorded-Keeps d s.state (carry_out env (is_actionable d) (target d) s)
        (carry_out-Travels (is_actionable d) (target d) s)
        (decide-Proposes s.state.config.filters ranked a s.state.config.autotune refl h)

  -- An error of the sweep ends the pass, but for the one that is a finding of its own.
  after_sweep-Keeps :
      (c : Connection) (rtt : Option F) (s : St env) (r : Result (List (RankedServer F)) × Sys env)
      → Frame s r.1.state
      → IfOk (All (Allowed s.config.filters)) r.0
      → Keeps s (after_sweep env c rtt r).1.state
  unfolding after_sweep target
  after_sweep-Keeps c rtt s (ok ranked, t) h k = λ sound.
      conclude-Keeps c rtt ranked t (rw h.config k)
        (Travels-Keeps s t.state (Frame-Travels s t.state h) sound)
  after_sweep-Keeps c rtt s (err (all_unreachable probed), t) h k = λ sound.
      record_decision-Keeps (nothing_reachable probed) t (λ to e. absurd (ground arith))
        (Travels-Keeps s t.state (Frame-Travels s t.state h) sound)
  after_sweep-Keeps c rtt s (err e, t) h k = Travels-Keeps s t.state (Frame-Travels s t.state h)

  degraded_pass-Keeps :
      (c : Connection) (rtt : Option F) → Steps {env = env} Keeps (degraded_pass env c rtt)
  unfolding degraded_pass
  degraded_pass-Keeps c rtt s =
      after_sweep-Keeps c rtt s.state (sweep env none s) (sweep-Frame env none s)
        (sweep-Yields env none s)

  check_current-Keeps :
      (c : Connection) (o : Option F) → Steps {env = env} Keeps (check_current env c o)
  unfolding check_current target
  check_current-Keeps c none s = degraded_pass-Keeps c none s
  check_current-Keeps c (some rtt) s =
      elim (Bool-cases (rtt <=f of_nat s.state.config.autotune.max_latency_ms)) [
        | inl e ↦
            rw e (record_decision-Keeps (healthy c.server rtt) s (λ to e. absurd (ground arith)))
        | inr e ↦ rw e (degraded_pass-Keeps c (some rtt) s)
      ]

  probe_server-Frame : (o : Option Server) → Steps {env = env} Frame (probe_server env o)
  unfolding probe_server measure_all
  probe_server-Frame none s = Frame-refl s.state
  probe_server-Frame (some server) s = Frame-refl s.state

  with_list-Frame :
      (name : Text) (s : St env) (r : Result ServerList × Sys env)
      → Frame s r.1.state
      → Frame s (with_list env name r).1.state
  unfolding with_list
  with_list-Frame name s (ok list, t) h =
      Frame-trans s t.state _ h (probe_server-Frame (Airvpn.get list name) t)
  with_list-Frame name s (err e, t) h = h

  pub probe_current-Frame : (name : Text) → Steps {env = env} Frame (probe_current env name)
  unfolding probe_current
  probe_current-Frame name s =
      with_list-Frame name s.state (server_list env s) (server_list-Frame env s)

  tune_on-Keeps : (o : Option Connection) → Steps {env = env} Keeps (tune_on env o)
  unfolding tune_on target
  tune_on-Keeps none s = record_decision-Keeps Tuner.not_connected s (λ to e. absurd (ground arith))
  tune_on-Keeps (some c) s =
      bind-Steps {env = env} Keeps Keeps-trans (probe_current env c.server) _
        (λ t. Travels-Keeps t.state _ (Frame-Travels t.state _ (probe_current-Frame c.server t)))
        (check_current-Keeps c) s

  -- A tuning pass, whatever it finds and whatever fails in it.
  pub autotune-Keeps : Steps {env = env} Keeps (autotune env)
  unfolding autotune
  autotune-Keeps s sound =
      tune_on-Keeps s.state.current
        (record s { state = record s.state { last_tune_at = some (env.now s.world) } })
        (record { paired = sound.paired; offered = sound.offered })
