-- ===== src/Daemon/Answer/Dismissed.antt =====
-- What a dismissal is worth to the passes that follow.
use vpnmgr.Common.{ℕ, ◌-◌, ◌≡◌, ◌≢◌, refl, true, none, some, List, inl, inr, arith, ltb}
use vpnmgr.Common.Text.{Text}
use vpnmgr.Common.Float.{Float}
use vpnmgr.Daemon.Ranked.{RankedServer}
use vpnmgr.Daemon.Tuner.{Reason, propose, decide}
use vpnmgr.Daemon.Tuner.Policy.{decide-propose}
use vpnmgr.Daemon.Env.{Connection, Env, Sys, ok}
use vpnmgr.Daemon.Tune.{dismissal_cooldown, active_dismissal, assess}
use vpnmgr.Daemon.Answer.{dismiss_pending, dismiss, dismissed_at}

module _ {F : Type 0} ⦃fl : Float F⦄ (env : Env F) where
  remembers :
      (s : Sys env) (c : Connection) (p : RankedServer F × Text × ℕ)
      → s.state.current ≡ some c
      → let r = dismiss_pending env (some p) s in
        (r.0 ≡ ok p.0.name)
        × (r.1.state.pending ≡ none)
        × (r.1.state.current ≡ some c)
        × (r.1.state.dismissed ≡ some (c.server, env.now s.world))
  unfolding dismiss_pending dismissed_at
  remembers s c (to, reason, at) e = (refl, refl, e, rw e refl)

  -- Dismissing a proposal drops it and remembers where the user chose to stay.
  pub dismiss_lem :
      (s : Sys env) (c : Connection) (p : RankedServer F × Text × ℕ)
      → s.state.current ≡ some c
      → s.state.pending ≡ some p
      → let r = dismiss env s in
        (r.0 ≡ ok p.0.name)
        × (r.1.state.pending ≡ none)
        × (r.1.state.current ≡ some c)
        × (r.1.state.dismissed ≡ some (c.server, env.now s.world))
  unfolding dismiss
  dismiss_lem s c p e h = rw h (remembers s c p e)

  -- For four hours after a dismissal nothing is proposed to whoever is still on that server, as long as
  -- it answers.
  pub dismiss-decide :
      (s : Sys env) (c : Connection) (p : RankedServer F × Text × ℕ)
      → s.state.current ≡ some c
      → s.state.pending ≡ some p
      → (now : ℕ) (rtt : F) (ranked : List (RankedServer F)) (to : RankedServer F) (why : Reason F)
      → ltb (now - env.now s.world) dismissal_cooldown ≡ true
      → let t = (dismiss env s).1.state in
        decide (assess env now t c (some rtt) ranked) t.config.autotune ≢ propose to why
  unfolding assess active_dismissal
  dismiss-decide s c p e h now rtt ranked to why soon proposed =
      let t = (dismiss env s).1.state in
      let a = assess env now t c (some rtt) ranked in
      let (_, _, _, kept) = dismiss_lem s c p e h in
      let declined : a.declined_from ≡ some c.server = rw (kept, soon) refl in
      elim (decide-propose a t.config.autotune to why _ refl proposed).1 [
        | inl silent ↦ absurd (ground arith)
        | inr other ↦ other declined
      ]
