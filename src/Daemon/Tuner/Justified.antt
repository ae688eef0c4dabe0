-- ===== src/Daemon/Tuner/Justified.antt =====
-- When `decide` of tuner.rs points at another server.
use mathlib.Core.Path.{subst}
use vpnmgr.Common.{
  ◌≡◌, ◌≢◌, refl, ap, ◌∙◌, ◌⊎◌, inl, inr, false, Option, none, some, Option-cases, arith,
}
use vpnmgr.Common.Text.{Text, text_eq_iff}
use vpnmgr.Common.Float.{Float, of_nat, ◌<f◌}
use vpnmgr.Core.Config.{Autotune}
use vpnmgr.Daemon.Ranked.{RankedServer}
use vpnmgr.Daemon.Tuner.{
  Current, Assessment, target, act, improvement_of, decide_answering, decide_timed, decide_best,
  decide_current, decide,
}

-- The current server is too slow, the best one is another, and the gain reaches the threshold.
pub record Earns {F : Type 0} ⦃fl : Float F⦄ (a : Autotune F) (c : Current F) (to : RankedServer F)
    (rtt_ms : F) : Type 0 where
  pub slow : fl.le rtt_ms (of_nat a.max_latency_ms) ≡ false
  pub other : to.name ≢ c.name
  pub gain : (improvement_of c.score rtt_ms to <f a.improvement_threshold) ≡ false

module _ {F : Type 0} ⦃fl : Float F⦄ where
  answering-Earns :
      (a : Autotune F) (d : Option Text) (c : Current F) (b to : RankedServer F) (r : F)
      → target (decide_answering a d c b r) ≡ some to
      → (b ≡ to) × Earns a c b r
  unfolding decide_answering act target
  answering-Earns a d c b to r h = (
    ground arith,
    record {
      slow = ground arith;
      other = λ e. ground (arith, text_eq_iff b.name c.name);
      gain = ground arith;
    },
  )

  timed-Earns :
      (a : Autotune F) (d : Option Text) (c : Current F) (b to : RankedServer F) (o : Option F)
      → target (decide_timed a d c b o) ≡ some to
      → (b ≡ to) × ((o ≡ none) ⊎ ((r : F) × (o ≡ some r) × Earns a c b r))
  unfolding decide_timed
  timed-Earns a d c b to none h = (unfold act target in ground arith, inl refl)
  timed-Earns a d c b to (some r) h =
      let (e, earned) = answering-Earns a d c b to r h in (e, inr (r, refl, earned))

module _ {F : Type 0} ⦃fl : Float F⦄ (s : Assessment F) (a : Autotune F) where
  -- A decision that points at a server points at the best one measured, while connected, and either
  -- the current server went silent or the move is earned: a server within `max_latency_ms` is never
  -- left, nor is one for a gain below the threshold.
  pub decide-Earns :
      (to : RankedServer F)
      → target (decide s a) ≡ some to
      → (c : Current F) × (s.current ≡ some c)
        × (s.best ≡ some to)
        × ((c.rtt_ms ≡ none) ⊎ ((r : F) × (c.rtt_ms ≡ some r) × Earns a c to r))
  unfolding decide target
  decide-Earns to h = elim (Option-cases s.current) [
    | inl e ↦ absurd (ground arith)
    | inr (c, e) ↦ elim (Option-cases s.best) [
      | inl k ↦ absurd (ground arith)
      | inr (b, k) ↦
          let (same, why) =
            timed-Earns a s.declined_from c b to c.rtt_ms
              (rw (e, k, decide_current, decide_best) at h) in
          (
            c,
            e,
            k ∙ ap some same,
            subst (λ t. (c.rtt_ms ≡ none) ⊎ ((r : F) × (c.rtt_ms ≡ some r) × Earns a c t r)) same
                why,
          )
    ]
  ]
