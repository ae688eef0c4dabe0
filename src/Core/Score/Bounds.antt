-- ===== src/Core/Score/Bounds.antt =====
-- The range of the parts of a score.
use vpnmgr.Common.{◌≡◌, ◌⊎◌, true, false, ◌||◌, Bool-cases, inl, inr, arith}
use vpnmgr.Common.Float.{Float, IsOrdered, ◌<=f◌, clamp}
use vpnmgr.Core.Score.{Scoring, Timed, rtt_score_of, headroom_score_of, score_one}

module _ {F : Type 0} ⦃fl : Float F⦄ where
  -- Within the unit range, or NaN.
  abbrev pub InUnit : F → Type 0
  InUnit x =
      (fl.le x x ≡ false) ⊎ ((fl.le (fl.decimal 0 0) x ≡ true) × (fl.le x (fl.decimal 1 0) ≡ true))

  module _ (laws : IsOrdered F) (unit : fl.le (fl.decimal 0 0) (fl.decimal 1 0) ≡ true) where
    clamp-InUnit : (x : F) → InUnit (clamp (fl.decimal 0 0) (fl.decimal 1 0) x)
    clamp-InUnit x = ground (
      arith,
      laws.refl_of_le (fl.decimal 0 0) (fl.decimal 1 0),
      laws.le_total (fl.decimal 0 0) x,
      laws.le_total x (fl.decimal 1 0),
      unit,
    )

    one-InUnit : InUnit (fl.decimal 1 0)
    one-InUnit = inr (unit, (laws.refl_of_le (fl.decimal 0 0) (fl.decimal 1 0) unit).1)

    rtt_score_of-InUnit : (quickest us : F) → InUnit (rtt_score_of quickest us)
    unfolding rtt_score_of
    rtt_score_of-InUnit quickest us =
        elim (Bool-cases ((us <=f fl.epsilon) || (quickest <=f fl.epsilon))) [
          | inl e ↦ rw e one-InUnit
          | inr e ↦ rw e (clamp-InUnit _)
        ]

    headroom_score_of-InUnit : (target : F) (t : Timed) → InUnit (headroom_score_of target t.server)
    unfolding headroom_score_of
    headroom_score_of-InUnit target t = elim (Bool-cases (target <=f fl.decimal 0 0)) [
      | inl e ↦ rw e one-InUnit
      | inr e ↦ rw e (clamp-InUnit _)
    ]

    -- Where the floats are ordered and 0 is not above 1, the latency part and the capacity part of a
    -- score lie between 0 and 1 or are NaN, whatever was measured and whatever the settings are.
    pub score_one-InUnit :
        (scoring : Scoring F) (quickest : F) (t : Timed)
        → InUnit (score_one scoring quickest t).rtt_score
          × InUnit (score_one scoring quickest t).headroom_score
    unfolding score_one
    score_one-InUnit scoring quickest t =
        (rtt_score_of-InUnit _ _, headroom_score_of-InUnit scoring.headroom_target_mbps t)
