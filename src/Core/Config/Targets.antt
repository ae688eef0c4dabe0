-- ===== src/Core/Config/Targets.antt =====
-- The bars that the tuner measures against, `Autotune` in crates/vpnmgr-core/src/config.rs.
use vpnmgr.Common.{ℕ, ◌*◌, ◌^◌, Option, none, some, if◌then◌else◌}
use vpnmgr.Common.Float.{Float, ◌<f◌, ◌*f◌, maximum}
use vpnmgr.Core.Config.{Autotune}

-- A second in nanoseconds.
abbrev pub second : ℕ
second = 10 ^ 9

unfoldable pub interval : {F : Type 0} → Autotune F → ℕ
interval a = a.interval_minutes * 60 * second

module _ {F : Type 0} ⦃fl : Float F⦄ where
  -- Nine tenths of a measured line rate, or 500 where there is none above 0.
  measured_target : Option F → F
  measured_target none = fl.decimal 500 0
  measured_target (some m) = if fl.decimal 0 0 <f m then m *f fl.decimal 9 1 else fl.decimal 500 0

  target_of : Option F → Option F → F
  unfolding measured_target
  target_of (some t) measured = t
  target_of none measured = measured_target measured

  unfoldable pub target_mbps : Autotune F → Option F → F
  unfolding target_of
  target_mbps a measured = target_of a.target_mbps measured

  unfoldable pub headroom_target_mbps : Autotune F → Option F → F
  unfolding target_mbps
  headroom_target_mbps a measured =
      maximum (target_mbps a measured *f a.headroom_margin) (fl.decimal 1 0)

  unfoldable pub acceptance_mbps : Autotune F → Option F → F
  unfolding target_mbps
  acceptance_mbps a measured = maximum (target_mbps a measured *f a.accept_fraction) a.min_mbps
