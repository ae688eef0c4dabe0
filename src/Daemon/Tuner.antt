-- ===== src/Daemon/Tuner.antt =====
-- crates/vpnmgrd/src/tuner.rs: what a tuning pass decides.
pub mod Describe
pub mod Policy
pub mod Justified
pub mod Tests
use vpnmgr.Common.{ℕ, Bool, true, false, Option, none, some, if◌then◌else◌, ◌≡◌, is_some_and}
use vpnmgr.Common.Text.{Text, text_eq}
use vpnmgr.Common.Float.{Float, ◌<=f◌, ◌<f◌, ◌-f◌, ◌/f◌, of_nat, maximum}
use vpnmgr.Core.Config.{Autotune, SwitchPolicy, ask, auto, never}
use vpnmgr.Core.Score.{relative_improvement}
use vpnmgr.Daemon.Ranked.{RankedServer}

-- The server that the daemon is on, as measured in this pass.
pub record Current (F : Type 0) : Type 0 where
  pub name : Text
  pub rtt_ms : Option F
  pub score : Option F

pub record Assessment (F : Type 0) : Type 0 where
  pub current : Option (Current F)
  pub best : Option (RankedServer F)
  pub probed : ℕ
  pub declined_from : Option Text

pub data Reason (F : Type 0) : Type 0 where
  current_went_silent : Reason F
  degraded : F → ℕ → F → Reason F

-- `no_better_available server rtt best best_rtt improvement local_link_suspect`.
pub data Decision (F : Type 0) : Type 0 where
  not_connected : Decision F
  healthy : Text → F → Decision F
  already_best : Text → F → Decision F
  no_better_available : Text → F → Text → F → F → Bool → Decision F
  switch : RankedServer F → Reason F → Decision F
  propose : RankedServer F → Reason F → Decision F
  blocked : RankedServer F → Reason F → Decision F
  suppressed : RankedServer F → Reason F → Decision F
  nothing_reachable : ℕ → Decision F

module _ {F : Type 0} where
  unfoldable pub is_actionable : Decision F → Bool
  is_actionable (switch to reason) = true
  is_actionable _ = false

  unfoldable pub target : Decision F → Option (RankedServer F)
  target (switch to reason) = some to
  target (propose to reason) = some to
  target (blocked to reason) = some to
  target (suppressed to reason) = some to
  target _ = none

  -- `auto` was told to ask nobody, so a dismissal does not hold it back.
  unfoldable pub act : SwitchPolicy → RankedServer F → Reason F → Bool → Decision F
  act auto to reason already_declined = switch to reason
  act ask to reason true = suppressed to reason
  act ask to reason false = propose to reason
  act never to reason already_declined = blocked to reason

module _ {F : Type 0} ⦃fl : Float F⦄ where
  -- By score where the current server has one, by latency otherwise.
  unfoldable pub improvement_of : Option F → F → RankedServer F → F
  improvement_of (some score) rtt_ms best = relative_improvement score best.score
  improvement_of none rtt_ms best =
      if rtt_ms <=f fl.epsilon
      then fl.decimal 0 0
      else maximum ((rtt_ms -f best.rtt_ms) /f rtt_ms) (fl.decimal 0 0)

  -- A current server that still answers.
  unfoldable pub decide_answering :
      Autotune F → Option Text → Current F → RankedServer F → F → Decision F
  decide_answering a declined current best rtt_ms =
      let improvement = improvement_of current.score rtt_ms best in
      if rtt_ms <=f of_nat a.max_latency_ms
      then healthy current.name rtt_ms
      else if text_eq best.name current.name
      then already_best current.name rtt_ms
      else if improvement <f a.improvement_threshold
      then no_better_available current.name rtt_ms best.name best.rtt_ms improvement
          (of_nat a.max_latency_ms <f best.rtt_ms)
      else act a.switch_policy best (degraded rtt_ms a.max_latency_ms improvement)
          (is_some_and (λ d. text_eq d current.name) declined)

  decide_timed : Autotune F → Option Text → Current F → RankedServer F → Option F → Decision F
  unfolding decide_answering
  decide_timed a declined current best none = act a.switch_policy best current_went_silent false
  decide_timed a declined current best (some rtt_ms) =
      decide_answering a declined current best rtt_ms

  decide_best : Autotune F → Assessment F → Current F → Option (RankedServer F) → Decision F
  unfolding decide_timed
  decide_best a s current none = nothing_reachable s.probed
  decide_best a s current (some best) = decide_timed a s.declined_from current best current.rtt_ms

  decide_current : Autotune F → Assessment F → Option (Current F) → Decision F
  unfolding decide_best
  decide_current a s none = not_connected
  decide_current a s (some current) = decide_best a s current s.best

  unfoldable pub decide : Assessment F → Autotune F → Decision F
  unfolding decide_current
  decide s a = decide_current a s s.current
