-- ===== src/Daemon/Tuner/Describe.antt =====
-- `describe` of tuner.rs: one line for the log and for the notification.
use vpnmgr.Common.{List, [], ◌∷◌, ◌++◌, if◌then◌else◌}
use vpnmgr.Common.Text.{Text, text, print_nat}
use vpnmgr.Common.Float.{Float, ◌*f◌}
use vpnmgr.Daemon.Tuner.{
  Reason, current_went_silent, degraded, Decision, not_connected, healthy, already_best,
  no_better_available, switch, propose, blocked, suppressed, nothing_reachable,
}

abbrev concat : List Text → Text
concat [] = []
concat (t ∷ ts) = t ++ concat ts

module _ {F : Type 0} ⦃fl : Float F⦄ where
  -- `{x:.1}ms`, and `{:.0}%` of a fraction.
  abbrev ms : F → Text
  ms x = fl.format 1 x ++ text "ms"

  abbrev percent : F → Text
  percent x = fl.format 0 (x *f fl.decimal 100 0) ++ text "%"

  unfoldable pub describe_reason : Reason F → Text
  describe_reason current_went_silent = text "the current server stopped answering probes"
  describe_reason (degraded rtt_ms threshold_ms improvement) = concat (
      ms rtt_ms
      ∷ text " is over the "
      ∷ print_nat threshold_ms
      ∷ text "ms limit and this is "
      ∷ percent improvement
      ∷ text " better"
      ∷ [])

  unfoldable pub describe : Decision F → Text
  unfolding describe_reason
  describe not_connected = text "not connected; nothing to tune"
  describe (healthy server rtt_ms) = concat (server ∷ text " is healthy at " ∷ ms rtt_ms ∷ [])
  describe (already_best server rtt_ms) = concat (
      server
      ∷ text " is slow at "
      ∷ ms rtt_ms
      ∷ text ", but it is still the best available; staying put"
      ∷ [])
  describe (no_better_available server rtt_ms best best_rtt_ms improvement suspect) =
      if suspect
      then concat (
          server
          ∷ text " is slow at "
          ∷ ms rtt_ms
          ∷ text ", but so is every alternative (best "
          ∷ best
          ∷ text " at "
          ∷ ms best_rtt_ms
          ∷ text
              "). That points at this machine's connection rather than the VPN, so nothing was changed."
          ∷ [])
      else concat (
          server
          ∷ text " at "
          ∷ ms rtt_ms
          ∷ text "; best alternative "
          ∷ best
          ∷ text " at "
          ∷ ms best_rtt_ms
          ∷ text " is only "
          ∷ percent improvement
          ∷ text " better, below the threshold"
          ∷ [])
  describe (switch to reason) = concat (
      text "switching to "
      ∷ to.name
      ∷ text " ("
      ∷ to.location
      ∷ text "): "
      ∷ describe_reason reason
      ∷ [])
  describe (propose to reason) = concat (
      to.name
      ∷ text " ("
      ∷ to.location
      ∷ text ") looks better: "
      ∷ describe_reason reason
      ∷ text ". Run `vpnmgr approve` to move."
      ∷ [])
  describe (blocked to reason) = concat (
      to.name
      ∷ text " would be better ("
      ∷ describe_reason reason
      ∷ text "), but autotune.switch_policy is \"never\""
      ∷ [])
  describe (suppressed to reason) = concat (
      to.name
      ∷ text " still looks better ("
      ∷ describe_reason reason
      ∷ text "), but you dismissed that move recently, so it will not be raised again for now"
      ∷ [])
  describe (nothing_reachable probed) = concat (
      text "none of the "
      ∷ print_nat probed
      ∷ text
          " probed servers answered; treating this as a local connectivity problem rather than a reason to switch"
      ∷ [])
