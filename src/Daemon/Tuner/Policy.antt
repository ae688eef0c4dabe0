-- ===== src/Daemon/Tuner/Policy.antt =====
-- What the switch policy makes of a decision: tuner.rs, `act`.
use vpnmgr.Common.{◌≡◌, ◌≢◌, ap, ◌⊎◌, true, Option, none, some, arith, is_some_and}
use vpnmgr.Common.Text.{Text, text_eq, text_eq_iff}
use vpnmgr.Common.Float.{Float}
use vpnmgr.Core.Config.{Autotune, ask, auto}
use vpnmgr.Daemon.Ranked.{RankedServer}
use vpnmgr.Daemon.Tuner.{
  Current, Assessment, Reason, propose, suppressed, is_actionable, act, decide_answering, decide,
}

declined-here : (o : Option Text) (n : Text) → is_some_and (λ d. text_eq d n) o ≡ true → o ≡ some n
declined-here none n h = cc
declined-here (some d) n h = ap some ((text_eq_iff d n).0 h)

module _ {F : Type 0} ⦃fl : Float F⦄ (s : Assessment F) (a : Autotune F) where
  -- Only under `auto` does a decision move the tunnel.
  pub decide-is_actionable : is_actionable (decide s a) ≡ true → a.switch_policy ≡ auto
  unfolding decide act is_actionable decide_answering
  decide-is_actionable h = ground arith

  -- A proposal is made under `ask` only, and of a server that still answers only if the user has not
  -- turned down a move from it.
  pub decide-propose :
      (to : RankedServer F) (r : Reason F) (c : Current F)
      → s.current ≡ some c
      → decide s a ≡ propose to r
      → (a.switch_policy ≡ ask) × ((c.rtt_ms ≡ none) ⊎ (s.declined_from ≢ some c.name))
  unfolding decide act decide_answering
  decide-propose to r c e h = ground (arith, text_eq_iff c.name c.name)

  -- A move is suppressed under `ask` only, and only while the server that the user chose to stay on
  -- still answers.
  decide-suppressed :
      (to : RankedServer F) (r : Reason F) (c : Current F)
      → s.current ≡ some c
      → decide s a ≡ suppressed to r
      → (a.switch_policy ≡ ask) × (c.rtt_ms ≢ none) × (s.declined_from ≡ some c.name)
  unfolding decide act decide_answering
  decide-suppressed to r c e h =
      (ground arith, λ k. ground arith, ground (arith, declined-here s.declined_from c.name))
