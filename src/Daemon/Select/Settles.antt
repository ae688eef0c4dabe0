-- ===== src/Daemon/Select/Settles.antt =====
-- A round that settles leaves the connection at the candidate.
use vpnmgr.Common.{◌≡◌, refl, Bool, true, false, Option, none, some, Bool-cases, inl, inr}
use vpnmgr.Common.Text.{Text}
use vpnmgr.Common.Float.{Float, ◌<=f◌}
use vpnmgr.Tunnel.Spec.Interface.{Outcome, done, failed}
use vpnmgr.Daemon.Ranked.{RankedServer, SpeedSample}
use vpnmgr.Daemon.Env.{Connection, Env, Sys, M, Result, ok, err, continue}
use vpnmgr.Daemon.Steps.{St}
use vpnmgr.Daemon.Connect.Moves.{Arrived, establish-Arrived, move_to-Arrived}
use vpnmgr.Daemon.Select.{
  Tried, settled, exhausted, record_throughput, judge_sample, measure_candidate, go_to, try_one,
  wait_until_carrying,
}

-- The connection is to the server of that name.
abbrev pub On : Text → Option Connection → Type 0
On name none = ⊥
On name (some c) = c.server ≡ name

module _ {F : Type 0} where
  abbrev pub SettledOn : Result (Tried F) → Option Connection → Type 0
  SettledOn (err e) current = Unit
  SettledOn (ok (exhausted best)) current = Unit
  SettledOn (ok (settled r)) current = On r.name current

module _ {F : Type 0} ⦃fl : Float F⦄ (env : Env F) where
  judge_sample-SettledOn :
      (bar : F) (c : RankedServer F) (best : Option (RankedServer F × F))
      (o : Outcome (SpeedSample F)) (s : Sys env)
      → On c.name s.state.current
      → let r = judge_sample env bar c best o s in SettledOn r.0 r.1.state.current
  unfolding judge_sample record_throughput
  judge_sample-SettledOn bar c best (failed e) s h = tt
  judge_sample-SettledOn bar c best (done sample) s h = elim (Bool-cases (bar <=f sample.mbps)) [
    | inl e ↦ rw e h
    | inr e ↦ rw e tt
  ]

  measure_candidate-SettledOn :
      (bar : F) (c : RankedServer F) (best : Option (RankedServer F × F)) (b : Bool) (s : Sys env)
      → On c.name s.state.current
      → let r = measure_candidate env bar c best b s in SettledOn r.0 r.1.state.current
  unfolding measure_candidate
  measure_candidate-SettledOn bar c best false s h = tt
  measure_candidate-SettledOn bar c best true s h =
      judge_sample-SettledOn bar c best _ (record s { world = _ }) h

  went-SettledOn :
      (c : RankedServer F) (s : St env) (f : Unit {0} → M env (Tried F))
      (r : Result (Unit {0}) × Sys env)
      → Arrived c s r.0 r.1.state
      → ((t : Sys env) → On c.name t.state.current → SettledOn (f tt t).0 (f tt t).1.state.current)
      → SettledOn (continue r f).0 (continue r f).1.state.current
  went-SettledOn c s f (ok _, t) h go = go t (rw h.1 refl)
  went-SettledOn c s f (err e, t) h go = tt

  go_to-Arrived :
      (is_first : Bool) (c : RankedServer F) (s : Sys env)
      → let r = go_to env is_first c s in Arrived c s.state r.0 r.1.state
  unfolding go_to
  go_to-Arrived true c s = establish-Arrived env c s
  go_to-Arrived false c s = move_to-Arrived env c s

  pub try_one-SettledOn :
      (bar : F) (is_first : Bool) (c : RankedServer F) (best : Option (RankedServer F × F))
      (s : Sys env)
      → let r = try_one env bar is_first c best s in SettledOn r.0 r.1.state.current
  unfolding try_one wait_until_carrying
  try_one-SettledOn bar is_first c best s =
      went-SettledOn c s.state _ (go_to env is_first c s) (go_to-Arrived is_first c s)
        (λ t h. measure_candidate-SettledOn bar c best _ (record t { world = _ }) h)
