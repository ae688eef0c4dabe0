-- ===== src/Daemon/Select/Tries.antt =====
-- Where one round of the loop over the candidates may lead.
use vpnmgr.Common.{◌≡◌, ◌⊎◌, ◌∙◌, Bool, true, false, Option, none, some, Bool-cases, inl, inr}
use vpnmgr.Common.Float.{Float, ◌<=f◌, ◌<f◌}
use vpnmgr.Tunnel.Spec.Interface.{Outcome, done, failed}
use vpnmgr.Daemon.Ranked.{RankedServer, SpeedSample}
use vpnmgr.Daemon.Env.{connection_of, State, Env, Sys, Result, ok, err}
use vpnmgr.Daemon.Steps.{Steps, bind-Steps, IfOk, Yields, bind-Yields, Frame}
use vpnmgr.Daemon.Connect.{establish, move_to}
use vpnmgr.Daemon.Connect.Moves.{Arrived, establish-Arrived, move_to-Arrived}
use vpnmgr.Daemon.Select.{
  Tried, settled, exhausted, better, record_throughput, judge_sample, with_rate, measure_candidate,
  go_to, try_one, wait_until_carrying, candidate_ready_timeout,
}
use vpnmgr.Daemon.Select.Frame.{wait-Frame, measure_candidate-Frame}

module _ {F : Type 0} (P : RankedServer F → Type 0) where
  -- The connection is the one that was there, or one to a server with the property.
  abbrev pub OnlyTo : {T : Type 0} → State F T → State F T → Type 0
  OnlyTo s t =
      (t.current ≡ s.current) ⊎ ((r : RankedServer F) × P r × (t.current ≡ some (connection_of r)))

  pub OnlyTo-trans : {T : Type 0} (s t u : State F T) → OnlyTo s t → OnlyTo t u → OnlyTo s u
  OnlyTo-trans s t u (inl a) (inl b) = inl (b ∙ a)
  OnlyTo-trans s t u (inr (r, h, a)) (inl b) = inr (r, h, b ∙ a)
  OnlyTo-trans s t u h (inr k) = inr k

  pub Frame-OnlyTo : {T : Type 0} (s t : State F T) → Frame s t → OnlyTo s t
  Frame-OnlyTo s t h = inl h.current

  pub Arrived-OnlyTo :
      {A T : Type 0} (chosen : RankedServer F) (s t : State F T) (r : Result A)
      → P chosen
      → Arrived chosen s r t
      → OnlyTo s t
  Arrived-OnlyTo chosen s t (ok a) h k = inr (chosen, h, k.1)
  Arrived-OnlyTo chosen s t (err e) h k = inl k.1

  abbrev pub BestAllowed : Option (RankedServer F × F) → Type 0
  BestAllowed none = Unit
  BestAllowed (some (r, mbps)) = P r

  abbrev pub TriedAllowed : Tried F → Type 0
  TriedAllowed (settled r) = P r
  TriedAllowed (exhausted best) = BestAllowed best

module _ {F : Type 0} ⦃fl : Float F⦄ (P : RankedServer F → Type 0) where
  better-Allowed :
      (best : Option (RankedServer F × F)) (c : RankedServer F) (mbps : F)
      → BestAllowed P best
      → P c
      → BestAllowed P (better best c mbps)
  unfolding better
  better-Allowed none c mbps h k = k
  better-Allowed (some (r, b)) c mbps h k = elim (Bool-cases (b <f mbps)) [
    | inl e ↦ rw e k
    | inr e ↦ rw e h
  ]

module _ {F : Type 0} ⦃fl : Float F⦄ (env : Env F) (P : RankedServer F → Type 0)
    (rated : (mbps : F) (r : RankedServer F) → P r → P (with_rate mbps r)) where
  judge_sample-Allowed :
      (bar : F) (c : RankedServer F) (best : Option (RankedServer F × F))
      (o : Outcome (SpeedSample F)) (s : Sys env)
      → BestAllowed P best
      → P c
      → IfOk (TriedAllowed P) (judge_sample env bar c best o s).0
  unfolding judge_sample record_throughput
  judge_sample-Allowed bar c best (failed e) s h k = h
  judge_sample-Allowed bar c best (done sample) s h k = elim (Bool-cases (bar <=f sample.mbps)) [
    | inl e ↦ rw e (rated sample.mbps c k)
    | inr e ↦ rw e (better-Allowed P best c sample.mbps h k)
  ]

  measure_candidate-Allowed :
      (bar : F) (c : RankedServer F) (best : Option (RankedServer F × F)) (b : Bool) (s : Sys env)
      → BestAllowed P best
      → P c
      → IfOk (TriedAllowed P) (measure_candidate env bar c best b s).0
  unfolding measure_candidate
  measure_candidate-Allowed bar c best false s h k = h
  measure_candidate-Allowed bar c best true s h k =
      judge_sample-Allowed bar c best _ (record s { world = _ }) h k

  go_to-OnlyTo :
      (is_first : Bool) (c : RankedServer F)
      → P c
      → Steps {env = env} (OnlyTo P) (go_to env is_first c)
  unfolding go_to
  go_to-OnlyTo true c h s =
      let r = establish env c s in
      Arrived-OnlyTo P c s.state r.1.state r.0 h (establish-Arrived env c s)
  go_to-OnlyTo false c h s =
      let r = move_to env c s in
      Arrived-OnlyTo P c s.state r.1.state r.0 h (move_to-Arrived env c s)

  pub try_one-OnlyTo :
      (bar : F) (is_first : Bool) (c : RankedServer F) (best : Option (RankedServer F × F))
      → P c
      → Steps {env = env} (OnlyTo P) (try_one env bar is_first c best)
  unfolding try_one
  try_one-OnlyTo bar is_first c best h s =
      let wait = wait_until_carrying env (env.wall s.world) candidate_ready_timeout in
      bind-Steps {env = env} (OnlyTo P) (OnlyTo-trans P) (go_to env is_first c) _
        (go_to-OnlyTo is_first c h)
        (λ _.
          bind-Steps {env = env} (OnlyTo P) (OnlyTo-trans P) wait _
            (λ t.
              Frame-OnlyTo P t.state _
                (wait-Frame env (env.wall s.world) candidate_ready_timeout t))
            (λ ready t. Frame-OnlyTo P t.state _ (measure_candidate-Frame env bar c best ready t)))
        s

  pub try_one-Allowed :
      (bar : F) (is_first : Bool) (c : RankedServer F) (best : Option (RankedServer F × F))
      → BestAllowed P best
      → P c
      → Yields {env = env} (TriedAllowed P) (try_one env bar is_first c best)
  unfolding try_one
  try_one-Allowed bar is_first c best h k s =
      let wait = wait_until_carrying env (env.wall s.world) candidate_ready_timeout in
      bind-Yields {env = env} (TriedAllowed P) (go_to env is_first c) _
        (λ _.
          bind-Yields {env = env} (TriedAllowed P) wait _
            (λ ready t. measure_candidate-Allowed bar c best ready t h k))
        s
