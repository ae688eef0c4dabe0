-- ===== src/Daemon/Select/Frame.antt =====
-- Measuring notes its figures; trying a candidate moves the connection and measures.
use vpnmgr.Common.{ℕ, Bool, true, false, Option, arith}
use vpnmgr.Common.Text.{Text}
use vpnmgr.Common.Float.{Float}
use vpnmgr.Tunnel.Spec.Interface.{Outcome, done, failed}
use vpnmgr.Daemon.Ranked.{RankedServer, SpeedSample}
use vpnmgr.Daemon.Env.{Env, Settings}
use vpnmgr.Daemon.Steps.{Steps, Frame, Frame-refl, Travelling, next-Travelling, framed}
use vpnmgr.Daemon.Connect.Travel.{establish-Travels, move_to-Travels}
use vpnmgr.Daemon.Select.{
  record_throughput, record_direct, measure, measure_line, note_direct, judge_sample,
  measure_candidate, go_to, try_one, wait_until_carrying, candidate_ready_timeout,
}

module _ {F : Type 0} (env : Env F) where
  pub record_throughput-Frame :
      (server : Text) (mbps : F) → Steps {env = env} Frame (record_throughput env server mbps)
  unfolding record_throughput
  record_throughput-Frame server mbps s = ground arith

  pub record_direct-Frame : (mbps : F) → Steps {env = env} Frame (record_direct env mbps)
  unfolding record_direct
  record_direct-Frame mbps s = ground arith

  pub measure-Frame : (settings : Settings) → Steps {env = env} Frame (measure env settings)
  unfolding measure
  measure-Frame settings s = Frame-refl s.state

  pub wait-Frame :
      (since timeout : ℕ) → Steps {env = env} Frame (wait_until_carrying env since timeout)
  unfolding wait_until_carrying
  wait-Frame since timeout s = Frame-refl s.state

module _ {F : Type 0} ⦃fl : Float F⦄ (env : Env F) where
  note_direct-Frame : (o : Outcome (SpeedSample F)) → Steps {env = env} Frame (note_direct env o)
  unfolding note_direct
  note_direct-Frame (failed e) s = Frame-refl s.state
  note_direct-Frame (done sample) s = record_direct-Frame env sample.mbps s

  pub measure_line-Frame : (b : Bool) → Steps {env = env} Frame (measure_line env b)
  unfolding measure_line
  measure_line-Frame false s = Frame-refl s.state
  measure_line-Frame true s = note_direct-Frame _ (record s { world = _ })

  judge_sample-Frame :
      (bar : F) (c : RankedServer F) (best : Option (RankedServer F × F))
      (o : Outcome (SpeedSample F))
      → Steps {env = env} Frame (judge_sample env bar c best o)
  unfolding judge_sample record_throughput
  judge_sample-Frame bar c best (failed e) s = Frame-refl s.state
  judge_sample-Frame bar c best (done sample) s = record_throughput-Frame env c.name sample.mbps s

  pub measure_candidate-Frame :
      (bar : F) (c : RankedServer F) (best : Option (RankedServer F × F)) (b : Bool)
      → Steps {env = env} Frame (measure_candidate env bar c best b)
  unfolding measure_candidate
  measure_candidate-Frame bar c best false s = Frame-refl s.state
  measure_candidate-Frame bar c best true s =
      judge_sample-Frame bar c best _ (record s { world = _ })

  go_to-Travels : (is_first : Bool) (c : RankedServer F) → Travelling env (go_to env is_first c)
  unfolding go_to
  go_to-Travels true c s = establish-Travels env c s
  go_to-Travels false c s = move_to-Travels env c s

  pub try_one-Travels :
      (bar : F) (is_first : Bool) (c : RankedServer F) (best : Option (RankedServer F × F))
      → Travelling env (try_one env bar is_first c best)
  unfolding try_one
  try_one-Travels bar is_first c best s =
      let wait = wait_until_carrying env (env.wall s.world) candidate_ready_timeout in
      next-Travelling env (go_to env is_first c) _ (go_to-Travels is_first c)
        (λ _.
          next-Travelling env wait _
            (framed env wait (wait-Frame env (env.wall s.world) candidate_ready_timeout))
            (λ ready.
              framed env (measure_candidate env bar c best ready)
                (measure_candidate-Frame bar c best ready)))
        s
