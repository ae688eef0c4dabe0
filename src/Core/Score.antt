-- ===== src/Core/Score.antt =====
-- crates/vpnmgr-core/src/score.rs: ranking of probed servers. A duration is a number of nanoseconds.
pub mod Order
pub mod Outlier
pub mod Bounds
use vpnmgr.Common.{
  ℕ, Bool, true, false, ◌||◌, Option, none, some, List, [], ◌∷◌, map, ltb, if◌then◌else◌, ◌==◌,
  ◌&&◌, filter_map,
}
use vpnmgr.Common.Text.{Text, text_le}
use vpnmgr.Common.Float.{
  Float, ◌<=f◌, ◌<f◌, ◌+f◌, ◌-f◌, ◌*f◌, ◌/f◌, of_nat, maximum, minimum, clamp,
}
use vpnmgr.Common.Sorting.{sort_by}
use vpnmgr.Core.Net.{SocketAddr}
use vpnmgr.Core.Airvpn.{Server, load_fraction, headroom_mbps}
use vpnmgr.Core.Config.{Weights}

pub record Scoring (F : Type 0) : Type 0 where
  pub weights : Weights F
  pub headroom_target_mbps : F

-- No `rtt`: the handshake never came back.
pub record Measured : Type 0 where
  pub server : Server
  pub endpoint : SocketAddr
  pub entry : ℕ
  pub rtt : Option ℕ

-- A measurement with a timing.
pub record Timed : Type 0 where
  pub server : Server
  pub endpoint : SocketAddr
  pub entry : ℕ
  pub rtt : ℕ

pub record Scored (F : Type 0) : Type 0 where
  pub timed : Timed
  pub open timed use *
  pub score : F
  pub rtt_score : F
  pub load_score : F
  pub headroom_score : F

abbrev pub timed_at : Measured → Option ℕ → Option Timed
timed_at m none = none
timed_at m (some rtt) =
    some (record { server = m.server; endpoint = m.endpoint; entry = m.entry; rtt = rtt })

unfoldable pub reachable : List Measured → List Timed
reachable = filter_map λ m. timed_at m m.rtt

module _ {F : Type 0} ⦃fl : Float F⦄ where
  abbrev pub micros : ℕ → F
  micros d = fl.secs d *f fl.decimal 1_000_000 0

  -- `fold(f64::INFINITY, f64::min)`.
  unfoldable pub fastest_from : F → List Timed → F
  fastest_from acc [] = acc
  fastest_from acc (t ∷ ts) = fastest_from (minimum acc (micros t.rtt)) ts

  abbrev pub fastest : List Timed → F
  fastest = fastest_from fl.infinity

  unfoldable pub rtt_score_of : F → F → F
  rtt_score_of quickest us =
      if (us <=f fl.epsilon) || (quickest <=f fl.epsilon)
      then fl.decimal 1 0
      else clamp (fl.decimal 0 0) (fl.decimal 1 0) (
          fl.decimal 1 0
          -f fl.ln (maximum (us /f quickest) (fl.decimal 1 0)) /f fl.ln (fl.decimal 20 0))

  unfoldable pub headroom_score_of : F → Server → F
  headroom_score_of target s =
      if target <=f fl.decimal 0 0
      then fl.decimal 1 0
      else clamp (fl.decimal 0 0) (fl.decimal 1 0)
          (fl.ln (fl.decimal 1 0 +f of_nat (headroom_mbps s) /f target) /f fl.ln_2)

  unfoldable pub score_one : Scoring F → F → Timed → Scored F
  unfolding rtt_score_of headroom_score_of
  score_one scoring quickest t =
      let w = scoring.weights in
      let rtt_score = rtt_score_of quickest (micros t.rtt) in
      let load_score = fl.decimal 1 0 -f load_fraction t.server in
      let headroom_score = headroom_score_of scoring.headroom_target_mbps t.server in
      record {
        timed = t;
        score =
            (w.rtt *f rtt_score +f w.load *f load_score +f w.headroom *f headroom_score)
            /f (w.rtt +f w.load +f w.headroom);
        rtt_score = rtt_score;
        load_score = load_score;
        headroom_score = headroom_score;
      }

  -- The sort's comparison is not `Greater`: a higher score first, then the shorter time, then the
  -- name; scores that do not compare count as equal.
  unfoldable pub may_precede : Scored F → Scored F → Bool
  may_precede a b =
      if b.score <f a.score
      then true
      else if a.score <f b.score
      then false
      else ltb a.timed.rtt b.timed.rtt
        || (a.timed.rtt == b.timed.rtt && text_le a.timed.server.name b.timed.server.name)

  unfoldable pub score_all : Scoring F → List Timed → List (Scored F)
  unfolding fastest_from score_one
  score_all scoring ts = map (score_one scoring (fastest ts)) ts

  unfoldable pub rank : List Measured → Scoring F → List (Scored F)
  unfolding may_precede score_all reachable
  rank measured scoring = sort_by may_precede (score_all scoring (reachable measured))

  unfoldable pub relative_improvement : F → F → F
  relative_improvement current candidate =
      if candidate <=f current
      then fl.decimal 0 0
      else if current <=f fl.epsilon
      then fl.decimal 1 0
      else (candidate -f current) /f current
