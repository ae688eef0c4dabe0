-- ===== src/Daemon/Select.antt =====
-- Measuring the line and a candidate: `wait_until_carrying`, `measure`, `record_throughput` and the body
-- of the loop in `connect_best` of crates/vpnmgrd/src/state.rs.
pub mod Frame
pub mod Wait
pub mod Tries
pub mod Settles
use vpnmgr.Common.{
  ℕ, zero, suc, ◌+◌, ◌*◌, ◌/◌, ◌^◌, min, Bool, true, false, not, Option, none, some, is_none,
  is_none_or, is_some_and, List, [], ◌∷◌, ◌++◌, map, length, take, ltb, ◌==◌, if◌then◌else◌, first,
}
use vpnmgr.Common.Text.{Text, text_eq, print_nat}
use vpnmgr.Common.Float.{Float, ◌<=f◌, ◌<f◌}
use vpnmgr.Core.Config.{Config, Throughput}
use vpnmgr.Core.Config.Targets.{second, acceptance_mbps}
use vpnmgr.Tunnel.Spec.{TunnelStatus}
use vpnmgr.Tunnel.Spec.Interface.{Outcome, done, failed}
use vpnmgr.Daemon.Ranked.{RankedServer, SpeedSample}
use vpnmgr.Daemon.Env.{
  Connection, State, Error, throughput, Settings, Env, Sys, M, Result, ok, err, from_outcome, see,
  ◌>>=◌, ◌>>◌, give, fail, get, put, observe, run, lift,
}
use vpnmgr.Daemon.Sweep.{sweep, probe_named, direct_rate}
use vpnmgr.Daemon.Connect.{establish, move_to}

ends_with : ℕ → Text → Bool
ends_with c [] = false
ends_with c (d ∷ []) = d == c
ends_with c (d ∷ e ∷ rest) = ends_with c (e ∷ rest)

-- `Throughput::request_url_for`.
unfoldable pub request_url_for : Throughput → ℕ → Text
unfolding ends_with
request_url_for t bytes = if ends_with b'=' t.url then t.url ++ print_nat bytes else t.url

-- The settings of a measurement of so many bytes.
abbrev pub settings_for : {F : Type 0} → Config F → ℕ → Settings
settings_for c bytes = record {
  url = request_url_for c.throughput bytes;
  bytes = bytes;
  timeout = c.throughput.timeout_secs * second;
}

-- Half a second, and the thirty seconds that a candidate gets.
abbrev pub poll_interval : ℕ
poll_interval = 500 * 10 ^ 6

abbrev pub candidate_ready_timeout : ℕ
candidate_ready_timeout = 30 * second

-- What is left of a loop over the candidates: a server that is fast enough, or the fastest measured.
pub data Tried (F : Type 0) : Type 0 where
  settled : RankedServer F → Tried F
  exhausted : Option (RankedServer F × F) → Tried F

module _ {F : Type 0} where
  abbrev pub with_rate : F → RankedServer F → RankedServer F
  with_rate mbps s = record s { mbps = some mbps; mbps_age_secs = some 0 }

  -- The cached ranking shows a new figure at once.
  unfoldable pub note_rate : Text → F → List (RankedServer F) → List (RankedServer F)
  note_rate server mbps [] = []
  note_rate server mbps (r ∷ rs) =
      (if text_eq r.name server then with_rate mbps r else r) ∷ note_rate server mbps rs

module _ {F : Type 0} (env : Env F) where
  open env use {World, backend.{Tunnel}, backend}

  unfoldable pub record_throughput : Text → F → M env (Unit {0})
  record_throughput server mbps = do
    s ← get
    now ← observe env.now
    put (record s {
      throughput_seen = see server (mbps, now) s.throughput_seen;
      last_ranking = note_rate server mbps s.last_ranking;
    })

  unfoldable pub record_direct : F → M env (Unit {0})
  record_direct mbps = do
    s ← get
    now ← observe env.now
    put (record s { direct_mbps = some (mbps, now) })

  unfoldable pub measure : Settings → M env (SpeedSample F)
  measure settings = do result ← run (env.measure settings); lift (from_outcome throughput result)

  carries : ℕ → Outcome TunnelStatus → Bool
  carries since (failed e) = false
  carries since (done status) = is_some_and (λ at. ltb since at) status.last_handshake

  unfoldable pub carrying : ℕ → Option Tunnel → World → Bool
  unfolding carries
  carrying since none w = false
  carrying since (some t) w = carries since (backend.status t w)

  -- The loop looks until the deadline, with a pause after each look.
  wait_loop : ℕ → ℕ → ℕ → Option Tunnel → World → Bool × World
  wait_loop zero since deadline t w = (false, w)
  wait_loop (suc rounds) since deadline t w =
      let later = wait_loop rounds since deadline t (env.sleep poll_interval w) in
      if ltb (env.now w) deadline
      then (if carrying since t w then (true, w) else later)
      else (false, w)

  -- One round more than there are pauses before the deadline.
  unfoldable pub wait_until_carrying : ℕ → ℕ → M env Bool
  unfolding wait_loop carrying carries
  wait_until_carrying since timeout = do
    s ← get
    now ← observe env.now
    run (wait_loop (suc (timeout / poll_interval)) since (now + timeout) s.tunnel)

module _ {F : Type 0} ⦃fl : Float F⦄ where
  -- The faster of the best so far and the candidate just measured.
  unfoldable pub better :
      Option (RankedServer F × F) → RankedServer F → F → Option (RankedServer F × F)
  better none candidate mbps = some (candidate, mbps)
  better (some (b, best)) candidate mbps =
      if best <f mbps then some (candidate, mbps) else some (b, best)

module _ {F : Type 0} ⦃fl : Float F⦄ (env : Env F) where
  note_direct : Outcome (SpeedSample F) → M env (Unit {0})
  note_direct (failed e) = give tt
  note_direct (done sample) = record_direct env sample.mbps

  -- A measurement of the line that fails is passed over.
  unfoldable pub measure_line : Bool → M env (Unit {0})
  unfolding note_direct
  measure_line false = give tt
  measure_line true = do
    s ← get
    result ← run (env.measure (settings_for s.config s.config.throughput.select_bytes))
    note_direct result

  judge_sample :
      F → RankedServer F → Option (RankedServer F × F) → Outcome (SpeedSample F) → M env (Tried F)
  unfolding better
  judge_sample bar candidate best (failed e) = give (exhausted best)
  judge_sample bar candidate best (done sample) = do
    record_throughput env candidate.name sample.mbps
    give (
        if bar <=f sample.mbps
        then settled (with_rate sample.mbps candidate)
        else exhausted (better best candidate sample.mbps))

  unfoldable pub measure_candidate :
      F → RankedServer F → Option (RankedServer F × F) → Bool → M env (Tried F)
  unfolding judge_sample
  measure_candidate bar candidate best false = give (exhausted best)
  measure_candidate bar candidate best true = do
    s ← get
    result ← run (env.measure (settings_for s.config s.config.throughput.select_bytes))
    judge_sample bar candidate best result

  go_to : Bool → RankedServer F → M env (Unit {0})
  go_to true candidate = establish env candidate
  go_to false candidate = move_to env candidate

  -- One round of the loop over the shortlist.
  unfoldable pub try_one : F → Bool → RankedServer F → Option (RankedServer F × F) → M env (Tried F)
  unfolding measure_candidate go_to
  try_one bar is_first candidate best = do
    since ← observe env.wall
    go_to is_first candidate
    ready ← wait_until_carrying env since candidate_ready_timeout
    measure_candidate bar candidate best ready
