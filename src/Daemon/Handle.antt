-- ===== src/Daemon/Handle.antt =====
-- The requests of the socket, the scheduler and the notices: `handle`, `scheduler` and `announce` of
-- crates/vpnmgrd/src/main.rs. One request is handled at a time, under the lock on the state.
pub mod Reached
pub mod Looks
pub mod Sound
use vpnmgr.Common.{
  ℕ, Bool, true, false, Option, none, some, is_some, List, [], ◌∷◌, ◌++◌, ◌==◌, if◌then◌else◌,
}
use vpnmgr.Common.Text.{Text, text, print_nat}
use vpnmgr.Common.Float.{Float}
use vpnmgr.Daemon.Ranked.{
  RankedServer, StatusReport, ServerSummary, SpeedReport, KillswitchReport, TuneReport,
}
use vpnmgr.Daemon.Env.{
  Connection, State, Error, consent_required, Env, Sys, M, Result, ok, err, ◌>>=◌, ◌>>◌, give, get,
  put, observe, run,
}
use vpnmgr.Daemon.Sweep
use vpnmgr.Daemon.Connect
use vpnmgr.Daemon.Best
use vpnmgr.Daemon.Tune
use vpnmgr.Daemon.Speed
use vpnmgr.Daemon.Answer
use vpnmgr.Daemon.Report

pub data Request : Type 0 where
  status : Request
  connect : Option Text → Option Bool → Request
  disconnect : Request
  switch : Text → Request
  test : Option Text → Request
  last_ranking : Option ℕ → Request
  servers : Option Text → Option ℕ → Bool → Request
  reload version autotune approve dismiss speedtest : Request
  baseline : Bool → Request
  killswitch : Option Bool → Request

-- An error is kept as it is; the socket sends its text.
pub data Response (F : Type 0) : Type 0 where
  status : StatusReport F → Response F
  ranking : List (RankedServer F) → Response F
  servers : List ServerSummary → Response F
  done : Text → Response F
  version : Text → Response F
  tuned : TuneReport F → Response F
  speed : SpeedReport F → Response F
  killswitch : KillswitchReport → Response F
  error : Error → Response F

pub data Urgency : Type 0 where
  normal critical : Urgency

module _ {F : Type 0} ⦃fl : Float F⦄ where
  rate_text : Option F → Text
  rate_text none = []
  rate_text (some mbps) = text ", measured " ++ (fl.format 0 mbps ++ text " Mbps")

  entry_text : RankedServer F → Text
  entry_text s =
      text " via entry "
      ++ (print_nat s.entry ++ (text " at " ++ (fl.format 1 s.rtt_ms ++ text "ms")))

  connected_text : RankedServer F → Text
  unfolding rate_text entry_text
  connected_text s =
      text "connected to "
      ++ (s.name
          ++ (text " ("
              ++ (s.location
                  ++ (text ", "
                      ++ (s.country_name ++ (text ")" ++ (entry_text s ++ rate_text s.mbps)))))))

  switched_text : RankedServer F → Text
  unfolding entry_text
  switched_text s =
      text "switched to " ++ (s.name ++ (text " (" ++ (s.location ++ (text ")" ++ entry_text s))))

  -- The title of a desktop notice, and how urgent it is. A healthy pass is silent.
  unfoldable pub announce : TuneReport F → Option (Text × Urgency)
  announce r =
      if r.switched
      then some (text "VPN server switched", normal)
      else if is_some r.pending
      then some (text "A faster VPN server is available", normal)
      else if r.nothing_reachable
      then some (text "VPN is not reaching any server", critical)
      else none

module _ {F : Type 0} ⦃fl : Float F⦄ (env : Env F) where
  -- The response to a result.
  abbrev pub answer : {A : Type 0} → (A → Response F) → Result A × Sys env → Response F × Sys env
  answer show (ok a, s) = (show a, s)
  answer show (err e, s) = (Response.error e, s)

  abbrev pub version_text : Text
  version_text = text "0.1.2"

  unfoldable pub handle : Request → Sys env → Response F × Sys env
  unfolding connected_text switched_text
  handle Request.version s = (Response.version version_text, s)
  handle Request.status s = (Response.status (Report.status env s.state s.world), s)
  handle (Request.connect server measure) s =
      answer (λ c. done (connected_text c)) (Best.connect env server measure s)
  handle Request.disconnect s = answer (λ _. done (text "disconnected")) (Connect.disconnect env s)
  handle (Request.switch server) s =
      answer (λ c. done (switched_text c)) (Connect.switch env server s)
  handle (Request.test country) s = answer ranking (Sweep.sweep env country s)
  handle (Request.last_ranking limit) s =
      (ranking (Report.last_ranking (env.now s.world) limit s.state), s)
  handle (Request.servers country limit all) s =
      answer Response.servers (Report.servers env country limit all s)
  handle Request.reload s = answer (λ _. done (text "configuration reloaded")) (Answer.reload env s)
  handle Request.autotune s = answer tuned (Tune.autotune env s)
  handle Request.approve s = answer (λ c. done (switched_text c)) (Answer.approve env s)
  handle Request.speedtest s = answer speed (Speed.speedtest env s)
  handle (Request.baseline true) s = answer speed (Speed.baseline env s)
  handle (Request.baseline false) s = (Response.error consent_required, s)
  handle (Request.killswitch enable) s = answer Response.killswitch (Speed.killswitch env enable s)
  handle Request.dismiss s =
      answer (λ name. done (text "dismissed the proposal to move to " ++ name))
        (Answer.dismiss env s)

  -- One turn of the scheduler after its sleep: a pass if one is still due.
  unfoldable pub scheduled : Sys env → Option (Result (TuneReport F)) × Sys env
  scheduled s =
      if Tune.time_until_next_tune (env.now s.world) s.state == 0
      then (let (r, s') = Tune.autotune env s in (some r, s'))
      else (none, s)
