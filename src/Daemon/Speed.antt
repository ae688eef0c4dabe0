-- ===== src/Daemon/Speed.antt =====
-- Measuring on request, and the kill switch: `speedtest`, `baseline` and `killswitch` of
-- crates/vpnmgrd/src/state.rs.
pub mod Travel
pub mod Switch
use vpnmgr.Common.{
  ℕ, ◌+◌, ◌-◌, ◌*◌, ◌/◌, Bool, true, false, ◌&&◌, ◌||◌, Option, none, some, is_some, is_none_or,
  List, [], ◌∷◌, ◌++◌, map, length, take, ltb, ◌==◌, if◌then◌else◌, retain,
}
use vpnmgr.Common.Text.{Text, text, text_le, trim, lowercase, eq_ignore_case}
use vpnmgr.Common.Float.{Float, ◌<=f◌, ◌<f◌, ◌*f◌, ◌/f◌}
use vpnmgr.Common.Sorting.{sort_by}
use vpnmgr.Core.Airvpn.{Server, ServerList, is_healthy, headroom_mbps}
use vpnmgr.Core.Config.{Config, Filters}
use vpnmgr.Core.Config.Targets.{second}
use vpnmgr.Core.Filter.{Ruleset, ruleset_of, accepts}
use vpnmgr.Tunnel.Killswitch.{killswitch_for}
use vpnmgr.Tunnel.Spec.{TunnelStatus, default_interface, default_fwmark}
use vpnmgr.Tunnel.Spec
use vpnmgr.Tunnel.Spec.Interface.{Outcome, done, failed, Backend}
use vpnmgr.Daemon.Ranked.{
  RankedServer, SweepSummary, StatusReport, ServerSummary, SpeedSample, SpeedReport,
  KillswitchReport,
}
use vpnmgr.Daemon.Env.{
  Connection, State, Error, tunnel, Settings, Env, Sys, M, Result, ok, err, from_outcome, seen_at,
  ◌>>=◌, ◌>>◌, give, fail, get, put, observe, run, lift,
}
use vpnmgr.Daemon.Sweep.{server_list, direct_rate, elapsed_secs, age_of, only_country}
use vpnmgr.Daemon.Connect.{disconnect}
use vpnmgr.Daemon.Select.{settings_for, measure, record_throughput, record_direct}
use vpnmgr.Daemon.Best.{connect}
use vpnmgr.Daemon.Tune.{pending_switch, time_until_next_tune}

server_of : Option Connection → Option Text
server_of none = none
server_of (some c) = some c.server

module _ {F : Type 0} ⦃fl : Float F⦄ (env : Env F) where
  speed_verdict : Option Text → F → F → Bool → Text
  speed_verdict (some server) mbps min_mbps meets =
      fl.format 1 mbps
      ++ (text " Mbps through "
          ++ (server
              ++ (text " ("
                  ++ ((if meets then text "meets" else text "below")
                      ++ (text " the " ++ (fl.format 0 min_mbps ++ text " Mbps target)"))))))
  speed_verdict none mbps min_mbps meets =
      fl.format 1 mbps ++ text " Mbps with no tunnel up; this is your direct connection"

  -- With no tunnel up the figure is the line's own.
  note_speed : Option Text → F → M env (Unit {0})
  note_speed (some server) mbps = record_throughput env server mbps
  note_speed none mbps = record_direct env mbps

  unfoldable pub speedtest : M env (SpeedReport F)
  unfolding speed_verdict server_of note_speed
  speedtest = do
    s ← get
    sample ← measure env (settings_for s.config s.config.throughput.bytes)
    let connected = server_of s.current
    let min_mbps = s.config.autotune.min_mbps
    let meets = min_mbps <=f sample.mbps
    note_speed connected sample.mbps
    let report : SpeedReport F = record {
      tunnelled = if is_some connected then some sample else none;
      direct = if is_some connected then none else some sample;
      server = connected;
      min_mbps = min_mbps;
      meets_target = meets;
      verdict = speed_verdict connected sample.mbps min_mbps meets;
    }
    give report

  unfoldable pub retained_share : F → F → F
  retained_share tunnelled direct =
      if fl.decimal 0 0 <f direct then tunnelled /f direct else fl.decimal 0 0

  baseline_verdict : Text → F → F → F → Text
  unfolding retained_share
  baseline_verdict server tunnelled direct min_mbps =
      let retained = retained_share tunnelled direct in
      fl.format 1 tunnelled
      ++ (text " Mbps through "
          ++ (server
              ++ (text " vs "
                  ++ (fl.format 1 direct
                      ++ (text " Mbps direct — the tunnel keeps "
                          ++ (fl.format 0 (retained *f fl.decimal 100 0)
                              ++ (text "% of your connection. "
                                  ++ (if fl.decimal 7 1 <=f retained
                                      then text
                                          "That is normal overhead; a slow link here is your connection, not the VPN."
                                      else if direct <f min_mbps
                                      then text
                                          "Your connection itself is below the target, so no server can fix it."
                                      else text
                                          "The VPN is costing you a lot; a different server may do better."))))))))

  -- The two results are looked at only once the tunnel is back.
  baseline_report :
      Text
      → F
      → SpeedSample F
      → Outcome (SpeedSample F)
      → Result (RankedServer F) × Sys env
      → Result (SpeedReport F) × Sys env
  baseline_report server min_mbps tunnelled (failed e) (restored, s) = (err (Error.throughput e), s)
  baseline_report server min_mbps tunnelled (done direct) (err e, s) = (err e, s)
  baseline_report server min_mbps tunnelled (done direct) (ok chosen, s) =
      (record_direct env direct.mbps
          >> give (record {
            tunnelled = some tunnelled;
            direct = some direct;
            server = some server;
            min_mbps = min_mbps;
            meets_target = min_mbps <=f tunnelled.mbps;
            verdict = baseline_verdict server tunnelled.mbps direct.mbps min_mbps;
          }))
        s

  baseline_through : Connection → M env (SpeedReport F)
  unfolding baseline_report baseline_verdict
  baseline_through c = do
    s ← get
    let settings = settings_for s.config s.config.throughput.bytes
    tunnelled ← measure env settings
    record_throughput env c.server tunnelled.mbps
    disconnect env
    direct ← run (env.measure settings)
    λ s'.
        baseline_report c.server s.config.autotune.min_mbps tunnelled direct
          (connect env (some c.server) (some false) s')

  baseline_from : Option Connection → M env (SpeedReport F)
  unfolding baseline_through
  baseline_from none = speedtest
  baseline_from (some c) = baseline_through c

  unfoldable pub baseline : M env (SpeedReport F)
  unfolding baseline_from
  baseline = do s ← get; baseline_from s.current

  set_killswitch : Option Bool → M env (Unit {0})
  set_killswitch none = give tt
  set_killswitch (some true) = do
    s ← get
    engaged ←
        run (
          env.engage
            (killswitch_for default_interface default_fwmark s.config.killswitch.allow_lan))
    lift (from_outcome tunnel engaged)
    s' ← get
    put (record s' {
      config = record s'.config { killswitch = record s'.config.killswitch { enabled = true } };
    })
  set_killswitch (some false) = do
    released ← run env.release
    lift (from_outcome tunnel released)
    s' ← get
    put (record s' {
      config = record s'.config { killswitch = record s'.config.killswitch { enabled = false } };
    })

  unfoldable pub killswitch : Option Bool → M env KillswitchReport
  unfolding set_killswitch
  killswitch enable = do
    set_killswitch enable
    s ← get
    engaged ← observe env.is_engaged
    dropped ← observe env.dropped
    give (record { engaged = engaged; configured = s.config.killswitch.enabled; dropped = dropped })
