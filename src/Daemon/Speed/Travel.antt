-- ===== src/Daemon/Speed/Travel.antt =====
-- Reporting and measuring keep the settings and the proposal; `baseline` takes the tunnel down and up.
use vpnmgr.Common.{ℕ, Bool, false, Option, none, some}
use vpnmgr.Common.Text.{Text}
use vpnmgr.Common.Float.{Float}
use vpnmgr.Tunnel.Spec.Interface.{Outcome, done, failed}
use vpnmgr.Daemon.Ranked.{RankedServer, SpeedSample}
use vpnmgr.Daemon.Env.{Connection, Env, Sys, Result, ok, err}
use vpnmgr.Daemon.Steps.{
  Steps, Frame, Frame-refl, Frame-trans, bind-Steps, St, Travels, Travels-trans, Frame-Travels,
  Travelling, next-Travelling, framed,
}
use vpnmgr.Daemon.Sweep.{server_list}
use vpnmgr.Daemon.Sweep.Frame.{server_list-Frame}
use vpnmgr.Daemon.Connect.{disconnect}
use vpnmgr.Daemon.Connect.Travel.{disconnect-Travels}
use vpnmgr.Daemon.Select.{measure, settings_for, record_throughput, record_direct}
use vpnmgr.Daemon.Select.Frame.{measure-Frame, record_throughput-Frame, record_direct-Frame}
use vpnmgr.Daemon.Best.{connect}
use vpnmgr.Daemon.Best.Travel.{connect-Travels}
use vpnmgr.Daemon.Report.{servers}
use vpnmgr.Daemon.Speed.{
  note_speed, server_of, speedtest, baseline_report, baseline_through, baseline_from, baseline,
}

module _ {F : Type 0} ⦃fl : Float F⦄ (env : Env F) where
  pub servers-Frame :
      (country : Option Text) (limit : Option ℕ) (all : Bool)
      → Steps {env = env} Frame (servers env country limit all)
  unfolding servers
  servers-Frame country limit all s =
      bind-Steps {env = env} Frame Frame-trans (server_list env) _ (server_list-Frame env)
        (λ list t. Frame-refl t.state) s

  note_speed-Frame : (o : Option Text) (mbps : F) → Steps {env = env} Frame (note_speed env o mbps)
  unfolding note_speed
  note_speed-Frame none mbps = record_direct-Frame env mbps
  note_speed-Frame (some server) mbps = record_throughput-Frame env server mbps

  pub speedtest-Frame : Steps {env = env} Frame (speedtest env)
  unfolding speedtest
  speedtest-Frame s =
      let settings = settings_for s.state.config s.state.config.throughput.bytes in
      bind-Steps {env = env} Frame Frame-trans (measure env settings) _ (measure-Frame env settings)
        (λ sample.
          bind-Steps {env = env} Frame Frame-trans
            (note_speed env (server_of s.state.current) sample.mbps) _
            (note_speed-Frame (server_of s.state.current) sample.mbps) (λ _ t. Frame-refl t.state))
        s

  report-Travels :
      (server : Text) (min_mbps : F) (tunnelled : SpeedSample F) (direct : Outcome (SpeedSample F))
      (s : St env) (r : Result (RankedServer F) × Sys env)
      → Travels s r.1.state
      → Travels s (baseline_report env server min_mbps tunnelled direct r).1.state
  unfolding baseline_report record_direct
  report-Travels server min_mbps tunnelled (failed e) s (r, t) h = h
  report-Travels server min_mbps tunnelled (done direct) s (err e, t) h = h
  report-Travels server min_mbps tunnelled (done direct) s (ok chosen, t) h =
      Travels-trans s t.state _ h (Frame-Travels t.state _ (record_direct-Frame env direct.mbps t))

  baseline_through-Travels : (c : Connection) → Travelling env (baseline_through env c)
  unfolding baseline_through
  baseline_through-Travels c s =
      let settings = settings_for s.state.config s.state.config.throughput.bytes in
      next-Travelling env (measure env settings) _
        (framed env (measure env settings) (measure-Frame env settings))
        (λ tunnelled.
          next-Travelling env (record_throughput env c.server tunnelled.mbps) _
            (framed env (record_throughput env c.server tunnelled.mbps)
              (record_throughput-Frame env c.server tunnelled.mbps))
            (λ _. next-Travelling env (disconnect env) _ (disconnect-Travels env) (λ _ t.
              let t' : Sys env = record t { world = (env.measure settings t.world).1 } in
              report-Travels c.server s.state.config.autotune.min_mbps tunnelled
                (env.measure settings t.world).0 t.state
                (connect env (some c.server) (some false) t')
                (connect-Travels env (some c.server) (some false) t'))))
        s

  baseline_from-Travels : (o : Option Connection) → Travelling env (baseline_from env o)
  unfolding baseline_from
  baseline_from-Travels none = framed env (speedtest env) speedtest-Frame
  baseline_from-Travels (some c) = baseline_through-Travels c

  pub baseline-Travels : Travelling env (baseline env)
  unfolding baseline
  baseline-Travels s = baseline_from-Travels s.state.current s
