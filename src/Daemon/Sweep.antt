-- ===== src/Daemon/Sweep.antt =====
-- Fetching, filtering, probing and ranking: `server_list`, `sweep`, `probe_named`, `prober` of
-- crates/vpnmgrd/src/state.rs.
pub mod Frame
pub mod Cache
pub mod Allowed
use vpnmgr.Common.{
  ℕ, ◌-◌, ◌*◌, ◌/◌, ◌+◌, ◌^◌, Bool, true, false, not, Option, none, some, is_some, is_none_or, List,
  [], ◌∷◌, ◌++◌, map, length, ltb, ◌==◌, if◌then◌else◌, is_empty, first, find, filter_map,
}
use vpnmgr.Common.Text.{Text, text, print_nat, text_eq}
use vpnmgr.Common.Scan.{join}
use vpnmgr.Common.Float.{Float, ◌*f◌}
use vpnmgr.Core.Net.{SocketAddr}
use vpnmgr.Core.Airvpn.{Server, ServerList, wg_entries, headroom_mbps}
use vpnmgr.Core.Airvpn
use vpnmgr.Core.Config.{Filters, Config}
use vpnmgr.Core.Config.Targets.{second, headroom_target_mbps}
use vpnmgr.Core.Filter.{Selection, apply, rejection_summary}
use vpnmgr.Core.Score.{Scoring, Scored, Measured, rank, reachable}
use vpnmgr.Probe.{Prober, prober_for, with_fwmark, excluding}
use vpnmgr.Probe.Sweep
use vpnmgr.Tunnel.Spec.{default_fwmark}
use vpnmgr.Tunnel.Spec.Interface.{Outcome, done, failed}
use vpnmgr.Daemon.Ranked.{RankedServer, SweepSummary}
use vpnmgr.Daemon.Env.{
  Connection, State, Error, core, all_unreachable, no_candidates, unknown_server,
  server_unreachable, Env, Sys, M, Result, ok, err, seen_at, ◌>>=◌, ◌>>◌, give, fail, get, put,
  observe, run, lift, guard,
}

-- Five minutes.
abbrev pub server_cache_ttl : ℕ
server_cache_ttl = 300 * second

-- A recorded rate without its time, and the time's age in whole seconds.
abbrev pub rate_of : {F : Type 0} → Option (F × ℕ) → Option F
rate_of none = none
rate_of (some (mbps, at)) = some mbps

abbrev pub elapsed_secs : ℕ → ℕ → ℕ
elapsed_secs now at = (now - at) / second

abbrev pub age_of : {F : Type 0} → ℕ → Option (F × ℕ) → Option ℕ
age_of now none = none
age_of now (some (mbps, at)) = some (elapsed_secs now at)

prober_on : Option Connection → Prober → Prober
prober_on none p = p
prober_on (some c) p = excluding c.endpoint (with_fwmark default_fwmark p)

module _ {F T : Type 0} where
  -- `State::direct_mbps`.
  unfoldable pub direct_rate : State F T → Option F
  direct_rate s = rate_of s.direct_mbps

module _ {F T : Type 0} ⦃fl : Float F⦄ where
  unfoldable pub scoring : State F T → Scoring F
  unfolding direct_rate
  scoring s = record {
    weights = s.config.autotune.weights;
    headroom_target_mbps = headroom_target_mbps s.config.autotune (direct_rate s);
  }

  -- While connected, probes carry the tunnel's mark and leave the connected endpoint alone.
  unfoldable pub prober : State F T → Prober
  unfolding prober_on
  prober s = prober_on s.current (prober_for s.client s.config.probe)

  -- A scored server with the throughput recorded for it.
  unfoldable pub to_ranked : State F T → ℕ → Scored F → RankedServer F
  to_ranked s now r =
      let seen = seen_at r.timed.server.name s.throughput_seen in
      record {
        name = r.timed.server.name;
        country_code = r.timed.server.country_code;
        country_name = r.timed.server.country_name;
        location = r.timed.server.location;
        load = r.timed.server.load;
        rtt_ms = fl.secs r.timed.rtt *f fl.decimal 1000 0;
        score = r.score;
        entry = r.timed.entry;
        endpoint = r.timed.endpoint;
        mbps = rate_of seen;
        mbps_age_secs = age_of now seen;
        headroom_mbps = headroom_mbps r.timed.server;
      }

abbrev pub only_country : Option Text → Filters → Filters
only_country none f = f
only_country (some country) f = record f { country_whitelist = country ∷ [] }

summary_text : Selection → Text
summary_text selection =
    join (text ", ") (map (λ e. print_nat e.1 ++ (text " " ++ e.0)) (rejection_summary selection))

module _ {F : Type 0} ⦃fl : Float F⦄ (env : Env F) where
  -- The list to go on with after a fetch: the new one, or the cached one where the fetch failed.
  abbrev after_fetch : State F env.backend.Tunnel → ℕ → Outcome ServerList → M env ServerList
  after_fetch s now (done list) = put (record s { servers = some (list, now) }) >> give list
  after_fetch s now (failed e) = elim s.servers [
    | none ↦ fail (core e)
    | some (list, at) ↦ give list
  ]

  fetch_list : M env ServerList
  fetch_list = do fetched ← run env.fetch; now ← observe env.now; s ← get; after_fetch s now fetched

  -- Without a client there is no fetch, and a cached list does not serve.
  refresh_with : Outcome (Unit {0}) → M env ServerList
  unfolding fetch_list
  refresh_with (failed e) = fail (core e)
  refresh_with (done _) = fetch_list

  refresh : M env ServerList
  unfolding refresh_with
  refresh = do client ← observe env.open_client; refresh_with client

  cached_or_refresh : ℕ → Option (ServerList × ℕ) → M env ServerList
  unfolding refresh
  cached_or_refresh now none = refresh
  cached_or_refresh now (some (list, at)) =
      if ltb server_cache_ttl (now - at) then refresh else give list

  unfoldable pub server_list : M env ServerList
  unfolding cached_or_refresh
  server_list = do s ← get; now ← observe env.now; cached_or_refresh now s.servers

  -- The sweep of vpnmgr-probe.
  unfoldable pub measure_all : Prober → List Server → ℕ → M env (List Measured)
  measure_all p servers port = run (Sweep.sweep env.sleep env.handshake p servers wg_entries port)

  -- The results of a sweep go into the state also where nothing answered.
  unfoldable pub record_sweep : ℕ → ℕ → List Measured → Scoring F → M env (List (RankedServer F))
  record_sweep started finished measured scores = do
    s ← get
    let ranking = map (to_ranked s finished) (rank measured scores)
    let answered = length (reachable measured)
    let summary : SweepSummary F = record {
      probed = length measured;
      reachable = answered;
      elapsed_ms = (finished - started) / 10 ^ 6;
      age_secs = 0;
      best = first ranking;
      all_unreachable = answered == 0;
    }
    put (record s { last_sweep = some (summary, finished) })
    guard (not (answered == 0)) (all_unreachable (length measured))
    s' ← get
    put (record s' { last_ranking = ranking })
    give ranking

  unfoldable pub sweep : Option Text → M env (List (RankedServer F))
  unfolding summary_text
  sweep country = do
    s ← get
    list ← server_list
    let selection = apply list (only_country country s.config.filters)
    guard (not (is_empty selection.accepted)) (no_candidates (summary_text selection))
    started ← observe env.now
    measured ← measure_all (prober s) selection.accepted s.config.provider.port
    finished ← observe env.now
    record_sweep started finished measured (scoring s)

  found : Text → Option Server → M env Server
  found name none = fail (unknown_server name)
  found name (some s) = give s

  answered : Text → Option (Scored F) → M env (Scored F)
  answered name none = fail (server_unreachable name)
  answered name (some r) = give r

  -- Both entries of one server, and the faster.
  unfoldable pub probe_named : Text → M env (RankedServer F)
  unfolding found answered
  probe_named name = do
    s ← get
    list ← server_list
    server ← found name (Airvpn.get list name)
    measured ← measure_all (prober s) (server ∷ []) s.config.provider.port
    chosen ← answered name (first (rank measured (scoring s)))
    now ← observe env.now
    s' ← get
    give (to_ranked s' now chosen)
