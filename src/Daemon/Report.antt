-- ===== src/Daemon/Report.antt =====
-- What the daemon tells its clients: `status`, `servers` and `last_ranking` of
-- crates/vpnmgrd/src/state.rs.
pub mod Listed
use vpnmgr.Common.{
  ℕ, ◌*◌, ◌/◌, Bool, true, false, ◌&&◌, ◌||◌, Option, none, some, is_none_or, is_some, ◌≡◌, refl,
  List, map, take, ltb, ◌==◌, if◌then◌else◌, retain,
}
use vpnmgr.Common.Text.{Text, text_le, trim, lowercase, eq_ignore_case}
use vpnmgr.Common.Float.{Float}
use vpnmgr.Common.Sorting.{sort_by}
use vpnmgr.Core.Airvpn.{Server, ServerList, is_healthy, headroom_mbps}
use vpnmgr.Core.Config.{Filters}
use vpnmgr.Core.Config.Targets.{second}
use vpnmgr.Core.Filter.{Ruleset, ruleset_of, accepts}
use vpnmgr.Tunnel.Spec.{TunnelStatus, default_interface, default_fwmark}
use vpnmgr.Tunnel.Spec
use vpnmgr.Tunnel.Spec.Interface.{Outcome, done, failed}
use vpnmgr.Daemon.Ranked.{RankedServer, SweepSummary, StatusReport, ServerSummary}
use vpnmgr.Daemon.Env.{Connection, State, Env, M, seen_at, ◌>>=◌, give, get}
use vpnmgr.Daemon.Sweep.{server_list, direct_rate, elapsed_secs, age_of, only_country}
use vpnmgr.Daemon.Tune.{pending_switch, time_until_next_tune}

-- Three minutes.
abbrev pub max_handshake_age : ℕ
max_handshake_age = 180 * second

-- A sweep's summary with its age at the time given.
aged : {F : Type 0} → ℕ → Option (SweepSummary F × ℕ) → Option (SweepSummary F)
aged now none = none
aged now (some (summary, at)) = some (record summary { age_secs = elapsed_secs now at })

-- A handshake in the future has no age.
handshake_age : ℕ → Option ℕ → Option ℕ
handshake_age wall none = none
handshake_age wall (some at) = if ltb wall at then none else some (elapsed_secs wall at)

or_else : {A : Type 0} → Option A → Option A → Option A
or_else none b = b
or_else (some a) b = some a

live_status : Outcome TunnelStatus → Option TunnelStatus
live_status (done s) = some s
live_status (failed e) = none

up_to : {A : Type 0} → Option ℕ → List A → List A
up_to none xs = xs
up_to (some n) xs = take n xs

module _ {F : Type 0} where
  -- What the tunnel reports, where it answers.
  report_live : ℕ → TunnelStatus → StatusReport F → StatusReport F
  unfolding handshake_age or_else
  report_live wall live r = record r {
    endpoint = or_else live.endpoint r.endpoint;
    last_handshake_secs = handshake_age wall live.last_handshake;
    healthy = Spec.is_healthy live wall max_handshake_age;
    tx_bytes = live.tx_bytes;
    rx_bytes = live.rx_bytes;
  }

  with_live : ℕ → Option TunnelStatus → StatusReport F → StatusReport F
  unfolding report_live
  with_live wall none r = r
  with_live wall (some live) r = report_live wall live r

  current_rate : ℕ → Option (F × ℕ) → RankedServer F → RankedServer F
  current_rate now none r = r
  current_rate now (some (mbps, at)) r = record r {
    mbps = some mbps;
    mbps_age_secs = some (elapsed_secs now at);
  }

module _ {F T : Type 0} where
  -- The report with no connection.
  report_down : ℕ → State F T → StatusReport F
  unfolding aged
  report_down now s = record {
    connected = false;
    interface = default_interface;
    server = none;
    location = none;
    country_code = none;
    endpoint = none;
    entry = none;
    last_handshake_secs = none;
    healthy = false;
    tx_bytes = 0;
    rx_bytes = 0;
    last_sweep = aged now s.last_sweep;
    pending_switch = pending_switch now s;
    last_tune = s.last_tune;
    next_tune_secs = some (time_until_next_tune now s / second);
    config_path = some s.config_path;
    baseline_mbps = direct_rate s;
    baseline_age_secs = age_of now s.direct_mbps;
  }

  report_up : ℕ → State F T → Connection → StatusReport F
  unfolding report_down
  report_up now s c = record (report_down now s) {
    connected = true;
    server = some c.server;
    location = some c.location;
    country_code = some c.country_code;
    endpoint = some c.endpoint;
    entry = some c.entry;
  }

  -- The ages of the figures are relative to now.
  unfoldable pub last_ranking : ℕ → Option ℕ → State F T → List (RankedServer F)
  unfolding current_rate up_to
  last_ranking now limit s =
      up_to limit (map (λ r. current_rate now (seen_at r.name s.throughput_seen) r) s.last_ranking)

module _ {F : Type 0} (env : Env F) where
  tunnel_status : Option env.backend.Tunnel → env.World → Option TunnelStatus
  unfolding live_status
  tunnel_status none w = none
  tunnel_status (some t) w = live_status (env.backend.status t w)

  status_of : Option Connection → State F env.backend.Tunnel → env.World → StatusReport F
  unfolding report_down report_up with_live tunnel_status
  status_of none s w = report_down (env.now w) s
  status_of (some c) s w =
      with_live (env.wall w) (tunnel_status s.tunnel w) (report_up (env.now w) s c)

  unfoldable pub status : State F env.backend.Tunnel → env.World → StatusReport F
  unfolding status_of
  status s w = status_of s.current s w

module _ {F : Type 0} where
  with_live-connected :
      (wall : ℕ) (o : Option TunnelStatus) (r : StatusReport F)
      → (with_live wall o r).connected ≡ r.connected
  unfolding with_live report_live
  with_live-connected wall none r = refl
  with_live-connected wall (some live) r = refl

  status_of-connected :
      (env : Env F) (o : Option Connection) (s : State F env.backend.Tunnel) (w : env.World)
      → (status_of env o s w).connected ≡ is_some o
  unfolding status_of report_down report_up
  status_of-connected env none s w = refl
  status_of-connected env (some c) s w =
      with_live-connected (env.wall w) (tunnel_status env s.tunnel w) (report_up (env.now w) s c)

  -- The report calls the daemon connected exactly if there is a connection.
  pub status-connected :
      (env : Env F) (s : State F env.backend.Tunnel) (w : env.World)
      → (status env s w).connected ≡ is_some s.current
  unfolding status
  status-connected env s w = status_of-connected env s.current s w

-- The filters under a country asked for, which stands trimmed and in lower case.
pub wanted_country : Option Text → Option Text
wanted_country none = none
wanted_country (some c) = some (lowercase (trim c))

server_summary : Server → ServerSummary
server_summary s = record {
  name = s.name;
  country_code = s.country_code;
  country_name = s.country_name;
  location = s.location;
  load = s.load;
  users = s.users;
  healthy = is_healthy s;
  headroom_mbps = headroom_mbps s;
}

-- What a listing shows: the country's servers, or the healthy ones that the rules accept.
unfoldable pub is_listed : Bool → Option Text → Ruleset → Server → Bool
is_listed true wanted rules s = is_none_or (λ c. eq_ignore_case s.country_code c) wanted
is_listed false wanted rules s = is_healthy s && accepts rules s.name s.country_code s.load

-- The least loaded first, then by name.
unfoldable pub load_le : ServerSummary → ServerSummary → Bool
load_le a b = ltb a.load b.load || (a.load == b.load && text_le a.name b.name)

unfoldable pub listing : Filters → Option Text → Bool → ServerList → List ServerSummary
unfolding wanted_country server_summary is_listed load_le
listing filters country all list =
    let wanted = wanted_country country in
    let rules = ruleset_of (only_country wanted filters) in
    sort_by load_le (map server_summary (retain (is_listed all wanted rules) list.servers))

module _ {F : Type 0} ⦃fl : Float F⦄ (env : Env F) where
  unfoldable pub servers : Option Text → Option ℕ → Bool → M env (List ServerSummary)
  unfolding listing up_to
  servers country limit all = do
    s ← get
    list ← server_list env
    give (up_to limit (listing s.config.filters country all list))
