-- ===== src/Daemon/Tests.antt =====
-- Runs of vpnmgrd in a world that is a clock.
use vpnmgr.Common.{
  ℕ, ◌+◌, ◌≤◌, ◌≡◌, ◌≢◌, refl, Bool, true, false, Option, none, some, [], ◌∷◌, All, arith,
}
use vpnmgr.Common.Text.{Text, text}
use vpnmgr.Common.Float.{Fixed, fixed}
use vpnmgr.Core.Net.{SocketAddr, v4}
use vpnmgr.Core.Config.{ask, auto, ClientConfig, key}
use vpnmgr.Core.Tests.{fleet, settings}
use vpnmgr.Probe.Tests.{handshake, sleep}
use vpnmgr.Tunnel.Tests.{machine}
use vpnmgr.Tunnel.Spec.Interface.{done, Backend}
use vpnmgr.Daemon.Ranked.{RankedServer}
use vpnmgr.Daemon.Tuner.{current_went_silent, propose, decide}
use vpnmgr.Daemon.Env.{Connection, Env, Sys, ok}
use vpnmgr.Daemon.Steps.{IfOk}
use vpnmgr.Daemon.Sweep.{sweep, only_country, server_list}
use vpnmgr.Daemon.Sweep.Allowed.{Allowed, sweep-Yields}
use vpnmgr.Daemon.Sweep.Cache.{Served, server_list-Served}
use vpnmgr.Daemon.Connect.{establish, move_to}
use vpnmgr.Daemon.Connect.Moves.{Arrived, establish-Arrived, move_to-Arrived}
use vpnmgr.Daemon.Select.{measure_line, wait_until_carrying}
use vpnmgr.Daemon.Select.Tries.{OnlyTo}
use vpnmgr.Daemon.Select.Wait.{IsAnswer, wait_until_carrying_lem}
use vpnmgr.Daemon.Best.{connect_best, try_all, settle}
use vpnmgr.Daemon.Best.Reported.{ReportedOn, try_all-ReportedOn}
use vpnmgr.Daemon.Best.Chosen.{Swept, connect_best-OnlyTo}
use vpnmgr.Daemon.Tune.{autotune, assess}
use vpnmgr.Daemon.Answer.{dismiss}
use vpnmgr.Daemon.Tune.Policy.{autotune-still}
use vpnmgr.Daemon.Answer.Dismissed.{dismiss-decide}
use vpnmgr.Daemon.Tune.Offered.{Sound}
use vpnmgr.Daemon.Handle.{Request, handle}
use vpnmgr.Daemon.Handle.Reached.{start, request}
use vpnmgr.Core.Config.{load_client_config}
use vpnmgr.Daemon.Load.{load, with_config, with_client, fresh, load-Reached-Sound}

-- A tunnel is its endpoint, and its last handshake is always just now.
abbrev backend : Backend ℕ
backend = record {
  Tunnel = Option SocketAddr;
  open_tunnel = λ interface w. (done none, w);
  with_bypass = λ routes t. t;
  with_killswitch = λ k t. t;
  up = λ spec t w. (done tt, some spec.endpoint, w + 1);
  switch_endpoint = λ spec t w. (done tt, some spec.endpoint, w + 1);
  down = λ t w. (done tt, none, w);
  status = λ t w. done (record {
    interface = text "vpnmgr0";
    up = true;
    endpoint = t;
    last_handshake = some w;
    tx_bytes = 0;
    rx_bytes = 0;
    listen_port = 1;
    fwmark = some 51820;
  });
  close = λ t w. w;
}

abbrev pub env : Env Fixed
env = record {
  World = ℕ;
  backend = backend;
  now = λ w. w;
  wall = λ w. w;
  sleep = sleep;
  open_client = λ w. done tt;
  fetch = λ w. (done fleet, w + 1);
  load = λ path w. done (settings ask);
  read_key = λ w path. key (1 ∷ []);
  handshake = handshake;
  measure = λ s w.
      (done (record { mbps = 100_000; bytes = s.bytes; elapsed_ms = 1; truncated = false }), w + 1);
  machine = λ w. machine;
  engage = λ k w. (done tt, w);
  release = λ w. (done tt, w);
  is_engaged = λ w. false;
  dropped = λ w. none;
}

abbrev client : ClientConfig
client = record {
  private_key = 1 ∷ [];
  addresses = [];
  dns = [];
  search_domains = [];
  mtu = none;
  peer_public_key = 7 ∷ [];
  preshared_key = none;
  allowed_ips = [];
  persistent_keepalive = none;
}

abbrev pub at_beta : Connection
at_beta = record {
  server = text "Beta";
  location = text "town";
  country_code = text "us";
  endpoint = record { ip = v4 20; port = 1637 };
  entry = 1;
}

abbrev pub to_alpha : RankedServer Fixed
to_alpha = record {
  name = text "Alpha";
  country_code = text "nl";
  country_name = text "nl";
  location = text "town";
  load = 20;
  rtt_ms = 10_000;
  score = 900;
  entry = 1;
  endpoint = record { ip = v4 10; port = 1637 };
  mbps = none;
  mbps_age_secs = none;
  headroom_mbps = 800;
}

abbrev pub idle : Sys env
idle = record {
  state = record {
    config = settings ask;
    config_path = text "config.toml";
    client = client;
    servers = none;
    tunnel = none;
    current = none;
    last_sweep = none;
    last_ranking = [];
    pending = none;
    dismissed = none;
    throughput_seen = [];
    direct_mbps = none;
    last_tune = none;
    last_tune_at = none;
  };
  world = 1000;
}

abbrev proposal : RankedServer Fixed × Text × ℕ
proposal = (to_alpha, text "degraded", 900)

abbrev pub offered : Sys env
offered = record idle {
  state = record idle.state {
    tunnel = some (some at_beta.endpoint);
    current = some at_beta;
    pending = some proposal;
  };
}

ask-auto : ask ≢ auto
ask-auto e = absurd (ground arith)

sleeps : (d w : ℕ) → w + d ≤ sleep d w
sleeps d w = omega arith

-- The daemon as it starts with these settings, at the time 1000.
abbrev started : Sys env
started = record idle {
  state = record idle.state {
    client = record {
      private_key = 1 ∷ [];
      addresses = (settings ask).provider.address;
      dns = (settings ask).provider.dns;
      search_domains = (settings ask).provider.search_domains;
      mtu = (settings ask).provider.mtu;
      peer_public_key = (settings ask).provider.peer_public_key;
      preshared_key = none;
      allowed_ips = (settings ask).provider.allowed_ips;
      persistent_keepalive = (settings ask).provider.persistent_keepalive;
    };
  };
}

load-Reached-Sound_example :
    Sound (handle env (Request.connect none none) (handle env Request.autotune started).1).1.state
unfolding load with_config with_client fresh load_client_config
load-Reached-Sound_example =
    load-Reached-Sound env (text "config.toml") 1000 started.state
      (handle env (Request.connect none none) (handle env Request.autotune started).1).1 refl
      (request (Request.connect none none) (request Request.autotune start))

sweep-Yields_example :
    IfOk
      (All (Allowed (only_country (some (text "nl")) idle.state.config.filters)))
      (sweep env (some (text "nl")) idle).0
sweep-Yields_example = sweep-Yields env (some (text "nl")) idle

connect_best-OnlyTo_example :
    OnlyTo
      (Swept env idle.state.config.filters (measure_line env true idle).1)
      idle.state
      (connect_best env (some true) idle).1.state
connect_best-OnlyTo_example = connect_best-OnlyTo env (some true) idle

autotune-still_example :
    let t = (autotune env offered).1.state in
    (t.config ≡ offered.state.config)
    × (t.current ≡ some at_beta)
    × (t.tunnel ≡ offered.state.tunnel)
    × (t.dismissed ≡ none)
autotune-still_example = autotune-still env offered ask-auto

dismiss-decide_example :
    let t = (dismiss env offered).1.state in
    decide (assess env 2000 t at_beta (some 200_000) (to_alpha ∷ [])) t.config.autotune
    ≢ propose to_alpha current_went_silent
dismiss-decide_example =
    dismiss-decide env offered at_beta proposal refl refl 2000 200_000 (to_alpha ∷ []) to_alpha
      current_went_silent refl

establish-Arrived_example :
    Arrived to_alpha idle.state
      (establish env to_alpha idle).0
      (establish env to_alpha idle).1.state
establish-Arrived_example = establish-Arrived env to_alpha idle

move_to-Arrived_example :
    Arrived to_alpha offered.state
      (move_to env to_alpha offered).0
      (move_to env to_alpha offered).1.state
move_to-Arrived_example = move_to-Arrived env to_alpha offered

wait_until_carrying_example :
    (answer : Bool) × ((wait_until_carrying env 5 100 offered).0 ≡ ok answer)
    × IsAnswer env 5 1100 offered.state.tunnel answer
        (wait_until_carrying env 5 100 offered).1.world
wait_until_carrying_example = wait_until_carrying_lem env sleeps 5 100 offered

server_list-Served_example : Served env idle none (server_list env idle)
server_list-Served_example = server_list-Served env idle

try_all-ReportedOn_example :
    let r = try_all env 500_000 true (to_alpha ∷ []) none idle in
    IfOk
      (λ tried.
        ReportedOn tried
          (settle env to_alpha tried r.1).0
          (settle env to_alpha tried r.1).1.state.current)
      r.0
try_all-ReportedOn_example = try_all-ReportedOn env 500_000 (to_alpha ∷ []) to_alpha idle
