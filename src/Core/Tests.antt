-- ===== src/Core/Tests.antt =====
-- Runs of vpnmgr-core on a small fleet.
use mathlib.Core.List.{Perm}
use vpnmgr.Common.{
  InOrder, is_some, ℕ, ◌≡◌, ◌↔◌, refl, true, Option, none, some, List, [], ◌∷◌, ◌++◌, map, retain,
  All, ◌+◌, leb, arith,
}
use vpnmgr.Common.Text.{Text, text}
use vpnmgr.Common.Float.{Fixed, fixed, Fixed-IsOrdered}
use vpnmgr.Core.Net.{v4}
use vpnmgr.Core.Airvpn.{Health, Server, ServerList}
use vpnmgr.Core.Config.{
  Filters, Config, Weights, SwitchPolicy, ask, default_probe, default_killswitch, default_bypass,
  default_throughput, AirvpnProvider, Autotune,
}
use vpnmgr.Core.Config.Validate.{validate}
use vpnmgr.Core.Config.Validate.Usable.{Usable, validate-Usable}
use vpnmgr.Core.Filter.{ruleset_of, accepts, judge, apply, reason_of, rejection_summary}
use vpnmgr.Core.Filter.Eligible.{Eligible, Explains, accepts-Eligible, judge-Explains}
use vpnmgr.Core.Filter.Partition.{passes, apply-perm}
use vpnmgr.Core.Filter.Summary.{tally, rejected_with, Whole, Before, rejection_summary_lem}
use vpnmgr.Core.Score.{
  Scoring, Measured, Timed, reachable, rank, score_all, score_one, fastest, fastest_from,
}
use vpnmgr.Core.Score.Order.{rank-perm, rank-InOrder, Outranks, measurement}
use vpnmgr.Core.Score.Bounds.{InUnit, score_one-InUnit}
use vpnmgr.Core.Score.Outlier.{score_all-outlier}

abbrev pub server_named : Text → Text → ℕ → ℕ → Server
server_named name country load address = record {
  name = name;
  country_name = country;
  country_code = country;
  location = text "town";
  continent = text "eu";
  bw = 200;
  bw_max = 1000;
  users = 10;
  load = load;
  health = Health.healthy;
  warning = none;
  wg_ipv4 = address;
  wg_ipv4_alt = some (address + 1);
  wg_ipv6 = none;
}

abbrev pub alpha : Server
alpha = server_named (text "Alpha") (text "nl") 20 10

abbrev pub beta : Server
beta = server_named (text "Beta") (text "us") 40 20

abbrev pub fleet : ServerList
fleet = record { servers = alpha ∷ beta ∷ []; result = some (text "ok") }

abbrev pub no_us : Filters
no_us = record {
  country_whitelist = [];
  country_blacklist = text " US " ∷ [];
  server_whitelist = [];
  server_blacklist = [];
  max_load = 85;
}

abbrev pub weights : Weights Fixed
weights = record { rtt = 600; load = 100; headroom = 300 }

abbrev pub tuning : SwitchPolicy → Autotune Fixed
tuning policy = record {
  interval_minutes = 30;
  max_latency_ms = 80;
  min_mbps = 50_000;
  accept_fraction = 600;
  measure_before_connect = true;
  target_mbps = none;
  headroom_margin = 2000;
  verify_candidates = 5;
  switch_policy = policy;
  improvement_threshold = 250;
  weights = weights;
}

abbrev pub provider : AirvpnProvider
provider = record {
  private_key_file = text "key";
  preshared_key_file = none;
  address = record { addr = v4 42; prefix = 32 } ∷ [];
  dns = v4 1 ∷ [];
  search_domains = [];
  peer_public_key = 7 ∷ [];
  port = 1637;
  mtu = none;
  persistent_keepalive = none;
  allowed_ips = [];
}

abbrev pub settings : SwitchPolicy → Config Fixed
settings policy = record {
  provider = provider;
  filters = no_us;
  autotune = tuning policy;
  probe = default_probe;
  killswitch = default_killswitch;
  throughput = default_throughput;
  bypass = default_bypass;
}

abbrev scoring : Scoring Fixed
scoring = record { weights = weights; headroom_target_mbps = 500_000 }

abbrev pub timed : Server → ℕ → Timed
timed s rtt = record {
  server = s;
  endpoint = record { ip = v4 s.wg_ipv4; port = 1637 };
  entry = 1;
  rtt = rtt;
}

abbrev pub measured : Server → Option ℕ → Measured
measured s rtt = record {
  server = s;
  endpoint = record { ip = v4 s.wg_ipv4; port = 1637 };
  entry = 1;
  rtt = rtt;
}

abbrev sweep_result : List Measured
sweep_result = measured alpha (some 20_000_000) ∷ measured beta none ∷ []

accepts-Eligible_example :
    (accepts (ruleset_of no_us) (text "Beta") (text "us") 40 ≡ true)
    ↔ Eligible no_us (text "Beta") (text "us") 40
accepts-Eligible_example = accepts-Eligible no_us (text "Beta") (text "us") 40

judge-Explains_example :
    Explains no_us
      (text "Beta")
      (text "us")
      40
      (judge (ruleset_of no_us) (text "Beta") (text "us") 40)
judge-Explains_example = judge-Explains no_us (text "Beta") (text "us") 40

apply-perm_example :
    Perm ((apply fleet no_us).accepted ++ map (λ p. p.0) (apply fleet no_us).rejected) fleet.servers
    × ((apply fleet no_us).accepted ≡ retain (passes (ruleset_of no_us)) fleet.servers)
    × All (λ p. reason_of (ruleset_of no_us) p.0 ≡ some p.1) (apply fleet no_us).rejected
apply-perm_example = apply-perm fleet no_us

rejection_summary_example :
    let rejected = (apply fleet no_us).rejected in
    (tally (text "country blacklisted") (rejection_summary (apply fleet no_us))
      ≡ rejected_with (text "country blacklisted") rejected)
    × All (Whole (λ j. rejected_with j rejected)) (rejection_summary (apply fleet no_us))
    × InOrder Before (rejection_summary (apply fleet no_us))
rejection_summary_example = rejection_summary_lem (apply fleet no_us) (text "country blacklisted")

rank-perm_example :
    Perm
      (map measurement (map (λ s. s.timed) (rank sweep_result scoring)))
      (retain (λ m. is_some m.rtt) sweep_result)
rank-perm_example = rank-perm sweep_result scoring

leb_refl : (n : ℕ) → leb n n ≡ true
leb_refl n = ground arith

rank-InOrder_example : InOrder Outranks (rank sweep_result scoring)
unfolding score_all reachable
rank-InOrder_example = rank-InOrder Fixed-IsOrdered sweep_result scoring (leb_refl _, tt)

score_all-outlier_example :
    score_all scoring (timed alpha 20_000_000 ∷ timed beta 30_000_000 ∷ [])
    ≡ score_all scoring (timed alpha 20_000_000 ∷ [])
      ++ score_one scoring (fastest (timed alpha 20_000_000 ∷ [])) (timed beta 30_000_000) ∷ []
unfolding fastest_from
score_all-outlier_example =
    score_all-outlier Fixed-IsOrdered scoring (timed alpha 20_000_000 ∷ []) (timed beta 30_000_000)
      refl

validate-Usable_example : (validate (settings ask) ≡ none) ↔ Usable (settings ask)
validate-Usable_example = validate-Usable (settings ask)

score_one-InUnit_example :
    InUnit (score_one scoring 10_000_000 (timed beta 30_000_000)).rtt_score
    × InUnit (score_one scoring 10_000_000 (timed beta 30_000_000)).headroom_score
score_one-InUnit_example =
    score_one-InUnit Fixed-IsOrdered refl scoring 10_000_000 (timed beta 30_000_000)
