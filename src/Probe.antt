-- ===== src/Probe.antt =====
-- crates/vpnmgr-probe/src/lib.rs: timing handshakes, and the best timing of each server. A handshake
-- itself is boringtun's and the network's; its result is an argument.
pub mod Sweep
pub mod Median
pub mod Tests
use vpnmgr.Common.{
  ℕ, zero, suc, ◌+◌, ◌-◌, ◌*◌, ◌/◌, ◌^◌, Bool, true, false, Option, none, some, List, [], ◌∷◌, ◌++◌,
  if◌then◌else◌, is_empty, length, get_elem?, leb, is_some_and,
}
use vpnmgr.Common.Text.{Text}
use vpnmgr.Common.Sorting.{sort_by}
use vpnmgr.Core.Net.{SocketAddr, endpoint_eq}
use vpnmgr.Core.Config.{ClientConfig, Probe}

pub data Outcome : Type 0 where
  reachable rate_limited unreachable : Outcome
  rejected failed : Text → Outcome
  skipped_connected : Outcome

unfoldable pub is_usable : Outcome → Bool
is_usable reachable = true
is_usable rate_limited = true
is_usable _ = false

-- What `one_handshake` returns.
pub data Attempt : Type 0 where
  answered : ℕ → Outcome → Attempt
  gave_up : Outcome → Attempt

pub record ProbeResult : Type 0 where
  pub endpoint : SocketAddr
  pub rtt : Option ℕ
  pub samples : List ℕ
  pub outcome : Outcome

pub record Prober : Type 0 where
  pub private_key : List ℕ
  pub peer_public_key : List ℕ
  pub preshared_key : Option (List ℕ)
  pub settings : Probe
  pub fwmark : Option ℕ
  pub excluded : Option SocketAddr

abbrev pub prober_for : ClientConfig → Probe → Prober
prober_for client settings = record {
  private_key = client.private_key;
  peer_public_key = client.peer_public_key;
  preshared_key = client.preshared_key;
  settings = settings;
  fwmark = none;
  excluded = none;
}

abbrev pub with_fwmark : ℕ → Prober → Prober
with_fwmark mark p = record p { fwmark = some mark }

abbrev pub excluding : SocketAddr → Prober → Prober
excluding endpoint p = record p { excluded = some endpoint }

-- The lower middle of the sorted samples.
unfoldable pub median : List ℕ → Option ℕ
median samples = get_elem? (sort_by leb samples) ((length samples - 1) / 2)

-- 120 milliseconds.
abbrev sample_gap : ℕ
sample_gap = 120 * 10 ^ 6

-- The samples and the outcome so far. A clean handshake is not downgraded by a later answer, nor an
-- answer by a later failure.
pub record Gathered : Type 0 where
  pub samples : List ℕ
  pub outcome : Outcome

is_reachable : Outcome → Bool
is_reachable reachable = true
is_reachable _ = false

unfoldable pub gather : Gathered → Attempt → Gathered
unfolding is_reachable
gather g (answered rtt o) = record {
  samples = g.samples ++ rtt ∷ [];
  outcome = if is_reachable g.outcome then g.outcome else o;
}
gather g (gave_up o) = record g { outcome = if is_empty g.samples then o else g.outcome }

module _ {World : Type 0} (sleep : ℕ → World → World)
    (handshake : Prober → SocketAddr → World → Attempt × World) where
  -- `n` more samples; there is a pause in front of each but the first.
  sample_loop : ℕ → Bool → Prober → SocketAddr → Gathered → World → Gathered × World
  sample_loop zero is_first p endpoint g w = (g, w)
  sample_loop (suc n) is_first p endpoint g w =
      let (attempt, w') = handshake p endpoint (if is_first then w else sleep sample_gap w) in
      sample_loop n false p endpoint (gather g attempt) w'

  skipped : SocketAddr → ProbeResult
  skipped endpoint = record {
    endpoint = endpoint;
    rtt = none;
    samples = [];
    outcome = skipped_connected;
  }

  unfoldable pub probe : Prober → SocketAddr → World → ProbeResult × World
  unfolding sample_loop skipped median
  probe p endpoint w =
      if is_some_and (λ e. endpoint_eq e endpoint) p.excluded
      then (skipped endpoint, w)
      else let (g, w') =
          sample_loop p.settings.samples true p endpoint
            (record { samples = []; outcome = unreachable }) w in
        (
          record {
            endpoint = endpoint;
            rtt = median g.samples;
            samples = g.samples;
            outcome = g.outcome;
          },
          w',
        )

  -- `probe_many` runs its probes side by side and returns the results in the order of the endpoints;
  -- here one runs after the other.
  unfoldable pub probe_many : Prober → List SocketAddr → World → List ProbeResult × World
  probe_many p [] w = ([], w)
  probe_many p (e ∷ es) w =
      let (r, w') = probe p e w in let (rs, w'') = probe_many p es w' in (r ∷ rs, w'')
