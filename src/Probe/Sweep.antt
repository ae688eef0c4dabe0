-- ===== src/Probe/Sweep.antt =====
-- `sweep` of crates/vpnmgr-probe/src/lib.rs: one measurement for each server, by its faster entry.
pub mod Servers
use vpnmgr.Common.{
  ℕ, zero, suc, ◌+◌, ◌≡◌, refl, ap, ◌∙◌, Bool, true, false, ◌&&◌, not, Option, none, some, List, [],
  ◌∷◌, ◌++◌, map, if◌then◌else◌, leb, length, first, get_elem?, arith,
}
use vpnmgr.Core.Net.{SocketAddr}
use vpnmgr.Core.Airvpn.{Server, wg_endpoint, wg_endpoints}
use vpnmgr.Core.Score.{Measured}
use vpnmgr.Probe.{Attempt, Outcome, is_usable, Prober, ProbeResult, probe_many}

pub record Owned : Type 0 where
  pub index : ℕ
  pub entry : ℕ
  pub endpoint : SocketAddr

pub record Timing : Type 0 where
  pub entry : ℕ
  pub endpoint : SocketAddr
  pub rtt : ℕ

owned_by : ℕ → List (ℕ × SocketAddr) → List Owned
owned_by index [] = []
owned_by index ((entry, endpoint) ∷ rest) =
    record { index = index; entry = entry; endpoint = endpoint } ∷ owned_by index rest

-- One probe for each entry of each server, with the server's index.
unfoldable pub flatten : ℕ → List Server → List ℕ → ℕ → List Owned
unfolding owned_by
flatten index [] entries port = []
flatten index (s ∷ rest) entries port =
    owned_by index (wg_endpoints s entries port) ++ flatten (suc index) rest entries port

-- The timing that stays: the earlier one unless the new one is shorter.
unfoldable pub shorter : Option Timing → Timing → Option Timing
shorter none new = some new
shorter (some old) new = if leb old.rtt new.rtt then some old else some new

unfoldable pub update_at : List (Option Timing) → ℕ → Timing → List (Option Timing)
update_at [] i new = []
update_at (b ∷ bs) zero new = shorter b new ∷ bs
update_at (b ∷ bs) (suc i) new = b ∷ update_at bs i new

usable_rtt : ProbeResult → Option ℕ
usable_rtt r = if is_usable r.outcome then r.rtt else none

fold_result : List (Option Timing) → Owned → ProbeResult → Option ℕ → List (Option Timing)
fold_result best o r none = best
fold_result best o r (some rtt) =
    update_at best o.index (record { entry = o.entry; endpoint = r.endpoint; rtt = rtt })

unfoldable pub best_timings :
    List (Option Timing) → List Owned → List ProbeResult → List (Option Timing)
unfolding usable_rtt fold_result
best_timings best (o ∷ os) (r ∷ rs) = best_timings (fold_result best o r (usable_rtt r)) os rs
best_timings best _ _ = best

abbrev no_timings : List Server → List (Option Timing)
no_timings = map λ _. none

entry_or : Option ℕ → ℕ
entry_or none = 1
entry_or (some e) = e

-- A server that did not answer keeps a placeholder endpoint.
unfoldable pub measured_as : List ℕ → ℕ → Server → Option Timing → Measured
unfolding entry_or
measured_as entries port s none = record {
  server = s;
  endpoint = wg_endpoint s port;
  entry = entry_or (first entries);
  rtt = none;
}
measured_as entries port s (some t) = record {
  server = s;
  endpoint = t.endpoint;
  entry = t.entry;
  rtt = some t.rtt;
}

unfoldable pub pair_up : List ℕ → ℕ → List Server → List (Option Timing) → List Measured
unfolding measured_as
pair_up entries port (s ∷ ss) (b ∷ bs) = measured_as entries port s b ∷ pair_up entries port ss bs
pair_up entries port _ _ = []

module _ {World : Type 0} (sleep : ℕ → World → World)
    (handshake : Prober → SocketAddr → World → Attempt × World) where
  unfoldable pub sweep : Prober → List Server → List ℕ → ℕ → World → List Measured × World
  unfolding flatten best_timings pair_up
  sweep p servers entries port w =
      let owners = flatten 0 servers entries port in
      let (results, w') = probe_many sleep handshake p (map (λ o. o.endpoint) owners) w in
      (pair_up entries port servers (best_timings (no_timings servers) owners results), w')
