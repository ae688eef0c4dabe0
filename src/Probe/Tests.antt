-- ===== src/Probe/Tests.antt =====
-- Runs of vpnmgr-probe against a network that answers after the time that the address gives.
use vpnmgr.Common.{some, leb, ◌≤◌, In, ℕ, ◌+◌, ◌*◌, ◌^◌, ◌≡◌, none, some, [], ◌∷◌}
use vpnmgr.Core.Net.{SocketAddr, v4, v6}
use vpnmgr.Core.Config.{default_probe}
use vpnmgr.Probe.Median.{count, median_lem}
use vpnmgr.Probe.{median, Attempt, answered, reachable, Prober}

abbrev pub prober : Prober
prober = record {
  private_key = [];
  peer_public_key = [];
  preshared_key = none;
  settings = default_probe;
  fwmark = none;
  excluded = none;
}

abbrev pub rtt_to : SocketAddr → ℕ
rtt_to a = elim a.ip [ v4 n ↦ n * 10 ^ 6 | v6 n ↦ n ]

-- The world is a clock.
abbrev pub sleep : ℕ → ℕ → ℕ
sleep d w = w + d

abbrev pub handshake : Prober → SocketAddr → ℕ → Attempt × ℕ
handshake p a w = (answered (rtt_to a) reachable, w + rtt_to a)

median_lem_example :
    (m : ℕ) × (median (30 ∷ 10 ∷ 20 ∷ []) ≡ some m)
    × In m (30 ∷ 10 ∷ 20 ∷ [])
    × (3 ≤ 2 * count (λ y. leb y m) (30 ∷ 10 ∷ 20 ∷ []))
    × (3 ≤ 2 * count (λ y. leb m y) (30 ∷ 10 ∷ 20 ∷ []))
median_lem_example = median_lem 30 (10 ∷ 20 ∷ [])
