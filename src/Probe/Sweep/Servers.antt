-- ===== src/Probe/Sweep/Servers.antt =====
-- What `sweep` of crates/vpnmgr-probe/src/lib.rs keeps of the servers it was given.
use vpnmgr.Common.{
  ℕ, zero, suc, ◌≡◌, refl, ap, ◌∙◌, Option, none, some, List, [], ◌∷◌, map, length, length-map,
  arith,
}
use vpnmgr.Core.Net.{SocketAddr}
use vpnmgr.Core.Airvpn.{Server}
use vpnmgr.Probe.{Attempt, Prober, ProbeResult}
use vpnmgr.Probe.Sweep.{
  Owned, Timing, update_at, usable_rtt, fold_result, best_timings, no_timings, measured_as, pair_up,
  flatten, sweep,
}

length-update_at :
    (bs : List (Option Timing)) (i : ℕ) (t : Timing) → length (update_at bs i t) ≡ length bs
unfolding update_at
length-update_at [] i t = refl
length-update_at (b ∷ bs) zero t = refl
length-update_at (b ∷ bs) (suc i) t = ap suc (length-update_at bs i t)

length-fold_result :
    (best : List (Option Timing)) (o : Owned) (r : ProbeResult) (rtt : Option ℕ)
    → length (fold_result best o r rtt) ≡ length best
unfolding fold_result
length-fold_result best o r none = refl
length-fold_result best o r (some rtt) = length-update_at best o.index _

length-best_timings :
    (best : List (Option Timing)) (os : List Owned) (rs : List ProbeResult)
    → length (best_timings best os rs) ≡ length best
unfolding best_timings
length-best_timings best (o ∷ os) (r ∷ rs) =
    length-best_timings (fold_result best o r (usable_rtt r)) os rs
    ∙ length-fold_result best o r (usable_rtt r)
length-best_timings best [] rs = refl
length-best_timings best (o ∷ os) [] = refl

server-measured_as :
    (entries : List ℕ) (port : ℕ) (s : Server) (b : Option Timing)
    → (measured_as entries port s b).server ≡ s
unfolding measured_as
server-measured_as entries port s none = refl
server-measured_as entries port s (some t) = refl

servers-pair_up :
    (entries : List ℕ) (port : ℕ) (ss : List Server) (bs : List (Option Timing))
    → length bs ≡ length ss
    → map (λ m. m.server) (pair_up entries port ss bs) ≡ ss
unfolding pair_up
servers-pair_up entries port [] bs h = refl
servers-pair_up entries port (s ∷ ss) [] h = absurd (omega arith)
servers-pair_up entries port (s ∷ ss) (b ∷ bs) h =
    rw (server-measured_as, servers-pair_up entries port ss bs (omega arith))

module _ {World : Type 0} (sleep : ℕ → World → World)
    (handshake : Prober → SocketAddr → World → Attempt × World) where
  -- A sweep measures every server that it is given, in the order given, and no other.
  pub servers-sweep :
      (p : Prober) (servers : List Server) (entries : List ℕ) (port : ℕ) (w : World)
      → map (λ m. m.server) (sweep sleep handshake p servers entries port w).0 ≡ servers
  unfolding sweep
  servers-sweep p servers entries port w = servers-pair_up entries port servers _ (
      length-best_timings (no_timings servers) (flatten 0 servers entries port) _
      ∙ length-map (λ _. none) servers)
