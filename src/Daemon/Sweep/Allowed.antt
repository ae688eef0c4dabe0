-- ===== src/Daemon/Sweep/Allowed.antt =====
-- A sweep returns what the filters let through, and nothing else.
use vpnmgr.Common.{
  ℕ, ◌≡◌, true, Option, none, some, List, [], ◌∷◌, map, All, All-map, All-mono, retain-All,
  Bool-cases, inl, inr, arith, not, cons_some, length, ◌==◌, is_empty,
}
use vpnmgr.Common.Text.{Text}
use vpnmgr.Common.Float.{Float}
use vpnmgr.Common.Sorting.{sort_by-All}
use vpnmgr.Core.Airvpn.{Server, ServerList, is_healthy, wg_entries}
use vpnmgr.Core.Config.{Filters}
use vpnmgr.Core.Filter.{ruleset_of, accepts, reason_of, apply}
use vpnmgr.Core.Filter.Partition.{passes, apply-perm}
use vpnmgr.Core.Score.{
  Scoring, Measured, Timed, rank, reachable, score_all, score_one, may_precede, timed_at,
}
use vpnmgr.Probe.Sweep
use vpnmgr.Probe.Sweep.Servers.{servers-sweep}
use vpnmgr.Daemon.Ranked.{RankedServer}
use vpnmgr.Daemon.Env.{Env, Sys, guard, all_unreachable, no_candidates}
use vpnmgr.Daemon.Steps.{IfOk, Yields, bind-Yields}
use vpnmgr.Daemon.Sweep.{
  only_country, to_ranked, record_sweep, sweep, server_list, prober, measure_all, scoring,
  summary_text,
}

-- The filters let the ranked server through.
abbrev pub Allowed : {F : Type 0} → Filters → RankedServer F → Type 0
Allowed f r = accepts (ruleset_of f) r.name r.country_code r.load ≡ true

abbrev Accepted : Filters → Server → Type 0
Accepted f s = accepts (ruleset_of f) s.name s.country_code s.load ≡ true

passes-Accepted : (f : Filters) (s : Server) → passes (ruleset_of f) s ≡ true → Accepted f s
unfolding reason_of accepts
passes-Accepted f s h = elim (Bool-cases (is_healthy s)) [
  | inl e ↦ rw e at h
  | inr e ↦ absurd (ground (arith, rw e at h))
]

apply-Accepted : (list : ServerList) (f : Filters) → All (Accepted f) (apply list f).accepted
apply-Accepted list f = rw (apply-perm list f).1 (
    All-mono _ (Accepted f) _ (passes-Accepted f) (retain-All (passes (ruleset_of f)) list.servers))

All-unmap {κ} :
    {A B : Type 0} (P : B → Type κ) (f : A → B) (xs : List A)
    → All P (map f xs)
    → All (λ x. P (f x)) xs
All-unmap P f [] h = tt
All-unmap P f (x ∷ xs) h = (h.0, All-unmap P f xs h.1)

All-timed_at :
    (P : Server → Type 0) (m : Measured) (rtt : Option ℕ) (ts : List Timed)
    → P m.server
    → All (λ t. P t.server) ts
    → All (λ t. P t.server) (cons_some (timed_at m rtt) ts)
All-timed_at P m none ts h k = k
All-timed_at P m (some rtt) ts h k = (h, k)

All-reachable :
    (P : Server → Type 0) (ms : List Measured)
    → All (λ m. P m.server) ms
    → All (λ t. P t.server) (reachable ms)
unfolding reachable
All-reachable P [] h = tt
All-reachable P (m ∷ ms) h = All-timed_at P m m.rtt _ h.0 (All-reachable P ms h.1)

module _ {F : Type 0} ⦃fl : Float F⦄ where
  -- Ranking adds no server.
  pub All-rank :
      (P : Server → Type 0) (ms : List Measured) (scores : Scoring F)
      → All (λ m. P m.server) ms
      → All (λ r. P r.timed.server) (rank ms scores)
  unfolding rank score_all score_one
  All-rank P ms scores h =
      sort_by-All may_precede (λ r. P r.timed.server) _
        (All-map (λ r. P r.timed.server) _ (reachable ms) (All-reachable P ms h))

module _ {F : Type 0} ⦃fl : Float F⦄ (env : Env F) where
  record_sweep-Allowed :
      (f : Filters) (started finished : ℕ) (ms : List Measured) (scores : Scoring F)
      → All (λ m. Accepted f m.server) ms
      → Yields {env = env} (All (Allowed f)) (record_sweep env started finished ms scores)
  unfolding record_sweep to_ranked
  record_sweep-Allowed f started finished ms scores h s =
      bind-Yields {env = env} (All (Allowed {F = F} f))
        (guard (not (length (reachable ms) == 0)) (all_unreachable (length ms))) _
        (λ _ t.
          All-map (Allowed {F = F} f) (to_ranked s.state finished) (rank ms scores)
            (All-rank (Accepted f) ms scores h))
        (record s { state = _ })

  -- Every server that a sweep ranks is let through by the settings' filters, with the country asked
  -- for in place of the country whitelist.
  pub sweep-Yields :
      (country : Option Text) (s : Sys env)
      → IfOk (All (Allowed (only_country country s.state.config.filters))) (sweep env country s).0
  unfolding sweep measure_all
  sweep-Yields country s =
      let f = only_country country s.state.config.filters in
      bind-Yields {env = env} (All (Allowed f)) (server_list env) _
        (λ list.
          bind-Yields {env = env} (All (Allowed f))
            (guard (not (is_empty (apply list f).accepted))
              (no_candidates (summary_text (apply list f))))
            _
            (λ _ t.
              let servers = (apply list f).accepted in
              let port = s.state.config.provider.port in
              let r =
                Sweep.sweep env.sleep env.handshake (prober s.state) servers wg_entries port
                  t.world in
              record_sweep-Allowed f (env.now t.world) (env.now r.1) r.0 (scoring s.state)
                (All-unmap (Accepted f) (λ m. m.server) r.0
                  (rw
                    (servers-sweep env.sleep env.handshake (prober s.state) servers wg_entries port
                      t.world)
                    (apply-Accepted list f)))
                (record t { world = r.1 })))
        s
