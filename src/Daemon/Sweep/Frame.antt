-- ===== src/Daemon/Sweep/Frame.antt =====
-- Measuring leaves the tunnel, the connection, the settings and the proposal as they are.
use vpnmgr.Common.{
  ℕ, Bool, true, false, Option, none, some, List, [], ◌∷◌, Bool-cases, arith, inl, inr, ltb, ◌-◌,
  first,
}
use vpnmgr.Common.Text.{Text}
use vpnmgr.Common.Float.{Float}
use vpnmgr.Core.Airvpn.{Server, ServerList, wg_entries}
use vpnmgr.Core.Airvpn
use vpnmgr.Probe.Sweep
use vpnmgr.Core.Score.{Scoring, Scored, Measured, rank}
use vpnmgr.Tunnel.Spec.Interface.{Outcome, done, failed}
use vpnmgr.Daemon.Ranked.{RankedServer}
use vpnmgr.Daemon.Env.{Env, Sys, guard, Error}
use vpnmgr.Daemon.Steps.{Steps, bind-Steps, Frame, Frame-refl, Frame-trans}
use vpnmgr.Daemon.Sweep.{
  server_cache_ttl, after_fetch, refresh_with, refresh, cached_or_refresh, server_list, measure_all,
  record_sweep, sweep, found, answered, probe_named, prober, scoring,
}

module _ {F : Type 0} ⦃fl : Float F⦄ (env : Env F) where
  after_fetch-Frame :
      (s : Sys env) (now : ℕ) (o : Outcome ServerList)
      → Frame s.state (after_fetch env s.state now o s).1.state
  after_fetch-Frame s now (done list) = ground arith
  after_fetch-Frame s now (failed e) = ground arith

  refresh_with-Frame : (o : Outcome (Unit {0})) → Steps {env = env} Frame (refresh_with env o)
  unfolding refresh_with
  refresh_with-Frame (failed e) s = Frame-refl s.state
  refresh_with-Frame (done _) s =
      let w = (env.fetch s.world).1 in
      after_fetch-Frame (record s { world = w }) (env.now w) (env.fetch s.world).0

  refresh-Frame : Steps {env = env} Frame (refresh env)
  unfolding refresh
  refresh-Frame s = refresh_with-Frame (env.open_client s.world) s

  cached-Frame :
      (now : ℕ) (o : Option (ServerList × ℕ))
      → Steps {env = env} Frame (cached_or_refresh env now o)
  unfolding cached_or_refresh
  cached-Frame now none s = refresh-Frame s
  cached-Frame now (some (list, at)) s = elim (Bool-cases (ltb server_cache_ttl (now - at))) [
    | inl e ↦ rw e (refresh-Frame s)
    | inr e ↦ rw e (Frame-refl s.state)
  ]

  pub server_list-Frame : Steps {env = env} Frame (server_list env)
  unfolding server_list
  server_list-Frame s = cached-Frame (env.now s.world) s.state.servers s

  pub record_sweep-Frame :
      (started finished : ℕ) (measured : List Measured) (scores : Scoring F)
      → Steps {env = env} Frame (record_sweep env started finished measured scores)
  unfolding record_sweep
  record_sweep-Frame started finished measured scores s = ground arith

  pub guard-Frame : (b : Bool) (e : Error) → Steps {env = env} Frame (guard b e)
  guard-Frame true e s = Frame-refl s.state
  guard-Frame false e s = Frame-refl s.state

  found-Frame : (name : Text) (o : Option Server) → Steps {env = env} Frame (found env name o)
  unfolding found
  found-Frame name none s = Frame-refl s.state
  found-Frame name (some server) s = Frame-refl s.state

  answered-Frame :
      (name : Text) (o : Option (Scored F)) → Steps {env = env} Frame (answered env name o)
  unfolding answered
  answered-Frame name none s = Frame-refl s.state
  answered-Frame name (some r) s = Frame-refl s.state

  -- A sweep changes the cached list, the last sweep and the last ranking, and nothing that a
  -- connection or a proposal rests on.
  pub sweep-Frame : (country : Option Text) → Steps {env = env} Frame (sweep env country)
  unfolding sweep measure_all
  sweep-Frame country s =
      bind-Steps {env = env} Frame Frame-trans (server_list env) _ server_list-Frame
        (λ list.
          bind-Steps {env = env} Frame Frame-trans (guard _ _) _ (guard-Frame _ _)
            (λ _ t. record_sweep-Frame _ _ _ _ _))
        s

  pub probe_named-Frame : (name : Text) → Steps {env = env} Frame (probe_named env name)
  unfolding probe_named measure_all
  probe_named-Frame name s =
      bind-Steps {env = env} Frame Frame-trans (server_list env) _ server_list-Frame
        (λ list.
          bind-Steps {env = env} Frame Frame-trans {B = RankedServer F}
            (found env name (Airvpn.get list name)) _ (found-Frame name (Airvpn.get list name))
            (λ server t.
              let port = s.state.config.provider.port in
              let r =
                Sweep.sweep env.sleep env.handshake (prober s.state) (server ∷ []) wg_entries port
                  t.world in
              let best = first (rank r.0 (scoring s.state)) in
              bind-Steps {env = env} Frame Frame-trans {B = RankedServer F} (answered env name best)
                _ (answered-Frame name best) (λ chosen u. Frame-refl u.state)
                (record t { world = r.1 })))
        s
