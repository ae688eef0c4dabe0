-- ===== src/Daemon/Sweep/Cache.antt =====
-- When the list of servers is fetched, and when the cached one serves.
use vpnmgr.Common.{ℕ, ◌-◌, ◌≡◌, refl, Option, none, some, ltb, Bool-cases, inl, inr, if◌then◌else◌}
use vpnmgr.Common.Text.{Text}
use vpnmgr.Common.Float.{Float}
use vpnmgr.Core.Airvpn.{ServerList}
use vpnmgr.Tunnel.Spec.Interface.{Outcome, done, failed}
use vpnmgr.Daemon.Env.{Env, Sys, core, Result, ok, err}
use vpnmgr.Daemon.Sweep.{
  server_cache_ttl, after_fetch, refresh_with, cached_or_refresh, server_list,
}

-- The cached list, where it is no older than five minutes.
abbrev pub fresh : ℕ → Option (ServerList × ℕ) → Option ServerList
fresh now none = none
fresh now (some (list, at)) = if ltb server_cache_ttl (now - at) then none else some list

-- What stands in for a fetch that failed.
abbrev pub fallback : Text → Option (ServerList × ℕ) → Result ServerList
fallback e none = err (core e)
fallback e (some (list, at)) = ok list

module _ {F : Type 0} ⦃fl : Float F⦄ (env : Env F) where
  abbrev pub Fetched : Sys env → Outcome ServerList → Result ServerList × Sys env → Type 0
  Fetched s (done list) r = (r.0 ≡ ok list) × (r.1.state.servers ≡ some (list, env.now r.1.world))
  Fetched s (failed e) r = (r.1.state ≡ s.state) × (r.0 ≡ fallback e s.state.servers)

  abbrev pub Asked : Sys env → Outcome (Unit {0}) → Result ServerList × Sys env → Type 0
  Asked s (failed e) r = r ≡ (err (core e), s)
  Asked s (done _) r = Fetched s (env.fetch s.world).0 r

  abbrev pub Served : Sys env → Option ServerList → Result ServerList × Sys env → Type 0
  Served s (some list) r = r ≡ (ok list, s)
  Served s none r = Asked s (env.open_client s.world) r

  after_fetch-Fetched :
      (s : Sys env) (o : Outcome ServerList) (w : env.World)
      → let t : Sys env = record { state = s.state; world = w } in
        Fetched s o (after_fetch env s.state (env.now w) o t)
  after_fetch-Fetched s (done list) w = (refl, refl)
  after_fetch-Fetched s (failed e) w = fallen s.state.servers refl
    where
      fallen :
          (o : Option (ServerList × ℕ))
          → s.state.servers ≡ o
          → let t : Sys env = record { state = s.state; world = w } in
            Fetched s (failed e) (after_fetch env s.state (env.now w) (failed e) t)
      fallen none h = rw h (refl, refl)
      fallen (some (list, at)) h = rw h (refl, refl)

  refresh_with-Asked : (s : Sys env) (o : Outcome (Unit {0})) → Asked s o (refresh_with env o s)
  unfolding refresh_with
  refresh_with-Asked s (failed e) = refl
  refresh_with-Asked s (done _) = after_fetch-Fetched s (env.fetch s.world).0 (env.fetch s.world).1

  cached-Served :
      (s : Sys env) (o : Option (ServerList × ℕ))
      → Served s (fresh (env.now s.world) o) (cached_or_refresh env (env.now s.world) o s)
  unfolding cached_or_refresh
  cached-Served s none = refresh_with-Asked s (env.open_client s.world)
  cached-Served s (some (list, at)) =
      elim (Bool-cases (ltb server_cache_ttl (env.now s.world - at))) [
        | inl e ↦ rw e (refresh_with-Asked s (env.open_client s.world))
        | inr e ↦ rw e refl
      ]

  -- A fresh cached list is the answer, and nothing is fetched or changed. Otherwise the list is fetched:
  -- a new one is the answer and is cached with the time, and where the fetch fails the old one serves.
  -- An error comes back only where the client cannot be set up or a fetch fails with no list at hand.
  pub server_list-Served :
      (s : Sys env) → Served s (fresh (env.now s.world) s.state.servers) (server_list env s)
  unfolding server_list
  server_list-Served s = cached-Served s s.state.servers
