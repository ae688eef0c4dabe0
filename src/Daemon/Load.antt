-- ===== src/Daemon/Load.antt =====
-- How the daemon starts: `State::load` of crates/vpnmgrd/src/state.rs.
use vpnmgr.Common.{◌≡◌, refl, none, []}
use mathlib.Core.Path.{subst}
use vpnmgr.Common.Text.{Text}
use vpnmgr.Common.Float.{Float}
use vpnmgr.Core.Config.{Config, ClientConfig, Loaded, loaded, load_client_config}
use vpnmgr.Core.Config
use vpnmgr.Tunnel.Spec.Interface.{Outcome, done, failed}
use vpnmgr.Daemon.Env.{core, Env, Sys, Result, ok, err}
use vpnmgr.Daemon.Steps.{IfOk, St}
use vpnmgr.Daemon.Tune.Offered.{Sound}
use vpnmgr.Daemon.Handle.Reached.{Reached}
use vpnmgr.Daemon.Handle.Sound.{Reached-Sound}

module _ {F : Type 0} (env : Env F) where
  unfoldable pub fresh : Text → Config F → ClientConfig → St env
  fresh path config client = record {
    config = config;
    config_path = path;
    client = client;
    servers = none;
    tunnel = none;
    current = none;
    last_sweep = none;
    last_ranking = [];
    pending = none;
    dismissed = none;
    throughput_seen = [];
    direct_mbps = none;
    last_tune = none;
    last_tune_at = none;
  }

  unfoldable pub with_client : Text → Config F → Loaded → Result (St env)
  unfolding fresh
  with_client path config (loaded client) = ok (fresh path config client)
  with_client path config (Config.failed e) = err (core e)

  unfoldable pub with_config : Text → Outcome (Config F) → env.World → Result (St env)
  unfolding with_client
  with_config path (failed e) w = err (core e)
  with_config path (done config) w =
      with_client path config (load_client_config (env.read_key w) config)

  -- The settings are read and checked, then the key files.
  unfoldable pub load : Text → env.World → Result (St env)
  unfolding with_config
  load path w = with_config path (env.load path w) w

  with_client-Sound :
      (path : Text) (config : Config F) (l : Loaded) → IfOk Sound (with_client path config l)
  unfolding with_client fresh
  with_client-Sound path config (loaded client) = record { paired = refl; offered = tt }
  with_client-Sound path config (Config.failed e) = tt

  with_config-Sound :
      (path : Text) (o : Outcome (Config F)) (w : env.World) → IfOk Sound (with_config path o w)
  unfolding with_config
  with_config-Sound path (failed e) w = tt
  with_config-Sound path (done config) w =
      with_client-Sound path config (load_client_config (env.read_key w) config)

  load-Sound : (path : Text) (w : env.World) → IfOk Sound (load path w)
  unfolding load
  load-Sound path w = with_config-Sound path (env.load path w) w

module _ {F : Type 0} ⦃fl : Float F⦄ (env : Env F) where
  if_ok : {A : Type 0} (Q : A → Type 0) (r : Result A) (a : A) → r ≡ ok a → IfOk Q r → Q a
  if_ok Q r a e h = subst (IfOk Q) e h

  -- In every state that the daemon comes to after it has started, by any sequence of requests, scheduled
  -- passes and changes of the world, there is a tunnel exactly if there is a connection, and any proposal
  -- is one that the filters allow.
  pub load-Reached-Sound :
      (path : Text) (w : env.World) (state : St env) (t : Sys env)
      → load env path w ≡ ok state
      → Reached env (record { state = state; world = w }) t
      → Sound t.state
  load-Reached-Sound path w state t e past =
      Reached-Sound env (record { state = state; world = w }) t past
        (if_ok Sound (load env path w) state e (load-Sound env path w))
