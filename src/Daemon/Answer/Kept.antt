-- ===== src/Daemon/Answer/Kept.antt =====
-- Approving, dismissing and reloading keep what tuning keeps.
use vpnmgr.Common.{ℕ, Option, none, some}
use vpnmgr.Common.Text.{Text}
use vpnmgr.Common.Float.{Float}
use vpnmgr.Core.Config.{Config, Loaded, loaded, load_client_config, ClientConfig}
use vpnmgr.Core.Config
use vpnmgr.Daemon.Ranked.{RankedServer}
use vpnmgr.Daemon.Env.{Env, Sys, lift, from_outcome, core}
use vpnmgr.Daemon.Steps.{Steps, bind-Steps}
use vpnmgr.Daemon.Connect.{switch}
use vpnmgr.Daemon.Connect.Travel.{switch-Travels}
use vpnmgr.Daemon.Tune.{apply_filters_to_cached_results}
use vpnmgr.Daemon.Answer.{approve_pending, approve, dismiss_pending, dismiss, client_of, reload}
use vpnmgr.Daemon.Tune.Offered.{Keeps, Keeps-trans, Travels-Keeps, allowed_pending-Offered}

module _ {F : Type 0} ⦃fl : Float F⦄ (env : Env F) where
  approve_pending-Keeps :
      (o : Option (RankedServer F × Text × ℕ)) → Steps {env = env} Keeps (approve_pending env o)
  unfolding approve_pending
  approve_pending-Keeps none s = λ sound. sound
  approve_pending-Keeps (some (to, reason, at)) s = λ sound.
      bind-Steps {env = env} Keeps Keeps-trans (switch env to.name) _
        (λ t. Travels-Keeps t.state _ (switch-Travels env to.name t))
        (λ moved t k. record { paired = k.paired; offered = k.offered })
        (record s { state = record s.state { pending = none } })
        (record { paired = sound.paired; offered = tt })

  pub approve-Keeps : Steps {env = env} Keeps (approve env)
  unfolding approve
  approve-Keeps s = approve_pending-Keeps s.state.pending s

  dismiss_pending-Keeps :
      (o : Option (RankedServer F × Text × ℕ)) → Steps {env = env} Keeps (dismiss_pending env o)
  unfolding dismiss_pending
  dismiss_pending-Keeps none s = λ sound. sound
  dismiss_pending-Keeps (some (to, reason, at)) s =
      λ sound. record { paired = sound.paired; offered = tt }

  pub dismiss-Keeps : Steps {env = env} Keeps (dismiss env)
  unfolding dismiss
  dismiss-Keeps s = dismiss_pending-Keeps s.state.pending s

  client_of-Keeps : (l : Loaded) → Steps {env = env} Keeps (client_of env l)
  unfolding client_of
  client_of-Keeps (loaded c) s = λ sound. sound
  client_of-Keeps (Config.failed e) s = λ sound. sound

  reload_with-Keeps :
      (s : Sys env) (c : Config F) (client : ClientConfig)
      → Keeps s.state (
          apply_filters_to_cached_results
            (record s.state { config = c; client = client; servers = none }))
  unfolding apply_filters_to_cached_results
  reload_with-Keeps s c client sound = record {
    paired = sound.paired;
    offered = allowed_pending-Offered c.filters s.state.pending;
  }

  pub reload-Keeps : Steps {env = env} Keeps (reload env)
  unfolding reload
  reload-Keeps s =
      bind-Steps {env = env} Keeps Keeps-trans
        (lift (from_outcome core (env.load s.state.config_path s.world))) _ (λ _ sound. sound)
        (λ config t.
          bind-Steps {env = env} Keeps Keeps-trans
            (client_of env (load_client_config (env.read_key t.world) config)) _
            (client_of-Keeps (load_client_config (env.read_key t.world) config))
            (λ client u. reload_with-Keeps u config client) t)
        s
