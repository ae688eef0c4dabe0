-- ===== src/Daemon/Speed/Switch.antt =====
-- Turning the kill switch on and off changes one setting.
use vpnmgr.Common.{Bool, true, false, Option, none, some}
use vpnmgr.Common.Float.{Float}
use vpnmgr.Daemon.Env.{Env, lift, from_outcome, tunnel}
use vpnmgr.Daemon.Steps.{Steps, bind-Steps}
use vpnmgr.Daemon.Speed.{set_killswitch, killswitch}
use vpnmgr.Daemon.Tune.Offered.{Keeps, Keeps-trans}

module _ {F : Type 0} ⦃fl : Float F⦄ (env : Env F) where
  set_killswitch-Keeps : (o : Option Bool) → Steps {env = env} Keeps (set_killswitch env o)
  unfolding set_killswitch
  set_killswitch-Keeps none s = λ h. h
  set_killswitch-Keeps (some true) s =
      let r = env.engage _ s.world in
      bind-Steps {env = env} Keeps Keeps-trans (lift (from_outcome tunnel r.0)) _ (λ _ h. h)
        (λ _ t h. record { paired = h.paired; offered = h.offered }) (record s { world = r.1 })
  set_killswitch-Keeps (some false) s =
      let r = env.release s.world in
      bind-Steps {env = env} Keeps Keeps-trans (lift (from_outcome tunnel r.0)) _ (λ _ h. h)
        (λ _ t h. record { paired = h.paired; offered = h.offered }) (record s { world = r.1 })

  pub killswitch-Keeps : (o : Option Bool) → Steps {env = env} Keeps (killswitch env o)
  unfolding killswitch
  killswitch-Keeps o s =
      bind-Steps {env = env} Keeps Keeps-trans (set_killswitch env o) _ (set_killswitch-Keeps o)
        (λ _ t h. h) s
