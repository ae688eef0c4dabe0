-- ===== src/Daemon/Connect/Moves.antt =====
-- Where `establish`, `move_to` and `disconnect` leave the daemon, on success and on failure.
use vpnmgr.Common.{◌≡◌, refl, sym, ◌∙◌, true, Option, none, some, is_some, arith}
use vpnmgr.Tunnel.Spec.{default_interface}
use vpnmgr.Tunnel.Spec.Interface.{Outcome, done, failed}
use vpnmgr.Daemon.Ranked.{RankedServer}
use vpnmgr.Daemon.Env.{
  connection_of, State, tunnel, Env, Sys, M, Result, ok, err, from_outcome, continue, lift,
}
use vpnmgr.Daemon.Steps.{St, bind-Steps}
use vpnmgr.Daemon.Connect.{
  new_tunnel, close_old, after_up, establish, after_switch, retarget, move_to,
}

module _ {F T : Type 0} where
  -- What a change of the connection leaves alone.
  pub record Rest (s t : State F T) : Type 0 where
    pub config : t.config ≡ s.config
    pub client : t.client ≡ s.client
    pub pending : t.pending ≡ s.pending
    pub dismissed : t.dismissed ≡ s.dismissed

  -- On success the connection is the one to the chosen server, with a tunnel; on failure it is the one
  -- that was there before.
  abbrev pub Arrived : {A : Type 0} → RankedServer F → State F T → Result A → State F T → Type 0
  Arrived chosen s (ok a) t =
      Rest s t × (t.current ≡ some (connection_of chosen)) × (is_some t.tunnel ≡ true)
  Arrived chosen s (err e) t =
      Rest s t × (t.current ≡ s.current) × (is_some t.tunnel ≡ is_some s.tunnel)

module _ {F : Type 0} (env : Env F) where
  open env use {backend.{Tunnel}}

  after_drop : Option Tunnel → env.World → env.World
  after_drop none w = w
  after_drop (some t) w = env.backend.close t w

  close_old_lem :
      (o : Option Tunnel) (s : Sys env)
      → close_old env o s ≡ (ok tt, record s { world = after_drop o s.world })
  unfolding close_old after_drop
  close_old_lem none s = refl
  close_old_lem (some t) s = refl

  after_up-Arrived :
      (chosen : RankedServer F) (o : Outcome (Unit {0})) (t : Tunnel) (s : Sys env)
      → let r = after_up env chosen (o, t) s in Arrived chosen s.state r.0 r.1.state
  unfolding after_up close_old
  after_up-Arrived chosen (failed e) t s = ground arith
  after_up-Arrived chosen (done _) t s = rw (close_old_lem s.state.tunnel s) (ground arith)

  state-new_tunnel : (s : Sys env) → (new_tunnel env s).1.state ≡ s.state
  unfolding new_tunnel
  state-new_tunnel s =
      let opened = env.backend.open_tunnel default_interface s.world in
      bind-Steps {env = env} (λ s t. t ≡ s) (λ s t u h k. k ∙ h) {B = Tunnel}
        (lift (from_outcome tunnel opened.0)) _ (λ _. refl) (λ _ _. refl)
        (record s { world = opened.1 })

  Arrived-opened :
      (chosen : RankedServer F) (s : St env) (f : Tunnel → M env (Unit {0}))
      → ((t : Tunnel) (u : Sys env) → Arrived chosen u.state (f t u).0 (f t u).1.state)
      → (r : Result Tunnel × Sys env) → r.1.state ≡ s
      → Arrived chosen s (continue r f).0 (continue r f).1.state
  Arrived-opened chosen s f h (ok t, u) e = rw (sym e) (h t u)
  Arrived-opened chosen s f h (err e, u) k = ground arith

  -- Bringing a tunnel up replaces the connection, or leaves the old one where it fails.
  pub establish-Arrived :
      (chosen : RankedServer F) (s : Sys env)
      → let r = establish env chosen s in Arrived chosen s.state r.0 r.1.state
  unfolding establish
  establish-Arrived chosen s =
      Arrived-opened chosen s.state _ (λ t u. after_up-Arrived chosen _ _ (record u { world = _ }))
        (new_tunnel env s) (state-new_tunnel s)

  after_switch-Arrived :
      (chosen : RankedServer F) (o : Outcome (Unit {0})) (t : Tunnel) (s : Sys env)
      → is_some s.state.tunnel ≡ true
      → let r = after_switch env chosen (o, t) s in Arrived chosen s.state r.0 r.1.state
  unfolding after_switch
  after_switch-Arrived chosen (failed e) t s h = ground arith
  after_switch-Arrived chosen (done _) t s h = ground arith

  retarget-Arrived :
      (chosen : RankedServer F) (o : Option Tunnel) (s : Sys env)
      → s.state.tunnel ≡ o
      → let r = retarget env chosen o s in Arrived chosen s.state r.0 r.1.state
  unfolding retarget
  retarget-Arrived chosen none s h = ground arith
  retarget-Arrived chosen (some t) s h =
      after_switch-Arrived chosen _ _ (record s { world = _ }) (rw h)

  -- Moving the tunnel does the same; a tunnel that has failed to move stays the daemon's.
  pub move_to-Arrived :
      (chosen : RankedServer F) (s : Sys env)
      → let r = move_to env chosen s in Arrived chosen s.state r.0 r.1.state
  unfolding move_to
  move_to-Arrived chosen s = retarget-Arrived chosen s.state.tunnel s refl
