-- ===== src/Daemon/Connect/Travel.antt =====
-- The operations on the connection keep the settings and the proposal, and keep a tunnel with a
-- connection.
use vpnmgr.Common.{refl, Option, none, some}
use vpnmgr.Common.Text.{Text}
use vpnmgr.Common.Float.{Float}
use vpnmgr.Daemon.Ranked.{RankedServer}
use vpnmgr.Daemon.Env.{Connection, State, Env, Result, ok, err}
use vpnmgr.Daemon.Steps.{Travels, Travels-refl, Travelling, next-Travelling, framed}
use vpnmgr.Daemon.Sweep.{probe_named}
use vpnmgr.Daemon.Sweep.Frame.{probe_named-Frame}
use vpnmgr.Daemon.Connect.{establish, move_to, close_old, take_down, disconnect, move_named, switch}
use vpnmgr.Daemon.Connect.Moves.{Arrived, establish-Arrived, move_to-Arrived}

module _ {F T : Type 0} where
  Arrived-Travels :
      {A : Type 0} (chosen : RankedServer F) (s t : State F T) (r : Result A)
      → Arrived chosen s r t
      → Travels s t
  Arrived-Travels chosen s t (ok a) h = record {
    config = h.0.config;
    client = h.0.client;
    pending = h.0.pending;
    paired = λ _. rw (h.1, h.2) refl;
  }
  Arrived-Travels chosen s t (err e) h = record {
    config = h.0.config;
    client = h.0.client;
    pending = h.0.pending;
    paired = λ k. rw (h.1, h.2) k;
  }

module _ {F : Type 0} (env : Env F) where
  pub establish-Travels : (chosen : RankedServer F) → Travelling env (establish env chosen)
  establish-Travels chosen s =
      let r = establish env chosen s in
      Arrived-Travels chosen s.state r.1.state r.0 (establish-Arrived env chosen s)

  pub move_to-Travels : (chosen : RankedServer F) → Travelling env (move_to env chosen)
  move_to-Travels chosen s =
      let r = move_to env chosen s in
      Arrived-Travels chosen s.state r.1.state r.0 (move_to-Arrived env chosen s)

  take_down-Travels : (o : Option env.backend.Tunnel) → Travelling env (take_down env o)
  unfolding take_down close_old
  take_down-Travels none s = Travels-refl s.state
  take_down-Travels (some t) s = record {
    config = refl;
    client = refl;
    pending = refl;
    paired = λ _. refl;
  }

  pub disconnect-Travels : Travelling env (disconnect env)
  unfolding disconnect
  disconnect-Travels s = take_down-Travels s.state.tunnel s

module _ {F : Type 0} ⦃fl : Float F⦄ (env : Env F) where
  move_named-Travels :
      (name : Text) (o : Option Connection) → Travelling env (move_named env name o)
  unfolding move_named
  move_named-Travels name none s = Travels-refl s.state
  move_named-Travels name (some c) s =
      next-Travelling env (probe_named env name) _
        (framed env (probe_named env name) (probe_named-Frame env name))
        (λ chosen.
          next-Travelling env (move_to env chosen) _ (move_to-Travels env chosen)
            (λ _ s. record { config = refl; client = refl; pending = refl; paired = λ k. k }))
        s

  pub switch-Travels : (name : Text) → Travelling env (switch env name)
  unfolding switch
  switch-Travels name s = move_named-Travels name s.state.current s
