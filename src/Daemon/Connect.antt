-- ===== src/Daemon/Connect.antt =====
-- Bringing the tunnel up, moving it and taking it down: `establish`, `move_to`, `switch`, `disconnect`
-- of crates/vpnmgrd/src/state.rs.
pub mod Moves
pub mod Travel
use vpnmgr.Common.{
  ℕ, Bool, true, false, Option, none, some, is_none, List, [], ◌∷◌, ◌++◌, map, if◌then◌else◌,
  is_empty,
}
use vpnmgr.Common.Text.{Text}
use vpnmgr.Common.Float.{Float}
use vpnmgr.Core.Net.{IpAddr, SocketAddr, Cidr}
use vpnmgr.Core.Config.{ClientConfig}
use vpnmgr.Tunnel.Bypass.{Route}
use vpnmgr.Tunnel.Bypass.Plan.{plan, Request}
use vpnmgr.Tunnel.Killswitch.{Killswitch, killswitch_for}
use vpnmgr.Tunnel.Spec.{TunnelSpec, spec_for, default_interface, default_fwmark}
use vpnmgr.Tunnel.Spec.Interface.{Outcome, done, failed, Backend}
use vpnmgr.Daemon.Ranked.{RankedServer}
use vpnmgr.Daemon.Env.{
  Connection, connection_of, State, Error, tunnel, not_connected, Env, Sys, M, Result, ok, err,
  from_outcome, ◌>>=◌, ◌>>◌, give, fail, get, put, observe, run, lift,
}
use vpnmgr.Daemon.Sweep.{probe_named}

abbrev tunnel_addresses : ClientConfig → List IpAddr
tunnel_addresses client = client.dns ++ map (λ c. c.addr) client.addresses

module _ {F : Type 0} (env : Env F) where
  open env use {backend.{Tunnel}, backend}

  bypass_request : State F Tunnel → Request
  bypass_request s = record {
    cidrs = s.config.bypass.cidrs;
    hosts = s.config.bypass.hosts;
    other_vpns = s.config.bypass.other_vpns;
    lan = s.config.bypass.lan;
    tunnel_addresses = tunnel_addresses s.client;
    our_interface = default_interface;
  }

  -- A handle with the planned routes, and with the kill switch if it is enabled.
  equip : State F Tunnel → List Route → Tunnel → Tunnel
  equip s routes t =
      let routed = if is_empty routes then t else backend.with_bypass routes t in
      if s.config.killswitch.enabled
      then backend.with_killswitch
          (killswitch_for default_interface default_fwmark s.config.killswitch.allow_lan) routed
      else routed

  unfoldable pub new_tunnel : M env Tunnel
  unfolding equip bypass_request
  new_tunnel = do
    s ← get
    opened ← run (backend.open_tunnel default_interface)
    t ← lift (from_outcome tunnel opened)
    machine ← observe env.machine
    give (equip s (plan machine (bypass_request s)) t)

  -- A value that is dropped runs its `Drop`.
  unfoldable pub close_old : Option Tunnel → M env (Unit {0})
  close_old none = give tt
  close_old (some t) = run λ w. (tt, backend.close t w)

  after_up : RankedServer F → Outcome (Unit {0}) × Tunnel → M env (Unit {0})
  unfolding close_old
  after_up chosen (failed e, t) = close_old (some t) >> fail (tunnel e)
  after_up chosen (done _, t) = do
    s ← get
    close_old s.tunnel
    s' ← get
    put (record s' { tunnel = some t; current = some (connection_of chosen) })

  -- Runs an operation of the backend on a handle.
  abbrev on_tunnel :
      (Tunnel → env.World → Outcome (Unit {0}) × Tunnel × env.World)
      → Tunnel
      → M env (Outcome (Unit {0}) × Tunnel)
  on_tunnel f t = run λ w. let (o, t', w') = f t w in ((o, t'), w')

  unfoldable pub establish : RankedServer F → M env (Unit {0})
  unfolding new_tunnel after_up
  establish chosen = do
    s ← get
    t ← new_tunnel
    result ← on_tunnel (backend.up (spec_for s.client chosen.endpoint)) t
    after_up chosen result

  -- The operation works on the handle in the state, so the handle stays changed where it fails.
  after_switch : RankedServer F → Outcome (Unit {0}) × Tunnel → M env (Unit {0})
  after_switch chosen (failed e, t) = do
    s ← get
    put (record s { tunnel = some t })
    fail (tunnel e)
  after_switch chosen (done _, t) = do
    s ← get
    put (record s { tunnel = some t; current = some (connection_of chosen) })

  retarget : RankedServer F → Option Tunnel → M env (Unit {0})
  unfolding after_switch
  retarget chosen none = fail not_connected
  retarget chosen (some t) = do
    s ← get
    result ← on_tunnel (backend.switch_endpoint (spec_for s.client chosen.endpoint)) t
    after_switch chosen result

  unfoldable pub move_to : RankedServer F → M env (Unit {0})
  unfolding retarget
  move_to chosen = do s ← get; retarget chosen s.tunnel

  -- The connection is forgotten also where the teardown fails.
  take_down : Option Tunnel → M env (Unit {0})
  unfolding close_old
  take_down none = fail not_connected
  take_down (some t) = do
    result ← on_tunnel backend.down t
    s ← get
    put (record s { tunnel = none; current = none })
    close_old (some result.1)
    lift (from_outcome tunnel result.0)

  unfoldable pub disconnect : M env (Unit {0})
  unfolding take_down
  disconnect = do s ← get; take_down s.tunnel

module _ {F : Type 0} ⦃fl : Float F⦄ (env : Env F) where
  move_named : Text → Option Connection → M env (RankedServer F)
  move_named name none = fail not_connected
  move_named name (some c) = do
    chosen ← probe_named env name
    move_to env chosen
    s ← get
    put (record s { dismissed = none })
    give chosen

  -- A deliberate move supersedes an earlier refusal.
  unfoldable pub switch : Text → M env (RankedServer F)
  unfolding move_named
  switch name = do s ← get; move_named name s.current
