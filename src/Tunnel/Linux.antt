-- ===== src/Tunnel/Linux.antt =====
-- crates/vpnmgr-tunnel/src/linux.rs: the backend over the kernel's WireGuard interface. The crate
-- defguard_wireguard_rs, the `ip` tool and nft are the record Kernel.
pub mod Pruned
pub mod Quiet
pub mod Withdrawn
pub mod Tests
use vpnmgr.Common.{
  ℕ, zero, suc, Bool, true, false, not, ◌&&◌, ◌||◌, Option, none, some, is_some, List, [], ◌∷◌,
  ◌++◌, length, ltb, ◌==◌, retain, first, is_empty, if◌then◌else◌,
}
use vpnmgr.Common.Text.{Text, text, print_nat}
use vpnmgr.Common.Scan.{lines, contains_text}
use vpnmgr.Core.Net.{IpAddr, SocketAddr, Cidr}
use vpnmgr.Core.Config.{ClientConfig}
use vpnmgr.Tunnel.Bypass.{Route, Bypass, new_bypass}
use vpnmgr.Tunnel.Bypass.Installed.{MainTable, install, remove, destinations}
use vpnmgr.Tunnel.Killswitch.{Killswitch, allowing}
use vpnmgr.Tunnel.Spec.{TunnelSpec, TunnelStatus, BadName, validate}
use vpnmgr.Tunnel.Spec.Interface.{Outcome, done, failed, Backend}
use vpnmgr.Tunnel.Device.{
  Peer, InterfaceConfig, HostPeer, Host, Kernel, LinuxTunnel, Call, new_tunnel, peer_of,
  config_with, show_bad_name, peer_status, marks_lookup, marks_suppress, lookup_args, suppress_args,
}

module _ {World : Type 0} where
  -- The next call, unless this one failed.
  abbrev pub and_then : Outcome (Unit {0}) × World → Call World → Outcome (Unit {0}) × World
  and_then (failed e, w) next = (failed e, w)
  and_then (done _, w) next = next w

module _ {World : Type 0} (k : Kernel World) where
  unfoldable pub count_rules : Bool → (Text → Bool) → World → ℕ
  count_rules v6 matches w = elim (k.rule_show v6 w) [
    | none ↦ 0
    | some listing ↦ length (retain matches (lines listing))
  ]

  -- Deletes copies of a rule while there is more than one; a deletion that fails ends it.
  unfoldable pub prune_rule : ℕ → Bool → (Text → Bool) → List Text → World → World
  prune_rule zero v6 matches args w = w
  prune_rule (suc n) v6 matches args w =
      let (deleted, w') = k.rule_del v6 args w in
      let rest = prune_rule n v6 matches args w' in
      if ltb 1 (count_rules v6 matches w) then (if deleted then rest else w') else w

  unfoldable pub prune_all : Bool → (Text → Bool) → List Text → World → World
  unfolding prune_rule count_rules
  prune_all v6 matches args w = prune_rule (count_rules v6 matches w) v6 matches args w

  prune_family : Bool → ℕ → World → World
  unfolding prune_all marks_lookup marks_suppress lookup_args suppress_args
  prune_family v6 fwmark w =
      prune_all v6 marks_suppress suppress_args
        (prune_all v6 (marks_lookup (print_nat fwmark)) (lookup_args (print_nat fwmark)) w)

  unfoldable pub prune_duplicate_policy_rules : ℕ → World → World
  unfolding prune_family
  prune_duplicate_policy_rules fwmark w = prune_family true fwmark (prune_family false fwmark w)

  routing : Text → TunnelSpec → Call World
  unfolding prune_duplicate_policy_rules peer_of
  routing interface spec w =
      and_then (k.configure_peer_routing interface (peer_of spec ∷ []) w)
        (λ w'. (done tt, prune_duplicate_policy_rules spec.fwmark w'))

  dns : Text → TunnelSpec → Call World
  dns interface spec w =
      if not (is_empty spec.client.dns) || not (is_empty spec.client.search_domains)
      then k.configure_dns interface spec.client.dns spec.client.search_domains w
      else (done tt, w)

  pub configure : Text → TunnelSpec → Call World
  unfolding routing dns config_with
  configure interface spec w =
      and_then (k.configure_interface (config_with interface spec (peer_of spec ∷ [])) w)
        (λ w1. and_then (routing interface spec w1) (dns interface spec))

  created_then :
      TunnelSpec
      → LinuxTunnel
      → Outcome (Unit {0}) × World
      → Outcome (Unit {0}) × LinuxTunnel × World
  unfolding configure
  created_then spec t (failed e, w) = (failed e, t, w)
  created_then spec t (done _, w) =
      let (o, w') = configure t.interface spec w in (o, record t { created = true }, w')

  unfoldable pub bring_up :
      TunnelSpec → LinuxTunnel → World → Outcome (Unit {0}) × LinuxTunnel × World
  unfolding created_then
  bring_up spec t w = created_then spec t (k.create_interface t.interface w)

  pub engage_over : Option Killswitch → Bypass → Call World
  engage_over none b w = (done tt, w)
  engage_over (some ks) b w = k.engage (allowing (destinations b) ks) w

  pub release_if : Option Killswitch → World → World
  release_if none w = w
  release_if (some ks) w = (k.release w).1

  -- A failure takes the routes and the kill switch back; a release that fails is only logged.
  finish_up : Outcome (Unit {0}) × LinuxTunnel × World → Outcome (Unit {0}) × LinuxTunnel × World
  unfolding release_if
  finish_up (done u, t, w) = (done u, t, w)
  finish_up (failed e, t, w) =
      let (b, w') = remove k.table t.bypass w in
      (failed e, record t { bypass = b }, release_if t.killswitch w')

  engaged_then :
      TunnelSpec
      → LinuxTunnel
      → Outcome (Unit {0}) × World
      → Outcome (Unit {0}) × LinuxTunnel × World
  unfolding bring_up finish_up
  engaged_then spec t (failed e, w) = (failed e, t, w)
  engaged_then spec t (done _, w) = finish_up (bring_up spec t w)

  up_valid : TunnelSpec → LinuxTunnel → World → Outcome (Unit {0}) × LinuxTunnel × World
  unfolding engage_over engaged_then
  up_valid spec t w =
      let (b, w1) = install k.table t.bypass_plan t.bypass w in
      let t1 : LinuxTunnel = record t { bypass = b; bypass_plan = [] } in
      engaged_then spec t1 (engage_over t1.killswitch b w1)

  checked_up :
      TunnelSpec → LinuxTunnel → World → Option BadName → Outcome (Unit {0}) × LinuxTunnel × World
  unfolding up_valid show_bad_name
  checked_up spec t w (some bad) = (failed (show_bad_name bad), t, w)
  checked_up spec t w none = up_valid spec t w

  unfoldable pub up : TunnelSpec → LinuxTunnel → World → Outcome (Unit {0}) × LinuxTunnel × World
  unfolding checked_up
  up spec t w = checked_up spec t w (validate spec)

  -- Every session of the peer and the listen port are new on the way to another endpoint.
  unfoldable pub retarget :
      TunnelSpec → LinuxTunnel → World → Outcome (Unit {0}) × LinuxTunnel × World
  unfolding routing config_with peer_of
  retarget spec t w =
      let (o, w') = and_then (k.remove_peer t.interface spec.client.peer_public_key w) (λ w1.
        and_then (k.configure_interface (config_with t.interface spec []) w1) (λ w2.
          and_then (k.configure_peer t.interface (peer_of spec) w2) (routing t.interface spec))) in
      (o, t, w')

  pub released : Option Killswitch → Call World
  released none w = (done tt, w)
  released (some ks) w = k.release w

  -- The interface's failure comes back only where the release did not fail first.
  unfoldable pub down : LinuxTunnel → World → Outcome (Unit {0}) × LinuxTunnel × World
  unfolding released
  down t w =
      let (result, w1) = k.remove_interface t.interface w in
      let (b, w2) = remove k.table t.bypass w1 in
      let (o, w3) = and_then (released t.killswitch w2) (λ w. (result, w)) in
      (o, record t { created = false; bypass = b }, w3)

  unfoldable pub status : LinuxTunnel → World → Outcome TunnelStatus
  unfolding peer_status
  status t w = elim (k.read_interface t.interface w) [
    | failed e ↦ failed e
    | done host ↦ done (peer_status t.interface host (first host.peers))
  ]

  -- `Drop` of the tunnel, and then of its bypass.
  unfoldable pub close : LinuxTunnel → World → World
  unfolding release_if
  close t w =
      let w1 = if t.created then (k.remove_interface t.interface w).1 else w in
      (remove k.table t.bypass (release_if t.killswitch w1)).1

  opened : Text → Outcome (Unit {0}) × World → Outcome LinuxTunnel × World
  unfolding new_tunnel
  opened interface (failed e, w) = (failed e, w)
  opened interface (done _, w) = (done (new_tunnel interface), w)

  -- What the daemon works with.
  unfoldable pub linux_backend : Backend World
  unfolding opened up retarget down status close
  linux_backend = record {
    Tunnel = LinuxTunnel;
    open_tunnel = λ interface w. opened interface (k.open_api interface w);
    with_bypass = λ routes t. record t { bypass_plan = routes };
    with_killswitch = λ ks t. record t { killswitch = some ks };
    up = up;
    switch_endpoint = retarget;
    down = down;
    status = status;
    close = close;
  }
