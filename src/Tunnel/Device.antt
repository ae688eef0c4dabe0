-- ===== src/Tunnel/Device.antt =====
-- What crates/vpnmgr-tunnel/src/linux.rs hands to the kernel and the `ip` tool and reads back: the
-- records of defguard_wireguard_rs, the calls as the record Kernel, and how the arguments are made.
use vpnmgr.Common.{
  ℕ, Bool, true, false, ◌&&◌, Option, none, some, List, [], ◌∷◌, ◌++◌, ◌==◌, if◌then◌else◌,
}
use vpnmgr.Common.Text.{Text, text}
use vpnmgr.Common.Scan.{contains_text}
use vpnmgr.Core.Net.{IpAddr, SocketAddr, Cidr}
use vpnmgr.Tunnel.Bypass.{Route, Bypass, new_bypass}
use vpnmgr.Tunnel.Bypass.Installed.{MainTable}
use vpnmgr.Tunnel.Killswitch.{Killswitch}
use vpnmgr.Tunnel.Spec.{TunnelSpec, TunnelStatus, BadName}
use vpnmgr.Tunnel.Spec.Interface.{Outcome}

pub record Peer : Type 0 where
  pub public_key : List ℕ
  pub endpoint : Option SocketAddr
  pub preshared_key : Option (List ℕ)
  pub keepalive : Option ℕ
  pub allowed_ips : List Cidr

pub record InterfaceConfig : Type 0 where
  pub name : Text
  pub private_key : List ℕ
  pub addresses : List Cidr
  pub port : ℕ
  pub peers : List Peer
  pub mtu : Option ℕ
  pub fwmark : Option ℕ

pub record HostPeer : Type 0 where
  pub endpoint : Option SocketAddr
  pub last_handshake : Option ℕ
  pub tx_bytes : ℕ
  pub rx_bytes : ℕ

pub record Host : Type 0 where
  pub peers : List HostPeer
  pub listen_port : ℕ
  pub fwmark : Option ℕ

-- A call on the system: it may fail, and it may have changed something also then.
abbrev pub Call : Type 0 → Type 0
Call World = World → Outcome (Unit {0}) × World

pub record Kernel (World : Type 0) : Type 0 where
  pub table : MainTable World
  pub open_api : Text → Call World
  pub create_interface : Text → Call World
  pub remove_interface : Text → Call World
  pub configure_interface : InterfaceConfig → Call World
  pub configure_peer_routing : Text → List Peer → Call World
  pub configure_dns : Text → List IpAddr → List Text → Call World
  pub remove_peer : Text → List ℕ → Call World
  pub configure_peer : Text → Peer → Call World
  pub read_interface : Text → World → Outcome Host
  pub engage : Killswitch → Call World
  pub release : Call World
  -- `ip -4` or `ip -6`: `rule show`, and `rule del` with its arguments.
  pub rule_show : Bool → World → Option Text
  pub rule_del : Bool → List Text → World → Bool × World

pub record LinuxTunnel : Type 0 where
  pub interface : Text
  pub created : Bool
  pub killswitch : Option Killswitch
  pub bypass : Bypass
  pub bypass_plan : List Route

unfoldable pub new_tunnel : Text → LinuxTunnel
new_tunnel interface = record {
  interface = interface;
  created = false;
  killswitch = none;
  bypass = new_bypass;
  bypass_plan = [];
}

unfoldable pub peer_of : TunnelSpec → Peer
peer_of spec = record {
  public_key = spec.client.peer_public_key;
  endpoint = some spec.endpoint;
  preshared_key = spec.client.preshared_key;
  keepalive = spec.client.persistent_keepalive;
  allowed_ips = spec.client.allowed_ips;
}

unfoldable pub config_with : Text → TunnelSpec → List Peer → InterfaceConfig
config_with interface spec peers = record {
  name = interface;
  private_key = spec.client.private_key;
  addresses = spec.client.addresses;
  port = 0;
  peers = peers;
  mtu = spec.client.mtu;
  fwmark = some spec.fwmark;
}

-- The reason that the error gives.
unfoldable pub show_bad_name : BadName → Text
show_bad_name BadName.empty = text "it is empty"
show_bad_name BadName.too_long = text "Linux limits interface names to 15 characters"
show_bad_name BadName.bad_character = text "only letters, digits, '-' and '_' are allowed"

-- A handshake at the epoch is none.
real_handshake : Option ℕ → Option ℕ
real_handshake none = none
real_handshake (some at) = if at == 0 then none else some at

unfoldable pub peer_status : Text → Host → Option HostPeer → TunnelStatus
unfolding real_handshake
peer_status interface host none = record {
  interface = interface;
  up = true;
  endpoint = none;
  last_handshake = none;
  tx_bytes = 0;
  rx_bytes = 0;
  listen_port = host.listen_port;
  fwmark = host.fwmark;
}
peer_status interface host (some p) = record {
  interface = interface;
  up = true;
  endpoint = p.endpoint;
  last_handshake = real_handshake p.last_handshake;
  tx_bytes = p.tx_bytes;
  rx_bytes = p.rx_bytes;
  listen_port = host.listen_port;
  fwmark = host.fwmark;
}

unfoldable pub marks_lookup : Text → Text → Bool
marks_lookup number line =
    contains_text (text "fwmark") line && contains_text (text "lookup " ++ number) line

unfoldable pub marks_suppress : Text → Bool
marks_suppress line = contains_text (text "suppress_prefixlength 0") line

unfoldable pub lookup_args : Text → List Text
lookup_args number = text "not" ∷ text "fwmark" ∷ number ∷ text "table" ∷ number ∷ []

unfoldable pub suppress_args : List Text
suppress_args = text "table" ∷ text "main" ∷ text "suppress_prefixlength" ∷ text "0" ∷ []
