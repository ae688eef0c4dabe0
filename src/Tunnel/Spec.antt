-- ===== src/Tunnel/Spec.antt =====
-- crates/vpnmgr-tunnel/src/lib.rs: what a tunnel is asked for, and what it reports.
pub mod Interface
pub mod Restores
use vpnmgr.Common.{
  ℕ, ◌+◌, ◌-◌, ◌≤◌, ◌<◌, Bool, true, false, not, ◌&&◌, ◌||◌, Option, none, some, List, [], ◌∷◌,
  ◌==◌, leb, ltb, if◌then◌else◌, length, all, is_empty, ◌≡◌, ◌↔◌, arith,
}
use vpnmgr.Common.Text.{Text, text}
use vpnmgr.Core.Net.{SocketAddr}
use vpnmgr.Core.Config.{ClientConfig}

abbrev pub default_fwmark : ℕ
default_fwmark = 51820

abbrev pub default_interface : Text
default_interface = text "vpnmgr0"

pub record TunnelSpec : Type 0 where
  pub interface : Text
  pub client : ClientConfig
  pub endpoint : SocketAddr
  pub fwmark : ℕ

-- `TunnelSpec::new`.
abbrev pub spec_for : ClientConfig → SocketAddr → TunnelSpec
spec_for client endpoint = record {
  interface = default_interface;
  client = client;
  endpoint = endpoint;
  fwmark = default_fwmark;
}

pub data BadName : Type 0 where
  empty too_long bad_character : BadName

abbrev is_name_char : ℕ → Bool
is_name_char c =
    (leb b'a' c && leb c b'z')
    || (leb b'A' c && leb c b'Z')
    || (leb b'0' c && leb c b'9')
    || c == b'-'
    || c == b'_'

-- `str::len` counts the bytes of UTF-8.
utf8_len : ℕ → ℕ
utf8_len c = if ltb c 128 then 1 else if ltb c 2048 then 2 else if ltb c 65536 then 3 else 4

unfoldable pub byte_length : Text → ℕ
unfolding utf8_len
byte_length [] = 0
byte_length (c ∷ cs) = utf8_len c + byte_length cs

pub record TunnelStatus : Type 0 where
  pub interface : Text
  pub up : Bool
  pub endpoint : Option SocketAddr
  pub last_handshake : Option ℕ
  pub tx_bytes : ℕ
  pub rx_bytes : ℕ
  pub listen_port : ℕ
  pub fwmark : Option ℕ

unfoldable pub validate : TunnelSpec → Option BadName
unfolding byte_length
validate spec =
    if is_empty spec.interface
    then some BadName.empty
    else if leb 16 (byte_length spec.interface)
    then some too_long
    else if not (all is_name_char spec.interface)
    then some bad_character
    else none

-- Times are nanoseconds since the epoch. A handshake in the future is clock skew, and no fault.
unfoldable pub is_healthy : TunnelStatus → ℕ → ℕ → Bool
is_healthy status now max_age = elim status.last_handshake [
  | none ↦ false
  | some at ↦ if ltb now at then true else leb (now - at) max_age
]
