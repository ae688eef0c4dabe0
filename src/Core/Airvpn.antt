-- ===== src/Core/Airvpn.antt =====
-- crates/vpnmgr-core/src/airvpn.rs: the provider's server list. Its JSON is decoded by serde, so the
-- decoded record is where the model starts.
use vpnmgr.Common.{
  ℕ, ◌-◌, Bool, true, false, Option, none, some, List, [], ◌∷◌, ◌==◌, if◌then◌else◌, retain, length,
  find, filter_map,
}
use vpnmgr.Common.Text.{Text, text, text_eq, eq_ignore_case}
use vpnmgr.Common.Float.{Float, of_nat, minimum, ◌/f◌}
use vpnmgr.Core.Net.{v4, SocketAddr}

pub data Health : Type 0 where
  healthy error unknown : Health

pub record Server : Type 0 where
  pub name : Text
  pub country_name : Text
  pub country_code : Text
  pub location : Text
  pub continent : Text
  pub bw : ℕ
  pub bw_max : ℕ
  pub users : ℕ
  pub load : ℕ
  pub health : Health
  pub warning : Option Text
  pub wg_ipv4 : ℕ
  pub wg_ipv4_alt : Option ℕ
  pub wg_ipv6 : Option ℕ

abbrev pub wg_port : ℕ
wg_port = 1637

abbrev pub wg_entries : List ℕ
wg_entries = 1 ∷ 3 ∷ []

abbrev health_ok : Health → Bool
health_ok Health.healthy = true
health_ok _ = false

unfoldable pub is_healthy : Server → Bool
is_healthy s = health_ok s.health

unfoldable pub wg_endpoint : Server → ℕ → SocketAddr
wg_endpoint s port = record { ip = v4 s.wg_ipv4; port = port }

-- Entries 2 and 4 carry OpenVPN only.
entry_address : Server → ℕ → Option ℕ
entry_address s entry =
    if entry == 1 then some s.wg_ipv4 else if entry == 3 then s.wg_ipv4_alt else none

unfoldable pub wg_endpoint_for_entry : Server → ℕ → ℕ → Option SocketAddr
unfolding entry_address
wg_endpoint_for_entry s entry port = elim (entry_address s entry) [
  | none ↦ none
  | some ip ↦ some (record { ip = v4 ip; port = port })
]

abbrev tagged : ℕ → Option SocketAddr → Option (ℕ × SocketAddr)
tagged entry none = none
tagged entry (some a) = some (entry, a)

unfoldable pub wg_endpoints : Server → List ℕ → ℕ → List (ℕ × SocketAddr)
unfolding wg_endpoint_for_entry
wg_endpoints s entries port = filter_map (λ e. tagged e (wg_endpoint_for_entry s e port)) entries

-- Spare capacity, 0 where the capacity is unknown.
unfoldable pub headroom_mbps : Server → ℕ
headroom_mbps s = if s.bw_max == 0 then 0 else s.bw_max - s.bw

unfoldable pub load_fraction : {F : Type 0} ⦃fl : Float F⦄ → Server → F
load_fraction s = minimum (of_nat s.load) (of_nat 100) /f of_nat 100

pub record ServerList : Type 0 where
  pub servers : List Server
  pub result : Option Text

pub data Decoded : Type 0 where
  accepted : ServerList → Decoded
  api_result : Text → Decoded

-- The check of `result` in `ServerList::from_json`: absence is no error.
check_result : Option Text → ServerList → Decoded
check_result none l = accepted l
check_result (some r) l = if text_eq r (text "ok") then accepted l else api_result r

pub from_json : ServerList → Decoded
unfolding check_result
from_json l = check_result l.result l

pub healthy_servers : ServerList → List Server
healthy_servers l = retain is_healthy l.servers

pub healthy_count : ServerList → ℕ
unfolding healthy_servers
healthy_count l = length (healthy_servers l)

unfoldable pub get : ServerList → Text → Option Server
get l name = find (λ s. eq_ignore_case s.name name) l.servers
