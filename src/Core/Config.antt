-- ===== src/Core/Config.antt =====
-- crates/vpnmgr-core/src/config.rs: the settings as records.
pub mod Validate
pub mod Targets
use vpnmgr.Common.{ℕ, ◌*◌, ◌+◌, ◌^◌, Bool, true, false, Option, none, some, List, [], ◌∷◌}
use vpnmgr.Common.Text.{Text, text}
use vpnmgr.Common.Float.{Float}
use vpnmgr.Core.Net.{IpAddr, v4, v6, Cidr}
use vpnmgr.Core.Airvpn.{wg_port}

pub record Filters : Type 0 where
  pub country_whitelist : List Text
  pub country_blacklist : List Text
  pub server_whitelist : List Text
  pub server_blacklist : List Text
  pub max_load : ℕ

pub data SwitchPolicy : Type 0 where
  ask auto never : SwitchPolicy

pub record Weights (F : Type 0) : Type 0 where
  pub rtt : F
  pub load : F
  pub headroom : F

pub record Autotune (F : Type 0) : Type 0 where
  pub interval_minutes : ℕ
  pub max_latency_ms : ℕ
  pub min_mbps : F
  pub accept_fraction : F
  pub measure_before_connect : Bool
  pub target_mbps : Option F
  pub headroom_margin : F
  pub verify_candidates : ℕ
  pub switch_policy : SwitchPolicy
  pub improvement_threshold : F
  pub weights : Weights F

pub record Probe : Type 0 where
  pub concurrency : ℕ
  pub timeout_ms : ℕ
  pub samples : ℕ

pub record Killswitch : Type 0 where
  pub enabled : Bool
  pub allow_lan : Bool

pub record Throughput : Type 0 where
  pub url : Text
  pub bytes : ℕ
  pub timeout_secs : ℕ
  pub select_bytes : ℕ

pub record Bypass : Type 0 where
  pub cidrs : List Text
  pub hosts : List Text
  pub other_vpns : Bool
  pub lan : Bool

-- `[provider.airvpn]`; keys stand by path, the peer's public key as its bytes.
pub record AirvpnProvider : Type 0 where
  pub private_key_file : Text
  pub preshared_key_file : Option Text
  pub address : List Cidr
  pub dns : List IpAddr
  pub search_domains : List Text
  pub peer_public_key : List ℕ
  pub port : ℕ
  pub mtu : Option ℕ
  pub persistent_keepalive : Option ℕ
  pub allowed_ips : List Cidr

pub record Config (F : Type 0) : Type 0 where
  pub provider : AirvpnProvider
  pub filters : Filters
  pub autotune : Autotune F
  pub probe : Probe
  pub killswitch : Killswitch
  pub throughput : Throughput
  pub bypass : Bypass

unfoldable pub default_allowed_ips : List Cidr
default_allowed_ips = record { addr = v4 0; prefix = 0 } ∷ record { addr = v6 0; prefix = 0 } ∷ []

abbrev pub default_filters : Filters
default_filters = record {
  country_whitelist = [];
  country_blacklist = [];
  server_whitelist = [];
  server_blacklist = [];
  max_load = 85;
}

abbrev pub default_probe : Probe
default_probe = record { concurrency = 32; timeout_ms = 1500; samples = 3 }

abbrev pub default_killswitch : Killswitch
default_killswitch = record { enabled = false; allow_lan = true }

abbrev pub default_bypass : Bypass
default_bypass = record { cidrs = []; hosts = []; other_vpns = true; lan = true }

abbrev pub default_throughput : Throughput
default_throughput = record {
  url = text "https://speed.cloudflare.com/__down?bytes=";
  bytes = 25_000_000;
  timeout_secs = 30;
  select_bytes = 8_000_000;
}

module _ {F : Type 0} ⦃fl : Float F⦄ where
  unfoldable pub default_weights : Weights F
  default_weights = record {
    rtt = fl.decimal 6 1;
    load = fl.decimal 1 1;
    headroom = fl.decimal 3 1;
  }

  unfoldable pub default_autotune : Autotune F
  unfolding default_weights
  default_autotune = record {
    interval_minutes = 30;
    max_latency_ms = 80;
    min_mbps = fl.decimal 50 0;
    accept_fraction = fl.decimal 6 1;
    measure_before_connect = true;
    target_mbps = none;
    headroom_margin = fl.decimal 2 0;
    verify_candidates = 5;
    switch_policy = ask;
    improvement_threshold = fl.decimal 25 2;
    weights = default_weights;
  }

-- Server-independent credentials and interface settings, `wgconf::ClientConfig`.
pub record ClientConfig : Type 0 where
  pub private_key : List ℕ
  pub addresses : List Cidr
  pub dns : List IpAddr
  pub search_domains : List Text
  pub mtu : Option ℕ
  pub peer_public_key : List ℕ
  pub preshared_key : Option (List ℕ)
  pub allowed_ips : List Cidr
  pub persistent_keepalive : Option ℕ

abbrev if_held : Option (List ℕ) → Text → Option Text
if_held none path = none
if_held (some key) path = some path

module _ {F : Type 0} ⦃fl : Float F⦄ where
  -- `Config::from_imported`.
  unfoldable pub from_imported : ClientConfig → Text → Text → Config F
  unfolding default_autotune
  from_imported client key_file psk_file = record {
    provider = record {
      private_key_file = key_file;
      preshared_key_file = if_held client.preshared_key psk_file;
      address = client.addresses;
      dns = client.dns;
      search_domains = client.search_domains;
      peer_public_key = client.peer_public_key;
      port = wg_port;
      mtu = client.mtu;
      persistent_keepalive = client.persistent_keepalive;
      allowed_ips = client.allowed_ips;
    };
    filters = default_filters;
    autotune = default_autotune;
    probe = default_probe;
    killswitch = default_killswitch;
    throughput = default_throughput;
    bypass = default_bypass;
  }

-- What `read_key` makes of a key file: its bytes, or an error that names the file.
pub data KeyFile : Type 0 where
  key : List ℕ → KeyFile
  unreadable : Text → KeyFile

pub data Loaded : Type 0 where
  loaded : ClientConfig → Loaded
  failed : Text → Loaded

assemble : AirvpnProvider → List ℕ → Option (List ℕ) → ClientConfig
assemble p private psk = record {
  private_key = private;
  addresses = p.address;
  dns = p.dns;
  search_domains = p.search_domains;
  mtu = p.mtu;
  peer_public_key = p.peer_public_key;
  preshared_key = psk;
  allowed_ips = p.allowed_ips;
  persistent_keepalive = p.persistent_keepalive;
}

-- The preshared key is read only if the config names a file for it.
with_preshared : (Text → KeyFile) → AirvpnProvider → List ℕ → Option Text → Loaded
unfolding assemble
with_preshared read p private none = loaded (assemble p private none)
with_preshared read p private (some path) = elim (read path) [
  | key psk ↦ loaded (assemble p private (some psk))
  | unreadable e ↦ failed e
]

-- `Config::load_client_config`, over the reading of key files.
unfoldable pub load_client_config : {F : Type 0} → (Text → KeyFile) → Config F → Loaded
unfolding with_preshared
load_client_config read c = elim (read c.provider.private_key_file) [
  | key private ↦ with_preshared read c.provider private c.provider.preshared_key_file
  | unreadable e ↦ failed e
]
