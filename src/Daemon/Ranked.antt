-- ===== src/Daemon/Ranked.antt =====
-- crates/vpnmgr-ipc/src/lib.rs: the records that the daemon keeps and hands out.
use vpnmgr.Common.{ℕ, Option, Bool}
use vpnmgr.Common.Text.{Text}
use vpnmgr.Core.Net.{SocketAddr}

pub record RankedServer (F : Type 0) : Type 0 where
  pub name : Text
  pub country_code : Text
  pub country_name : Text
  pub location : Text
  pub load : ℕ
  pub rtt_ms : F
  pub score : F
  pub entry : ℕ
  pub endpoint : SocketAddr
  pub mbps : Option F
  pub mbps_age_secs : Option ℕ
  pub headroom_mbps : ℕ

pub record SweepSummary (F : Type 0) : Type 0 where
  pub probed : ℕ
  pub reachable : ℕ
  pub elapsed_ms : ℕ
  pub age_secs : ℕ
  pub best : Option (RankedServer F)
  pub all_unreachable : Bool

pub record PendingSwitch (F : Type 0) : Type 0 where
  pub to : RankedServer F
  pub reason : Text
  pub age_secs : ℕ

pub record TuneReport (F : Type 0) : Type 0 where
  pub summary : Text
  pub switched : Bool
  pub nothing_reachable : Bool
  pub pending : Option (PendingSwitch F)

pub record SpeedSample (F : Type 0) : Type 0 where
  pub mbps : F
  pub bytes : ℕ
  pub elapsed_ms : ℕ
  pub truncated : Bool

pub record SpeedReport (F : Type 0) : Type 0 where
  pub tunnelled : Option (SpeedSample F)
  pub direct : Option (SpeedSample F)
  pub server : Option Text
  pub min_mbps : F
  pub meets_target : Bool
  pub verdict : Text

pub record KillswitchReport : Type 0 where
  pub engaged : Bool
  pub configured : Bool
  pub dropped : Option ℕ

pub record ServerSummary : Type 0 where
  pub name : Text
  pub country_code : Text
  pub country_name : Text
  pub location : Text
  pub load : ℕ
  pub users : ℕ
  pub healthy : Bool
  pub headroom_mbps : ℕ

pub record StatusReport (F : Type 0) : Type 0 where
  pub connected : Bool
  pub interface : Text
  pub server : Option Text
  pub location : Option Text
  pub country_code : Option Text
  pub endpoint : Option SocketAddr
  pub entry : Option ℕ
  pub last_handshake_secs : Option ℕ
  pub healthy : Bool
  pub tx_bytes : ℕ
  pub rx_bytes : ℕ
  pub last_sweep : Option (SweepSummary F)
  pub pending_switch : Option (PendingSwitch F)
  pub last_tune : Option Text
  pub next_tune_secs : Option ℕ
  pub config_path : Option Text
  pub baseline_mbps : Option F
  pub baseline_age_secs : Option ℕ
