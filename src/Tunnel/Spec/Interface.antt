-- ===== src/Tunnel/Spec/Interface.antt =====
-- The trait `TunnelBackend` of crates/vpnmgr-tunnel/src/lib.rs, over a world of which the tunnel is a
-- part: what the daemon takes of the platform's tunnel.
use vpnmgr.Common.{List}
use vpnmgr.Common.Text.{Text}
use vpnmgr.Tunnel.Spec.{TunnelSpec, TunnelStatus}
use vpnmgr.Tunnel.Bypass.{Route}
use vpnmgr.Tunnel.Killswitch.{Killswitch}

-- The result of a call outside the daemon: a value, or the text of an error.
pub data Outcome (A : Type 0) : Type 0 where
  done : A → Outcome A
  failed : Text → Outcome A

pub record Backend (World : Type 0) : Type 1 where
  pub Tunnel : Type 0
  -- `PlatformTunnel::new`, `with_bypass` and `with_killswitch`.
  pub open_tunnel : Text → World → Outcome Tunnel × World
  pub with_bypass : List Route → Tunnel → Tunnel
  pub with_killswitch : Killswitch → Tunnel → Tunnel
  pub up : TunnelSpec → Tunnel → World → Outcome (Unit {0}) × Tunnel × World
  pub switch_endpoint : TunnelSpec → Tunnel → World → Outcome (Unit {0}) × Tunnel × World
  pub down : Tunnel → World → Outcome (Unit {0}) × Tunnel × World
  pub status : Tunnel → World → Outcome TunnelStatus
  -- `Drop`.
  pub close : Tunnel → World → World
