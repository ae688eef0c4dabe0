-- ===== src/Tunnel.antt =====
-- crates/vpnmgr-tunnel: the tunnel, the routes around it and the kill switch.
pub mod Spec
pub mod Bypass
pub mod Killswitch
pub mod Command
pub mod WindowsKillswitch
pub mod Device
pub mod Halves
pub mod WgShow
pub mod Windows
pub mod Linux
pub mod Tests
