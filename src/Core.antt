-- ===== src/Core.antt =====
-- crates/vpnmgr-core: provider data, configuration, filtering and ranking.
pub mod Net
pub mod Key
pub mod Wgconf
pub mod Render
pub mod Airvpn
pub mod Config
pub mod Filter
pub mod Score
pub mod Tests
