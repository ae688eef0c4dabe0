-- ===== src/Tray.antt =====
-- The trays, crates/vpnmgr-tray: unprivileged clients of the daemon, one for Linux and one for Windows.
mod Tests
pub mod Format
pub mod Client
pub mod Linux
pub mod Windows
