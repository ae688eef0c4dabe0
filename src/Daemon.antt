-- ===== src/Daemon.antt =====
-- crates/vpnmgrd: the daemon's state machine and its tuner.
pub mod Ranked
pub mod Tuner
pub mod Env
pub mod Steps
pub mod Sweep
pub mod Connect
pub mod Select
pub mod Best
pub mod Tune
pub mod Report
pub mod Speed
pub mod Answer
pub mod Handle
pub mod Load
pub mod Tests
