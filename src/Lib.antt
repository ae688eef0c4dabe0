-- ===== src/Lib.antt =====
-- vpnmgr: a daemon that keeps a WireGuard tunnel to one of a provider's servers, chooses the server by
-- measuring, and proposes or makes a move when the connection is slow.
--
-- The parts and the files that model them:
-- Common is for numbers, lists, text, sorting and floats. A float is a type with the operations that the
-- code uses (Common/Float); the comparisons are those of IEEE 754, NaN included, and what needs an
-- order takes the laws IsOrdered. Fixed is an instance to run the definitions with.
-- Core is crates/vpnmgr-core. Airvpn is airvpn.rs, Config with Targets and Validate is config.rs,
-- Filter is filter.rs, Score is score.rs, Net holds the addresses of wgconf.rs, Wgconf with Parse is its
-- parser, Key is key.rs, Render is render.rs.
-- Probe is crates/vpnmgr-probe/src/lib.rs, `probe`, `probe_many` and, in Probe/Sweep, `sweep`. The
-- probes run one after the other here; the code runs them side by side and returns them in order.
-- Tunnel is crates/vpnmgr-tunnel. Spec is lib.rs, with the trait `TunnelBackend` as the record
-- Backend of Spec/Interface; Bypass is bypass.rs on Linux; Killswitch with Nft is killswitch.rs;
-- Linux and Device are linux.rs, whose `linux_backend` fills the record Backend over a record Kernel
-- of the calls on the system. Windows with Command, WgShow and Halves is windows.rs, whose
-- `windows_backend` fills it over the record System; WindowsKillswitch is killswitch_windows.rs.
-- Daemon is crates/vpnmgrd. Tuner is tuner.rs; Env holds the State of state.rs, its errors and the
-- monad in which an error ends an operation and keeps what was changed; Sweep, Connect, Select, Best,
-- Tune, Answer, Report, Speed and Load hold the operations of state.rs; Handle is `handle`, `scheduler` and
-- `announce` of main.rs; Ranked holds the records of crates/vpnmgr-ipc/src/lib.rs.
-- Tray is crates/vpnmgr-tray. Format is format.rs; Linux with Menu, Worker and Session is linux.rs,
-- Windows with Menu and Loop is windows.rs; Client holds what both share, with the texts of the
-- daemon's errors. The Linux tray runs over a record Desktop of the socket and the programs, which
-- Linux/Worker/Served fills with the daemon of Daemon/Handle.
--
-- A client's request reaches `handle`, which calls one operation under the lock on the state. The
-- operations filter and rank with Core, measure with Probe, and act through a Backend. All that is not
-- the program's (the backend's kernel, the provider's server, the network, the clock, files, nft, ip)
-- is a field of the record Env over a type of worlds, so a theorem holds for every behaviour of them.
--
-- Times are nanoseconds. Two loops are not structural: the wait for a handshake counts one round
-- more than there are pauses in the timeout, and `prune_rule` one for each copy of the rule at the
-- start. A value that is dropped in the code runs the backend's `close` where it holds a tunnel.
-- Text is a list of code points.
--
-- Not modelled: JSON, TOML and socket I/O, the handshake's cryptography, the Windows variant of the
-- route commands, the command line, the trays' toolkits with their locks and the drawing of an icon,
-- and log lines. Integers are unbounded here: a product such as `interval_minutes * 60`, which could
-- wrap in the code at absurd settings, does not.
--
-- Each module's proofs stand in the modules below it, named for what they are about; the Tests modules
-- hold concrete runs.
pub mod Common
pub mod Core
pub mod Probe
pub mod Tunnel
pub mod Daemon
pub mod Tray
