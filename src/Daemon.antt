-- ===== src/Daemon.antt =====
-- crates/daemon: the daemon that serves the sessions to its clients, and keeps their records.
pub mod Domain
pub mod Store
pub mod Bell
pub mod Monitor
pub mod Manager
pub mod Worktrees
pub mod Lifecycle
pub mod Creation
pub mod Auth
pub mod Samples
pub mod Repository
pub mod HistoryRing
