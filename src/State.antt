-- ===== src/State.antt =====
-- vermouth/context.go, log_entry.go, log_entry_structs.go, log_entry_handler.go, raft_info.go and
-- vermouth_state_manager.go: the table of proxies, the commands that change it, and the two ways in
-- which a command reaches it, at once in stand mode and through the raft log in cluster mode.
pub mod LogEntry
pub mod Bodies
pub mod Snapshot
pub mod Restart
pub mod Crash
pub mod Context
pub mod Stand
pub mod Manager
pub mod Command
pub mod Events
pub mod Agreement
pub mod Guards
pub mod Errors
pub mod Hosts
pub mod Missing
mod SnapshotTests
pub mod Tests
