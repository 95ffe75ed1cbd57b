-- ===== src/Roles.antt =====
-- pkg/atomix/raft/roles.
pub mod Transition
pub mod Steps
pub mod Server
pub mod Election
pub mod Candidacy
pub mod Append
pub mod Appender
pub mod Replication
pub mod Install
pub mod Commands
pub mod Driver
pub mod Heartbeats
pub mod Polling
