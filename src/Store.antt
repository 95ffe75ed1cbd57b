-- ===== src/Store.antt =====
-- pkg/atomix/raft/store.
pub mod Log
pub mod Snapshot
