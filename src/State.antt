-- ===== src/State.antt =====
-- pkg/atomix/raft/state.
pub mod Manager
