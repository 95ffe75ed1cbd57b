-- ===== src/Protocol.antt =====
-- pkg/atomix/raft/protocol.
pub mod Cluster
pub mod Metadata
pub mod Raft
pub mod Messages
pub mod Streams
