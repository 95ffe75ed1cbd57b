-- ===== src/Protocol/Metadata.antt =====
-- pkg/atomix/raft/protocol/metadata.go: the in-memory metadata store.
use atomix_go_raft.Base.{ℕ, Option, none, some}
use atomix_go_raft.Protocol.Cluster.{MemberId}

pub record Metadata : Type 0 where
  pub term : Option ℕ
  pub vote : Option MemberId

unfoldable pub new_memory_metadata_store : Metadata
new_memory_metadata_store = record { term = none; vote = none }

unfoldable pub store_term : ℕ → Metadata → Metadata
store_term term s = record s { term = some term }

unfoldable pub load_term : Metadata → Option ℕ
load_term s = s.term

unfoldable pub store_vote : Option MemberId → Metadata → Metadata
store_vote vote s = record s { vote = vote }

unfoldable pub load_vote : Metadata → Option MemberId
load_vote s = s.vote
