-- ===== src/Protocol/Streams.antt =====
-- protocol/protocol.go and protocol.proto: commands and queries, and the streams that carry them.
use atomix_go_raft.Base.{ℕ, Bool, true, false, String, List}
use atomix_go_raft.Protocol.Cluster.{MemberId}
use atomix_go_raft.Protocol.Messages.{
  ResponseStatus, ok_status, error_status, ResponseError, illegal_member_state,
}

pub data ReadConsistency : Type 0 where
  sequential linearizable_lease linearizable : ReadConsistency

pub record CommandRequest : Type 0 where
  pub value : List ℕ

pub record CommandResponse : Type 0 where
  pub status : ResponseStatus
  pub error : ResponseError
  pub message : String
  pub leader : MemberId
  pub term : ℕ
  pub members : List MemberId
  pub output : List ℕ

pub record QueryRequest : Type 0 where
  pub value : List ℕ
  pub read_consistency : ReadConsistency

pub record QueryResponse : Type 0 where
  pub status : ResponseStatus
  pub error : ResponseError
  pub message : String
  pub output : List ℕ

-- An error of a call: what `status.FromError` finds in it, whether its code is `Unavailable`, and its text.
pub record CallError : Type 0 where
  pub unavailable : Bool
  pub text : String

-- A message of a stream: an error, or else a response.
pub data Streamed (A : Type 0) : Type 0 where
  failed : CallError → Streamed A
  responded : A → Streamed A

-- What a call of a member gives: an error, or a stream of responses.
pub data Answer (A : Type 0) : Type 0 where
  call_fails : CallError → Answer A
  streams : List (Streamed A) → Answer A

abbrev pub is_ok : ResponseStatus → Bool
is_ok ok_status = true
is_ok error_status = false

abbrev pub is_illegal_member_state : ResponseError → Bool
is_illegal_member_state illegal_member_state = true
is_illegal_member_state _ = false
