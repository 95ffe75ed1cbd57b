-- ===== src/Protocol/Messages.antt =====
-- The requests and responses of pkg/atomix/raft/protocol/protocol.proto that the roles handle. A
-- response that sets no error carries the first of the enum, NO_LEADER.
use atomix_go_raft.Base.{ℕ, Bool, List}
use atomix_go_raft.Protocol.Cluster.{MemberId}
use atomix_go_raft.Store.Log.{LogEntry}

pub data ResponseStatus : Type 0 where
  ok_status error_status : ResponseStatus

pub data ResponseError : Type 0 where
  no_leader query_failure command_failure application_error illegal_member_state : ResponseError
  unknown_client unknown_session unknown_service closed_session protocol_error : ResponseError
  configuration_error unavailable : ResponseError

pub record PollRequest : Type 0 where
  pub term : ℕ
  pub candidate : MemberId
  pub last_log_index : ℕ
  pub last_log_term : ℕ

pub record PollResponse : Type 0 where
  pub status : ResponseStatus
  pub error : ResponseError
  pub term : ℕ
  pub accepted : Bool

pub record VoteRequest : Type 0 where
  pub term : ℕ
  pub candidate : MemberId
  pub last_log_index : ℕ
  pub last_log_term : ℕ

pub record VoteResponse : Type 0 where
  pub status : ResponseStatus
  pub error : ResponseError
  pub term : ℕ
  pub voted : Bool

pub record AppendRequest : Type 0 where
  pub term : ℕ
  pub leader : MemberId
  pub prev_log_index : ℕ
  pub prev_log_term : ℕ
  pub entries : List LogEntry
  pub commit_index : ℕ

pub record AppendResponse : Type 0 where
  pub status : ResponseStatus
  pub error : ResponseError
  pub term : ℕ
  pub succeeded : Bool
  pub last_log_index : ℕ
