-- ===== src/Roles/Commands.antt =====
-- Commands and queries: Command and Query of the leader (roles/leader.go) and of the other roles
-- (roles/passive.go), and what a role does with the requests that no role handles (roles/role.go). Time is
-- an argument, and so are the results of the state machine, the outcome of the leader's commit and of its
-- heartbeats, and the leader's answers to a query that is passed on.
pub mod Results
pub mod Routes
use atomix_go_raft.Base.{
  ℕ, zero, suc, ◌+◌, Bool, true, false, not, String, Option, none, some, List, [], ◌∷◌, ltb,
  if◌then◌else◌,
}
use atomix_go_raft.Store.Log.{Entry, LogEntry, Log, Time, command, query, append, last_index}
use atomix_go_raft.Protocol.Cluster.{MemberId}
use atomix_go_raft.Protocol.Raft.{Raft, Pointer, Status, ready, same_status}
use atomix_go_raft.Protocol.Messages.{
  ResponseStatus, ok_status, error_status, ResponseError, no_leader, illegal_member_state,
  application_error, protocol_error,
}
use atomix_go_raft.Protocol.Streams.{
  ReadConsistency, sequential, linearizable_lease, linearizable, CommandRequest, CommandResponse,
  QueryRequest, QueryResponse, CallError, Streamed, failed, responded, Answer, call_fails, streams,
}
use atomix_go_raft.Roles.Server.{Server}

-- A result of the state machine: the bytes of its value, if it has the type of bytes, and its error. The
-- value of an error of a unary operation is a nil of that type, which has no bytes.
pub record Result : Type 0 where
  pub value : Option (List ℕ)
  pub error : Option String

-- How a handler ends.
pub data End : Type 0 where
  returns : End
  fails : CallError → End
  panics : End

-- The requests that a role without a handler for them refuses.
pub data RequestKind : Type 0 where
  join leave configure reconfigure poll vote transfer append_entries install command_kind
        query_kind :
      RequestKind

pub record Refusal : Type 0 where
  pub status : ResponseStatus
  pub error : ResponseError

abbrev refuse : ResponseError → Refusal
refuse e = record { status = error_status; error = e }

-- The handlers of `raftRole`.
unfoldable pub handle_by_default : RequestKind → Refusal
handle_by_default join = refuse illegal_member_state
handle_by_default leave = refuse illegal_member_state
handle_by_default configure = refuse illegal_member_state
handle_by_default reconfigure = refuse illegal_member_state
handle_by_default poll = refuse illegal_member_state
handle_by_default vote = refuse illegal_member_state
handle_by_default transfer = refuse illegal_member_state
handle_by_default append_entries = refuse illegal_member_state
handle_by_default install = refuse illegal_member_state
handle_by_default command_kind = refuse illegal_member_state
handle_by_default query_kind = refuse illegal_member_state

abbrev pub leader_name : Option Pointer → MemberId
leader_name none = ""
leader_name (some p) = p.id

-- `Command` of a role that does not lead: the only response names the leader.
unfoldable pub passive_command : Raft → CommandResponse
passive_command r = record {
  status = error_status;
  error = illegal_member_state;
  message = "";
  leader = leader_name r.leader;
  term = r.term;
  members = [];
  output = [];
}

-- `Command` of the leader: first the entry, under the write lock.
unfoldable pub append_command : CommandRequest → Time → Server → Entry × Server
append_command request now s =
    let o =
      append (record { term = s.raft.term; timestamp = now; payload = command request.value })
        s.log in
    (o.0, record s { log = o.1 })

-- A response to an output, with the state at that time. The output's value is taken for bytes in any case,
-- which panics if it has another type.
unfoldable pub command_response : Raft → Result → Option CommandResponse
command_response r result = elim result.value [
  | none ↦ none
  | some bytes ↦ some (record {
    status = elim result.error [ none ↦ ok_status | some text ↦ error_status ];
    error = elim result.error [ none ↦ no_leader | some text ↦ application_error ];
    message = elim result.error [ none ↦ "" | some text ↦ text ];
    leader = r.cluster.member;
    term = r.term;
    members = r.cluster.member_ids;
    output = bytes;
  })
]

unfoldable pub command_responses : List (Raft × Result) → List CommandResponse × End
command_responses [] = ([], returns)
command_responses ((r, result) ∷ rest) = elim (command_response r result) [
  | none ↦ ([], panics)
  | some response ↦ let o = command_responses rest in (response ∷ o.0, o.1)
]

-- The responses, once the commit of the entry has ended, with an error or not.
unfoldable pub leader_command : Bool → List (Raft × Result) → List CommandResponse × End
leader_command committed results = if committed then command_responses results else (
  record {
    status = error_status;
    error = protocol_error;
    message = "";
    leader = "";
    term = 0;
    members = [];
    output = [];
  }
      ∷ [],
  returns,
)

-- The entry of a query has the index of the last entry of the log, and is not stored.
unfoldable pub query_entry : QueryRequest → Time → Server → Entry
query_entry request now s = record {
  index = last_index s.log;
  entry = record { term = s.raft.term; timestamp = now; payload = query request.value };
}

-- `none` for a value that is not bytes, which panics.
unfoldable pub query_response : Result → Option QueryResponse
query_response result = elim result.error [
  | some text ↦
      some (record { status = error_status; error = no_leader; message = text; output = [] })
  | none ↦ elim result.value [
    | none ↦ none
    | some bytes ↦
        some (record { status = ok_status; error = no_leader; message = ""; output = bytes })
  ]
]

unfoldable pub apply_query : List Result → List QueryResponse × End
apply_query [] = ([], returns)
apply_query (result ∷ rest) = elim (query_response result) [
  | none ↦ ([], panics)
  | some response ↦ let o = apply_query rest in (response ∷ o.0, o.1)
]

-- Each result of a linearizable query waits for a heartbeat, which may fail.
unfoldable pub query_linearizable : List (Option CallError × Result) → List QueryResponse × End
query_linearizable [] = ([], returns)
query_linearizable ((some e, result) ∷ rest) = ([], fails e)
query_linearizable ((none, result) ∷ rest) = elim (query_response result) [
  | none ↦ ([], panics)
  | some response ↦ let o = query_linearizable rest in (response ∷ o.0, o.1)
]

-- The leader's choice: whether the results wait for heartbeats.
unfoldable pub waits_for_heartbeats : ReadConsistency → Bool
waits_for_heartbeats linearizable = true
waits_for_heartbeats linearizable_lease = false
waits_for_heartbeats sequential = false

-- What a role that does not lead makes of a query: it applies an entry, or passes the query on.
pub data Route : Type 0 where
  applies : Entry → Route
  forwards : Option Pointer → Route

abbrev pub is_sequential : ReadConsistency → Bool
is_sequential sequential = true
is_sequential _ = false

unfoldable pub passive_query : QueryRequest → Time → Server → Route
passive_query request now s =
    if not (same_status s.raft.status ready)
    then forwards s.raft.leader
    else if is_sequential request.read_consistency
    then (if ltb (last_index s.log) s.raft.commit_index
        then forwards s.raft.leader
        else applies (query_entry request now s))
    else forwards s.raft.leader

unfoldable pub forward_query :
    Option Pointer → (MemberId → Answer QueryResponse) → List (Streamed QueryResponse) × End
forward_query none answers = (
  responded (record { status = error_status; error = no_leader; message = ""; output = [] }) ∷ [],
  returns,
)
forward_query (some p) answers = elim (answers p.id) [
  | call_fails e ↦ ([], fails e)
  | streams ms ↦ (ms, returns)
]
