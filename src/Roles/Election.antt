-- ===== src/Roles/Election.antt =====
-- The handlers of poll and vote requests of every role (roles/active.go, follower.go, candidate.go,
-- leader.go), as functions from the state to the state and the response. A deferred `SetRole` is the last
-- call of its handler.
pub mod Votes
pub mod Record
pub mod Restarts
use atomix_go_raft.Base.{
  ℕ, Bool, true, false, not, ◌&&◌, Option, none, some, ltb, ◌==◌, if◌then◌else◌, str_eq,
}
use atomix_go_raft.Store.Log.{Log, last_entry}
use atomix_go_raft.Protocol.Cluster.{MemberId, get_member, is_some}
use atomix_go_raft.Protocol.Raft.{
  Raft, Error, set_last_voted_for, spawn, reset_heartbeat_timeout, RoleType, follower, candidate,
  leader, Role,
}
use atomix_go_raft.Protocol.Messages.{
  PollRequest, PollResponse, VoteRequest, VoteResponse, ok_status, error_status, no_leader,
  illegal_member_state,
}
use atomix_go_raft.Roles.Transition.{become_follower}
use atomix_go_raft.Roles.Server.{is_nil, update_term_and_leader}

-- `isLogUpToDate`.
unfoldable pub is_log_up_to_date : ℕ → ℕ → Log → Bool
is_log_up_to_date last_index last_term l = elim (last_entry l) [
  | none ↦ true
  | some e ↦
      if ltb last_term e.entry.term
      then false
      else if last_term == e.entry.term && ltb last_index e.index
      then false
      else true
]

abbrev pub poll_response : Bool → Raft → PollResponse
poll_response accepted r = record {
  status = ok_status;
  error = no_leader;
  term = r.term;
  accepted = accepted;
}

unfoldable pub handle_poll : PollRequest → Log → Raft → PollResponse
handle_poll request l r =
    if ltb request.term r.term
    then poll_response false r
    else if is_log_up_to_date request.last_log_index request.last_log_term l
    then poll_response true r
    else poll_response false r

-- `Poll` of a follower and of a candidate.
unfoldable pub active_poll : PollRequest → Log → Raft → Raft × PollResponse
active_poll request l r =
    let r' = (update_term_and_leader request.term none r).0 in (r', handle_poll request l r')

unfoldable pub leader_poll : PollRequest → Raft → Raft × PollResponse
leader_poll request r = (r, poll_response false r)

abbrev pub vote_response : Bool → Raft → VoteResponse
vote_response voted r = record {
  status = ok_status;
  error = no_leader;
  term = r.term;
  voted = voted;
}

-- The vote that `handleVote` casts when none was cast in the term.
unfoldable pub cast : VoteRequest → Raft → Raft × VoteResponse
cast request r =
    let (r', err) = set_last_voted_for request.candidate r in
    elim err [ none ↦ (r', vote_response true r') | some e ↦ (r', vote_response false r') ]

unfoldable pub handle_vote : VoteRequest → Log → Raft → Raft × VoteResponse
unfolding cast
handle_vote request l r =
    if ltb request.term r.term
    then (r, vote_response false r)
    else if not (is_nil r.leader)
    then (r, vote_response false r)
    else if not (is_some (get_member request.candidate r.cluster))
    then (r, vote_response false r)
    else (elim r.last_voted_for [
      | none ↦
          if is_log_up_to_date request.last_log_index request.last_log_term l
          then cast request r
          else (r, vote_response false r)
      | some id ↦ (r, vote_response (str_eq id request.candidate) r)
    ])

abbrev pub step_down_if : Bool → Raft → Raft
step_down_if b r = if b then become_follower r else r

-- `Vote` of an active role that does not override it.
unfoldable pub active_vote : VoteRequest → Log → Raft → Raft × VoteResponse
active_vote request l r =
    let (r₁, updated) = update_term_and_leader request.term none r in
    let (r₂, response) = handle_vote request l r₁ in (step_down_if updated r₂, response)

-- The goroutine that resets the heartbeat timeout is started before the deferred change of role.
unfoldable pub follower_vote : VoteRequest → Log → Raft → Raft × VoteResponse
follower_vote request l r =
    let (r₁, updated) = update_term_and_leader request.term none r in
    let (r₂, response) = handle_vote request l r₁ in
    let r₃ = if response.voted then spawn reset_heartbeat_timeout r₂ else r₂ in
    (step_down_if updated r₃, response)

unfoldable pub candidate_vote : VoteRequest → Log → Raft → Raft × VoteResponse
candidate_vote request l r =
    let (r₁, updated) = update_term_and_leader request.term none r in
    if updated
    then (become_follower (handle_vote request l r₁).0, (handle_vote request l r₁).1)
    else (r₁, vote_response (str_eq request.candidate r₁.cluster.member) r₁)

unfoldable pub leader_vote : VoteRequest → Log → Raft → Raft × VoteResponse
leader_vote request l r =
    let (r₁, updated) = update_term_and_leader request.term none r in
    if updated
    then (become_follower (handle_vote request l r₁).0, (handle_vote request l r₁).1)
    else (r₁, vote_response false r₁)

-- `Poll` and `Vote` of raft.go pass the request on to the current role.
unfoldable pub poll : RoleType → PollRequest → Log → Raft → Raft × PollResponse
poll follower request l r = active_poll request l r
poll candidate request l r = active_poll request l r
poll leader request l r = leader_poll request r

unfoldable pub vote : RoleType → VoteRequest → Log → Raft → Raft × VoteResponse
vote follower request l r = follower_vote request l r
vote candidate request l r = candidate_vote request l r
vote leader request l r = leader_vote request l r
