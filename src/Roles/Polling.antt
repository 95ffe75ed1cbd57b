-- ===== src/Roles/Polling.antt =====
-- A follower's polls (`sendPollRequests` of roles/follower.go): before it becomes a candidate it asks
-- whether a majority would vote for it. Timers are not modelled; whether the role is still `active` when a
-- vote is counted is an argument.
pub mod Quorum
use atomix_go_raft.Base.{
  ℕ, zero, suc, ◌+◌, Bool, true, false, not, ◌&&◌, Option, none, some, List, [], ◌∷◌, ltb, ◌==◌,
  if◌then◌else◌,
}
use atomix_go_raft.Store.Log.{Log, last_entry}
use atomix_go_raft.Protocol.Raft.{Raft, set_term, set_leader, spawn, reset_heartbeat_timeout}
use atomix_go_raft.Protocol.Messages.{PollRequest, PollResponse}
use atomix_go_raft.Roles.Server.{is_nil}
use atomix_go_raft.Roles.Transition.{become_candidate}

-- The heartbeat timer expires: the leader is forgotten, and the polls begin.
unfoldable pub expire_heartbeat : Bool → Raft → Raft × Bool
expire_heartbeat active r = if active then ((set_leader none r).0, true) else (r, false)

unfoldable pub poll_request : Log → Raft → PollRequest
poll_request l r = elim (last_entry l) [
  | none ↦ record {
    term = r.term;
    candidate = r.cluster.member;
    last_log_index = 0;
    last_log_term = 0;
  }
  | some e ↦ record {
    term = r.term;
    candidate = r.cluster.member;
    last_log_index = e.index;
    last_log_term = e.entry.term;
  }
]

-- What a member's goroutine makes of the response, or of an error of the call: the state, and its vote. The
-- term that is compared is the request's.
unfoldable pub learn_term : PollRequest → PollResponse → Raft → Raft
learn_term request response r =
    if ltb request.term response.term && ltb r.term response.term
    then (set_term response.term r).0
    else r

unfoldable pub answer_poll : PollRequest → Option PollResponse → Raft → Raft × Bool
answer_poll request none r = (r, false)
answer_poll request (some response) r =
    let r' = learn_term request response r in
    if not response.accepted
    then (r', false)
    else if not (response.term == request.term)
    then (r', false)
    else (r', true)

-- The count: it goes on, or it has ended.
pub record Count : Type 0 where
  pub accepts : ℕ
  pub rejects : ℕ
  pub counting : Bool

unfoldable pub new_count : Count
new_count = record { accepts = 0; rejects = 0; counting = true }

abbrev stop : Count → Count
stop c = record c { counting = false }

-- A vote for a candidacy, and one against it.
unfoldable pub count_poll_accept : ℕ → Count → Raft → Count × Raft
count_poll_accept quorum c r =
    let counted = record c { accepts = c.accepts + 1 } in
    if is_nil r.leader && counted.accepts == quorum
    then (stop counted, become_candidate r)
    else (counted, r)

unfoldable pub count_poll_reject : ℕ → Count → Raft → Count × Raft
count_poll_reject quorum c r =
    let counted = record c { rejects = c.rejects + 1 } in
    if counted.rejects == quorum
    then (stop counted, spawn reset_heartbeat_timeout r)
    else (counted, r)

unfoldable pub count_poll : ℕ → Bool → Bool → Count × Raft → Count × Raft
count_poll quorum active vote (c, r) =
    if not c.counting
    then (c, r)
    else if not active
    then (stop c, r)
    else if vote
    then count_poll_accept quorum c r
    else count_poll_reject quorum c r

-- A vote that the counting goroutine reads, with the state and whether the role is active when it has the
-- write lock. It gives the lock back after each vote, so they may have changed since the one before.
pub record Turn : Type 0 where
  pub raft : Raft
  pub active : Bool
  pub vote : Bool

-- The votes, in the order in which they are counted: the state that each leaves behind.
unfoldable pub count_polls : ℕ → List Turn → Count → List Raft
count_polls quorum [] c = []
count_polls quorum (t ∷ turns) c =
    let o = count_poll quorum t.active t.vote (c, t.raft) in o.1 ∷ count_polls quorum turns o.0
