-- ===== src/Roles/Append.antt =====
-- The handling of append requests (roles/passive.go, active.go, leader.go). A result `none` is a panic;
-- an `error` is a Go error, and the log keeps what was written before it.
pub mod Merge
pub mod Rounds
pub mod Loop
pub mod Previous
pub mod Replies
pub mod Handled
pub mod Outcomes
use atomix_go_raft.Base.{
  ℕ, suc, ◌+◌, Bool, true, false, not, ◌&&◌, Option, none, some, List, [], ◌∷◌, ◌++◌, ltb, leb,
  ◌==◌, if◌then◌else◌, length, add64, sub64, ◌>>=◌, float64, max, min, u64_mod,
}
use atomix_go_raft.Store.Log.{Log, LogEntry, Entry, last_entry, last_index, append, truncate, reset}
use atomix_go_raft.Store.Log.View.{read_at}
use atomix_go_raft.Protocol.Raft.{
  Raft, Pointer, new_pointer, set_commit_index, commit, RoleType, follower, candidate, leader,
  spawn, reset_heartbeat_timeout,
}
use atomix_go_raft.Protocol.Messages.{AppendRequest, AppendResponse, ok_status, no_leader}
use atomix_go_raft.State.Manager.{Change, apply_index, apply_entry}
use atomix_go_raft.Roles.Transition.{become_follower}
use atomix_go_raft.Roles.Server.{Server, update_term_and_leader}

pub data AppendError : Type 0 where
  reader_inconsistent writer_inconsistent : AppendError

pub data Reply : Type 0 where
  response : AppendResponse → Reply
  error : AppendError → Reply

abbrev pub complete_append : Bool → ℕ → Raft → AppendResponse
complete_append succeeded last_index r = record {
  status = ok_status;
  error = no_leader;
  term = r.term;
  succeeded = succeeded;
  last_log_index = last_index;
}

abbrev pub fail_append : ℕ → Raft → AppendResponse
fail_append last_index r = complete_append false last_index r

abbrev pub succeed_append : ℕ → Raft → AppendResponse
succeed_append last_index r = complete_append true last_index r

-- `checkTerm`, by the failure's last log index.
unfoldable pub check_term : AppendRequest → Server → Option ℕ
check_term request s = if ltb request.term s.raft.term then some (last_index s.log) else none

-- The entry before the request's entries, when the log goes past it.
unfoldable pub check_earlier_entry : AppendRequest → Entry → ℕ → Log → Option (Option ℕ × Log)
check_earlier_entry request last reader l = read_at reader request.prev_log_index l >>= λ o. some (
  elim o.0 [
    | none ↦ some last.index
    | some previous ↦
        if not (request.prev_log_term == previous.entry.term)
        then some (sub64 request.prev_log_index 1)
        else none
  ],
  o.1,
)

-- `checkPreviousEntry`: the failure's last log index, if it fails, and the log whose reader moved.
unfoldable pub check_previous_entry : AppendRequest → ℕ → Log → Option (Option ℕ × Log)
check_previous_entry request reader l =
    if request.prev_log_term == 0 then some (none, l) else (elim (last_entry l) [
      | none ↦ if ltb 0 request.prev_log_index then some (some 0, l) else some (none, l)
      | some last ↦
          if ltb last.index request.prev_log_index
          then some (some last.index, l)
          else if ltb request.prev_log_index last.index
          then check_earlier_entry request last reader l
          else if not (request.prev_log_term == last.entry.term)
          then some (some (sub64 request.prev_log_index 1), l)
          else some (none, l)
    ])

-- The commit index that `appendEntries` computes through float64.
unfoldable pub new_commit_index : AppendRequest → ℕ → Raft → ℕ → ℕ
new_commit_index request overflow r last_entry_index =
    let index =
      max (float64 r.commit_index)
        (min (float64 request.commit_index) (float64 last_entry_index)) in
    if ltb index u64_mod then index else overflow

-- An entry at an index that the log has already: kept, if the terms agree, and otherwise written over
-- a truncated log.
abbrev pub overwrite : ℕ → LogEntry → LogEntry → Log → Log
overwrite index existing entry l =
    if not (existing.term == entry.term) then (append entry (truncate (sub64 index 1) l)).1 else l

-- One round of the loop of `appendEntries`.
unfoldable pub append_entry : ℕ → ℕ → LogEntry → Log → Option (Log × Option AppendError)
append_entry reader index entry l = elim (last_entry l) [
  | none ↦ some ((append entry l).1, none)
  | some last ↦
      if ltb index last.index
      then (read_at reader index l >>= λ o. some (elim o.0 [
        | none ↦ (o.1, some reader_inconsistent)
        | some existing ↦ (overwrite index existing.entry entry o.1, none)
      ]))
      else if last.index == index
      then some (overwrite index last.entry entry l, none)
      else if not (last.index == sub64 index 1)
      then some (l, some writer_inconsistent)
      else some ((append entry l).1, none)
]

-- The loop: the index of the last entry handled, the log, and the error that ended it early.
unfoldable pub append_loop : ℕ → ℕ → List LogEntry → Log → Option (ℕ × Log × Option AppendError)
append_loop reader index [] l = some (index, l, none)
append_loop reader index (e ∷ es) l = append_entry reader (add64 index 1) e l >>= λ o. elim o.1 [
  | some err ↦ some (add64 index 1, o.0, some err)
  | none ↦ append_loop reader (add64 index 1) es o.0
]

-- The committed entries of the request, from its i-th on.
unfoldable pub committed_changes : ℕ → ℕ → ℕ → List LogEntry → List Change
committed_changes prev_index commit_index i [] = []
committed_changes prev_index commit_index i (e ∷ es) =
    let index = add64 (add64 prev_index i) 1 in
    let rest = committed_changes prev_index commit_index (suc i) es in
    if leb index commit_index
    then apply_entry (record { index = index; entry = e }) none ∷ rest
    else []

-- The end of `appendEntries`, after the entries are written up to an index.
unfoldable pub commit_entries : AppendRequest → ℕ → ℕ → Server → Server × Reply
commit_entries request commit_index index s =
    let (r, prev_commit_index) =
      commit commit_index (set_commit_index request.commit_index s.raft) in
    let pending =
      if leb commit_index request.prev_log_index
      then apply_index request.prev_log_index ∷ []
      else [] in
    let changes =
      if ltb prev_commit_index commit_index
      then pending ++ committed_changes request.prev_log_index commit_index 0 request.entries
      else [] in
    (record s { raft = r; changes = s.changes ++ changes }, response (succeed_append index r))

-- `if len(request.Entries) > 0 { if request.PrevLogTerm == 0 { writer.Reset(...) } ... }`.
unfoldable pub write_entries : AppendRequest → ℕ → Log → Option (ℕ × Log × Option AppendError)
write_entries request reader l =
    let start =
      if length request.entries == 0
      then l
      else if request.prev_log_term == 0
      then reset (add64 request.prev_log_index 1) l
      else l in
    append_loop reader request.prev_log_index request.entries start

unfoldable pub append_entries : AppendRequest → Server → Option (Server × Reply)
append_entries request s =
    let last = add64 request.prev_log_index (length request.entries) in
    let commit_index = new_commit_index request s.overflow s.raft last in
    write_entries request s.reader s.log >>= λ o. some (elim o.2 [
      | some err ↦ (record s { log = o.1 }, error err)
      | none ↦ commit_entries request commit_index o.0 (record s { log = o.1 })
    ])

unfoldable pub handle_append : AppendRequest → Server → Option (Server × Reply)
handle_append request s = elim (check_term request s) [
  | some index ↦ some (s, response (fail_append index s.raft))
  | none ↦ check_previous_entry request s.reader s.log >>= λ o. elim o.0 [
    | some index ↦ some (record s { log = o.1 }, response (fail_append index s.raft))
    | none ↦ append_entries request (record s { log = o.1 })
  ]
]

-- `updateTermAndLeader(request.Term, &request.Leader)`.
unfoldable pub update_from : AppendRequest → Server → Server × Bool
update_from request s =
    let (p, r) = new_pointer request.leader s.raft in
    let (r', updated) = update_term_and_leader request.term (some p) r in
    (record s { raft = r' }, updated)

abbrev pub then_follow : Bool → Option (Server × Reply) → Option (Server × Reply)
then_follow updated m =
    m >>= λ o. some (if updated then record (o.0) { raft = become_follower o.0.raft } else o.0, o.1)

unfoldable pub passive_append : AppendRequest → Server → Option (Server × Reply)
passive_append request s = handle_append request (update_from request s).0

-- `Append` of a follower, which then resets the heartbeat timeout, whatever the reply.
unfoldable pub follower_append : AppendRequest → Server → Option (Server × Reply)
follower_append request s = passive_append request s >>= λ o.
    some (record (o.0) { raft = spawn reset_heartbeat_timeout o.0.raft }, o.1)

-- `Append` of a candidate, which steps down after a newer message.
unfoldable pub active_append : AppendRequest → Server → Option (Server × Reply)
active_append request s =
    let (s', updated) = update_from request s in then_follow updated (handle_append request s')

unfoldable pub leader_append : AppendRequest → Server → Option (Server × Reply)
leader_append request s =
    let (s', updated) = update_from request s in
    if updated
    then then_follow true (handle_append request s')
    else if ltb request.term s'.raft.term
    then some (s', response (fail_append (last_index s'.log) s'.raft))
    else handle_append request s'

-- `Append` of raft.go passes the request on to the current role.
unfoldable pub append_by : RoleType → AppendRequest → Server → Option (Server × Reply)
append_by follower request s = follower_append request s
append_by candidate request s = active_append request s
append_by leader request s = leader_append request s
