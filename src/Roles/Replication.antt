-- ===== src/Roles/Replication.antt =====
-- The leader's replication to one follower (`memberAppender` of roles/appender.go). A result `none` is a
-- panic, or a call that waits for a lock which is never released.
pub mod Exchange
pub mod Batch
pub mod Requests
use atomix_go_raft.Base.{
  ℕ, zero, suc, ◌+◌, ◌-◌, Bool, true, false, ◌||◌, ◌&&◌, Option, none, some, List, [], ◌∷◌, ◌++◌,
  ltb, leb, ◌==◌, if◌then◌else◌, length, get_elem?, add64, sub64, ◌>>=◌,
}
use atomix_go_raft.Store.Log.{
  Log, LogEntry, Entry, Time, next_entry, reset_reader, reader_first_index, reader_last_index,
}
use atomix_go_raft.Protocol.Raft.{Raft, set_term, set_leader}
use atomix_go_raft.Protocol.Messages.{
  AppendRequest, AppendResponse, ResponseStatus, ok_status, error_status,
}
use atomix_go_raft.Roles.Transition.{become_follower}

-- What the member appender sends on its channels: a commit with its match index, a failure, and
-- whether there are entries to append.
pub data Notice : Type 0 where
  commit_notice : ℕ → Time → Notice
  fail_notice : Time → Notice
  append_notice : Bool → Notice

-- `held` says that the mutex of the queue is locked.
pub record MemberAppender : Type 0 where
  pub prev_term : ℕ
  pub next_index : ℕ
  pub match_index : ℕ
  pub failure_count : ℕ
  pub first_failure_time : Time
  pub reader : ℕ
  pub queue : List Entry
  pub held : Bool
  pub notices : List Notice

abbrev pub send : Notice → MemberAppender → MemberAppender
send n a = record a { notices = a.notices ++ n ∷ [] }

-- An entry that the leader appended, in `processEvents`.
unfoldable pub enqueue : Entry → MemberAppender → Option MemberAppender
enqueue e a =
    if a.failure_count == 0
    then (if a.held then none else some (record a { queue = a.queue ++ e ∷ [] }))
    else some a

unfoldable pub succeed : MemberAppender → MemberAppender
succeed a = record a { failure_count = 0 }

unfoldable pub fail : Time → MemberAppender → MemberAppender
fail time a =
    let b = if a.failure_count == 0 then record a { first_failure_time = time } else a in
    send (fail_notice time) (record b { failure_count = b.failure_count + 1 })

unfoldable pub requeue : Log → MemberAppender → MemberAppender
requeue l a = send (append_notice (leb a.next_index (reader_last_index l))) a

-- `if a.prevTerm == 0 && prevIndex >= a.reader.FirstIndex() { ... }`.
unfoldable pub find_prev_term : Log → MemberAppender → Option (Log × MemberAppender)
find_prev_term l a =
    let prev_index = sub64 a.next_index 1 in
    if a.prev_term == 0 && leb (reader_first_index l) prev_index
    then (let (o, l') = next_entry a.reader (reset_reader a.reader prev_index l) in
        o >>= λ e. some (l', record a { prev_term = e.entry.term }))
    else some (l, a)

abbrev pub request_of : List LogEntry → MemberAppender → Raft → AppendRequest
request_of entries a r = record {
  term = r.term;
  leader = r.cluster.member;
  prev_log_index = sub64 a.next_index 1;
  prev_log_term = a.prev_term;
  entries = entries;
  commit_index = r.commit_index;
}

abbrev pub Request : Type 0
Request = AppendRequest × Log × MemberAppender

unfoldable pub empty_append_request : Raft → Log → MemberAppender → Option Request
unfolding find_prev_term
empty_append_request r l a = find_prev_term l a >>= λ o. some (request_of [] o.1 r, o.0, o.1)

-- `maxBatchSize`.
abbrev pub max_batch_size : ℕ
max_batch_size = 1048576

-- What a round of the loop of `entriesAppendRequest` does.
pub data Round : Type 0 where
  -- An entry is sent, and the loop may end with the mutex locked.
  sends : LogEntry → Bool → Log → List Entry → Round
  -- The queue's front is behind the next index.
  drops : List Entry → Round
  -- The log has no more entries.
  stops : Log → Round

unfoldable pub read_round : ℕ → ℕ → Log → List Entry → Round
read_round reader next l queue =
    let (o, l') = next_entry reader (reset_reader reader next l) in
    elim o [ none ↦ stops l' | some e ↦ sends e.entry false l' queue ]

unfoldable pub round : ℕ → ℕ → Log → List Entry → Round
unfolding read_round
round reader next l [] = read_round reader next l []
round reader next l (e ∷ es) =
    if e.index == next
    then sends e.entry true l es
    else if ltb e.index next
    then drops es
    else read_round reader next l (e ∷ es)

-- `XXX_Size` of an entry is generated code.
module _ (size_of : LogEntry → ℕ) where
  -- The loop: the entries, the log, what is left of the queue, and whether the mutex is locked at the
  -- end. Each round takes an entry off the queue or goes on to the next index.
  unfoldable pub batch_loop :
      ℕ → ℕ → ℕ → ℕ → Log → List Entry → List LogEntry × Log × List Entry × Bool
  batch_loop zero reader next size l queue = ([], l, queue, false)
  batch_loop (suc fuel) reader next size l queue = elim (leb next (reader_last_index l)) [
    | false ↦ ([], l, queue, false)
    | true ↦ elim (round reader next l queue) [
      | stops l' ↦ ([], l', queue, false)
      | drops queue' ↦ batch_loop fuel reader next size l queue'
      | sends e cached l' queue' ↦ elim (leb max_batch_size (size + size_of e)) [
        | true ↦ (e ∷ [], l', queue', cached)
        | false ↦
            let o = batch_loop fuel reader (add64 next 1) (size + size_of e) l' queue' in
            (e ∷ o.0, o.1, o.2, o.3)
      ]
    ]
  ]

  unfoldable pub entries_append_request : Raft → Log → MemberAppender → Option Request
  unfolding find_prev_term
  entries_append_request r l a = find_prev_term l a >>= λ o.
      if a.held && leb a.next_index (reader_last_index o.0)
      then none
      else (let fuel = suc (length a.queue + suc (reader_last_index l) - a.next_index) in
          let (entries, l', queue, held) = batch_loop fuel a.reader a.next_index 0 o.0 a.queue in
          some (request_of entries o.1 r, l', record (o.1) { queue = queue; held = held }))

  unfoldable pub next_append_request : Raft → Log → MemberAppender → Option Request
  next_append_request r l a =
      if ltb 0 a.failure_count || ltb (reader_last_index l) a.next_index
      then empty_append_request r l a
      else entries_append_request r l a

-- `a.matchIndex = response.LastLogIndex; a.nextIndex = a.matchIndex + 1`.
abbrev pub matched : AppendResponse → MemberAppender → MemberAppender
matched response a = record a {
  match_index = response.last_log_index;
  next_index = add64 response.last_log_index 1;
}

abbrev pub tell_commit : Time → MemberAppender → MemberAppender
tell_commit time a = send (commit_notice a.match_index time) a

-- A successful response: the follower's last index, and the term of the entry there. An index out of
-- range is a panic.
unfoldable pub advance :
    AppendRequest → AppendResponse → Time → MemberAppender → Option MemberAppender
advance request response time a =
    if length request.entries == 0
    then some (tell_commit time (matched response a))
    else (get_elem? request.entries (sub64 (sub64 response.last_log_index request.prev_log_index) 1)
        >>= λ e. some (tell_commit time (record (matched response a) { prev_term = e.term })))

-- A response of a greater term.
unfoldable pub step_aside : AppendResponse → Raft → Raft
step_aside response r = become_follower (set_leader none (set_term response.term r).0).0

unfoldable pub back_off : AppendResponse → MemberAppender → MemberAppender
back_off response a =
    let b =
      if ltb response.last_log_index a.match_index
      then record a { match_index = response.last_log_index }
      else a in
    if add64 response.last_log_index 1 == b.next_index
    then b
    else record b { next_index = add64 response.last_log_index 1; prev_term = 0 }

unfoldable pub handle_append_response :
    AppendRequest
    → AppendResponse
    → Time
    → Log
    → MemberAppender × Raft
    → Option (MemberAppender × Raft)
unfolding succeed advance requeue back_off
handle_append_response request response time l s =
    let a = succeed s.0 in
    if response.succeeded
    then (advance request response time a >>= λ b. some (requeue l b, s.1))
    else if ltb s.1.term response.term
    then some (a, step_aside response s.1)
    else some (requeue l (back_off response a), s.1)

-- `handleAppendFailure` and `handleAppendError`.
unfoldable pub handle_append_failure : Time → Log → MemberAppender → MemberAppender
unfolding fail requeue
handle_append_failure time l a = requeue l (fail time a)

-- `sendAppendRequest` once there is a response, or `none` for an error of the call.
unfoldable pub handle_reply :
    AppendRequest
    → Option AppendResponse
    → Time
    → Log
    → MemberAppender × Raft
    → Option (MemberAppender × Raft)
handle_reply request none time l s = some (handle_append_failure time l s.0, s.1)
handle_reply request (some response) time l s = elim response.status [
  | ok_status ↦ handle_append_response request response time l s
  | error_status ↦ some (handle_append_failure time l s.0, s.1)
]
