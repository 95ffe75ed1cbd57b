-- ===== src/Roles/Replication/Requests.antt =====
-- The append requests that the leader builds.
use atomix_go_raft.Base.{
  ℕ, suc, ◌+◌, ◌-◌, ◌≤◌, ◌≡◌, refl, subst, true, false, ◌⊎◌, inl, inr, Bool, ◌&&◌, some, arith, leb,
  leb→le, ◌==◌, Bool-cases, length, sub64,
}
use atomix_go_raft.Store.Log.{
  Log, LogEntry, next_entry, reset_reader, reader_first_index, reader_last_index,
}
use atomix_go_raft.Store.Log.View.{view, read, Holds, reset_reader-Reads}
use atomix_go_raft.Protocol.Raft.{Raft}
use atomix_go_raft.Roles.Replication.{
  MemberAppender, Request, request_of, find_prev_term, entries_append_request, batch_loop,
}
use atomix_go_raft.Roles.Replication.Batch.{
  IsQueueOf, IsOpen, IsStretch, batch_loop-Taken, reader_last_index_lem,
}

-- The previous term that is found: the one kept, or the one of the entry before the next index.
record Found (l : Log) (a : MemberAppender) (o : Log × MemberAppender) : Type 0 where
  entries : o.0.entries ≡ l.entries
  first_index : o.0.first_index ≡ l.first_index
  opened : IsOpen a.reader o.0
  next_index : o.1.next_index ≡ a.next_index
  term :
      (o.1.prev_term ≡ a.prev_term)
      ⊎ ((e : LogEntry) × (read (a.next_index - 1) (view l) ≡ some e) × (o.1.prev_term ≡ e.term))

and-right : (p q : Bool) → (p && q) ≡ true → q ≡ true
and-right true q h = h
and-right false q h = ground (arith, h)

find_prev_term-Found :
    (l : Log) (a : MemberAppender)
    → IsOpen a.reader l
    → Holds a.next_index l
    → (o : Log × MemberAppender) × (find_prev_term l a ≡ some o) × Found l a o
unfolding find_prev_term reader_first_index
find_prev_term-Found l a opened h =
    let prev : sub64 a.next_index 1 ≡ a.next_index - 1 =
      omega (arith, h, opened.room, opened.valid.positive) in
    elim (Bool-cases (a.prev_term == 0 && leb (reader_first_index l) (sub64 a.next_index 1))) [
      | inr kept ↦ (
        (l, a),
        rw (find_prev_term, kept) refl,
        record {
          entries = refl;
          first_index = refl;
          opened = opened;
          next_index = refl;
          term = inl refl;
        },
      )
      | inl looked_up ↦
          let low : l.first_index ≤ sub64 a.next_index 1 =
            unfold reader_first_index in
            leb→le l.first_index (sub64 a.next_index 1)
              (and-right (a.prev_term == 0) (leb l.first_index (sub64 a.next_index 1)) looked_up) in
          let reads =
            reset_reader-Reads a.reader (sub64 a.next_index 1) l opened.valid
              (low, omega (arith, h, prev)) opened.known in
          (
            (
              (next_entry a.reader (reset_reader a.reader (sub64 a.next_index 1) l)).1,
              record a { prev_term = reads.entry.entry.term },
            ),
            rw (find_prev_term, looked_up, reads.found) refl,
            record {
              entries = reads.entries;
              first_index = reads.first_index;
              opened = record {
                valid = reads.valid;
                room = rw (reads.entries, reads.first_index) opened.room;
                known = rw reads.readers opened.known;
              };
              next_index = refl;
              term = inr (
                reads.entry.entry,
                subst (λ i. read i (view l) ≡ some reads.entry.entry) prev reads.content,
                refl,
              );
            },
          )
    ]

-- Over a log that can be read and holds the member's next index, with a queue of the log's entries and its
-- mutex free, the leader builds a request without a panic. It names the index before the next one and
-- a previous term that is the one kept or the one of the log's entry there, and its entries are a
-- stretch of the log, not empty, that begins at the next index.
pub entries_append_request-IsStretch :
    (size_of : LogEntry → ℕ) (r : Raft) (l : Log) (a : MemberAppender)
    → IsOpen a.reader l
    → Holds a.next_index l
    → IsQueueOf l.first_index l.entries a.queue
    → a.held ≡ false
    → (o : Request) × (entries_append_request size_of r l a ≡ some o)
      × (o.0.prev_log_index ≡ a.next_index - 1)
      × ((o.0.prev_log_term ≡ a.prev_term)
          ⊎ ((e : LogEntry) × (read (a.next_index - 1) (view l) ≡ some e)
              × (o.0.prev_log_term ≡ e.term)))
      × IsStretch a.next_index l o.0.entries
      × (1 ≤ length o.0.entries)
unfolding entries_append_request
entries_append_request-IsStretch size_of r l a opened h q free =
    let (o, ran, found) = find_prev_term-Found l a opened h in
    let last = reader_last_index_lem l opened.valid in
    let fuel = suc (length a.queue + suc (reader_last_index l) - a.next_index) in
    let batch = batch_loop size_of fuel a.reader a.next_index 0 o.0 a.queue in
    let built : Request =
      (request_of batch.0 o.1 r, batch.1, record (o.1) { queue = batch.2; held = batch.3 }) in
    let t =
      batch_loop-Taken size_of fuel a.reader a.next_index 0 o.0 a.queue found.opened
        (omega (arith, found.first_index, h)) (rw (found.entries, found.first_index) q) in
    (
      built,
      rw (entries_append_request, ran, free) refl,
      omega (arith, found.next_index, h, opened.room, opened.valid.positive),
      found.term,
      rw (found.entries, found.first_index) at t.0,
      t.1 (rw (found.entries, found.first_index) h.1) (omega (arith, last, h)),
    )
