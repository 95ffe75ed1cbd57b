-- ===== src/Roles/Replication/Batch.antt =====
-- The entries that the leader puts into a request: a stretch of its log, whether they come from the queue
-- or from the log.
use atomix_go_raft.Base.{
  ℕ, zero, suc, ◌+◌, ◌-◌, ◌≤◌, ◌<◌, ◌≡◌, refl, sym, ap, ◌∙◌, subst, true, false, inl, inr, Bool,
  some, List, [], ◌∷◌, arith, ltb, leb, leb→le, get_elem?-some, ◌==◌, ==_iff, Bool-cases, length,
  get_elem?, take, drop, drop-get_elem?, All, add64, u64_mod,
}
use atomix_go_raft.Store.Log.{Log, LogEntry, Entry, next_entry, reset_reader, reader_last_index}
use atomix_go_raft.Store.Log.Invariant.{IsValid, index-Contiguous}
use atomix_go_raft.Store.Log.View.{contents, get_elem?-contents, Holds, reset_reader-Reads}
use atomix_go_raft.Roles.Replication.{
  Round, sends, drops, stops, read_round, round, batch_loop, max_batch_size,
}

-- A queue of entries that the log has.
abbrev pub IsQueueOf : ℕ → List Entry → List Entry → Type 0
IsQueueOf first entries queue =
    All (λ (e : Entry). (first ≤ e.index) × (get_elem? entries (e.index - first) ≡ some e)) queue

-- A log to read from.
pub record IsOpen (reader : ℕ) (l : Log) : Type 0 where
  pub valid : IsValid l
  pub room : l.first_index + length l.entries < u64_mod
  pub known : reader < length l.readers

-- What a round at an index of the log comes to.
abbrev Sound : ℕ → ℕ → Log → List Entry → Round → Type 0
Sound reader next l queue (stops m) = l.first_index + length l.entries ≤ next
Sound reader next l queue (drops rest) =
    IsQueueOf l.first_index l.entries rest × (length rest < length queue)
Sound reader next l queue (sends e cached m rest) =
    (get_elem? (contents l.entries) (next - l.first_index) ≡ some e)
    × (m.entries ≡ l.entries)
    × (m.first_index ≡ l.first_index)
    × IsOpen reader m
    × IsQueueOf l.first_index l.entries rest

read_round-Sound :
    (reader next : ℕ) (l : Log) (queue : List Entry)
    → IsOpen reader l
    → Holds next l
    → IsQueueOf l.first_index l.entries queue
    → Sound reader next l queue (read_round reader next l queue)
unfolding read_round
read_round-Sound reader next l queue o h q =
    let reads = reset_reader-Reads reader next l o.valid h o.known in
    let is : read_round reader next l queue
        ≡ sends reads.entry.entry false (next_entry reader (reset_reader reader next l)).1 queue =
      rw (read_round, reads.found) refl in
    subst (Sound reader next l queue) (sym is) (
      get_elem?-contents l.entries _ reads.stored,
      reads.entries,
      reads.first_index,
      record {
        valid = reads.valid;
        room = rw (reads.entries, reads.first_index) o.room;
        known = rw reads.readers o.known;
      },
      q,
    )

round-Sound :
    (reader next : ℕ) (l : Log) (queue : List Entry)
    → IsOpen reader l
    → Holds next l
    → IsQueueOf l.first_index l.entries queue
    → Sound reader next l queue (round reader next l queue)
unfolding round
round-Sound reader next l [] o h q = read_round-Sound reader next l [] o h q
round-Sound reader next l (e ∷ es) o h q = elim (Bool-cases (e.index == next)) [
  | inl same ↦ rw same (
    get_elem?-contents l.entries _ (
        subst (λ i. get_elem? l.entries (i - l.first_index) ≡ some e) ((==_iff e.index next).0 same)
          q.0.1),
    refl,
    refl,
    o,
    q.1,
  )
  | inr other ↦ elim (Bool-cases (ltb e.index next)) [
    | inl behind ↦ rw (other, behind) (q.1, omega arith)
    | inr ahead ↦ rw (other, ahead) (read_round-Sound reader next l (e ∷ es) o h q)
  ]
]

-- The loop's entries are the first ones of what the log has from the index on.
abbrev pub IsStretch : ℕ → Log → List LogEntry → Type 0
IsStretch next l es = es ≡ take (length es) (drop (next - l.first_index) (contents l.entries))

sends-IsStretch :
    (next : ℕ) (l m : Log) (e : LogEntry) (es : List LogEntry)
    → l.first_index ≤ next
    → get_elem? (contents l.entries) (next - l.first_index) ≡ some e
    → m.entries ≡ l.entries
    → m.first_index ≡ l.first_index
    → IsStretch (suc next) m es
    → IsStretch next l (e ∷ es)
sends-IsStretch next l m e es low here entries first rest =
    let p : suc next - m.first_index ≡ suc (next - l.first_index) = omega (arith, first, low) in
    let tail : es ≡ take (length es) (drop (suc (next - l.first_index)) (contents l.entries)) =
      rest ∙ (λ i. take (length es) (drop (p i) (contents (entries i)))) in
    ap (◌∷◌ e) tail
    ∙ ap (take (suc (length es)))
        (sym (drop-get_elem? (contents l.entries) (next - l.first_index) here))

pub reader_last_index_lem :
    (l : Log) → IsValid l → reader_last_index l ≡ l.first_index + length l.entries - 1
unfolding reader_last_index
reader_last_index_lem l v = elim (Bool-cases (length l.entries == 0)) [
  | inl empty ↦
      rw (reader_last_index, empty) (omega (arith, v.positive, v.bounded, (==_iff _ 0).0 empty))
  | inr filled ↦
      let some_entry : 0 < length l.entries = ground (arith, filled) in
      let (e, at) = get_elem?-some l.entries (length l.entries - 1) (omega arith) in
      rw (reader_last_index, filled, at)
        (omega
          (arith, index-Contiguous l.first_index l.entries (length l.entries - 1) v.contiguous at))
]

leb→gt : (a b : ℕ) → leb a b ≡ false → b < a
leb→gt a b h = ground arith

abbrev Batch : Type 0
Batch = List LogEntry × Log × List Entry × Bool

-- What the loop takes, if it has so many rounds.
abbrev pub Taken : ℕ → ℕ → Log → List Entry → Batch → Type 0
Taken fuel next l queue o =
    IsStretch next l o.0
    × (next < l.first_index + length l.entries → length queue < fuel → 1 ≤ length o.0)

module _ (size_of : LogEntry → ℕ) (fuel reader : ℕ) where
  -- What follows a round.
  abbrev after_round : ℕ → ℕ → Log → List Entry → Round → Batch
  after_round next size l queue r = elim r [
    | stops l' ↦ ([], l', queue, false)
    | drops queue' ↦ batch_loop size_of fuel reader next size l queue'
    | sends e cached l' queue' ↦ elim (leb max_batch_size (size + size_of e)) [
      | true ↦ (e ∷ [], l', queue', cached)
      | false ↦
          let o = batch_loop size_of fuel reader (add64 next 1) (size + size_of e) l' queue' in
          (e ∷ o.0, o.1, o.2, o.3)
    ]
  ]

  loop_past :
      (next size : ℕ) (l : Log) (queue : List Entry)
      → leb next (reader_last_index l) ≡ false
      → batch_loop size_of (suc fuel) reader next size l queue ≡ ([], l, queue, false)
  unfolding batch_loop
  loop_past next size l queue past = rw (batch_loop, past) refl

  loop_there :
      (next size : ℕ) (l : Log) (queue : List Entry)
      → leb next (reader_last_index l) ≡ true
      → batch_loop size_of (suc fuel) reader next size l queue
        ≡ after_round next size l queue (round reader next l queue)
  unfolding batch_loop
  loop_there next size l queue there = rw (batch_loop, there) refl

  -- The rest of the loop, by the claim for one round less.
  after_round-Taken :
      ((next size : ℕ) (l : Log) (queue : List Entry)
        → IsOpen reader l
        → l.first_index ≤ next
        → IsQueueOf l.first_index l.entries queue
        → Taken fuel next l queue (batch_loop size_of fuel reader next size l queue))
      → (next size : ℕ) (l : Log) (queue : List Entry) (r : Round) → IsOpen reader l
      → Holds next l
      → Sound reader next l queue r
      → Taken (suc fuel) next l queue (after_round next size l queue r)
  after_round-Taken ih next size l queue (stops m) o holds sound =
      absurd (omega (arith, holds, sound))
  after_round-Taken ih next size l queue (drops rest) o holds sound =
      let t = ih next size l rest o holds.0 sound.0 in
      (t.0, λ inside enough. t.1 inside (omega (arith, enough, sound.1)))
  after_round-Taken ih next size l queue (sends e cached m rest) o holds
        (here, entries, first, opened, q) =
      elim (Bool-cases (leb max_batch_size (size + size_of e))) [
        | inl full ↦
            rw (after_round, full)
              (
                sends-IsStretch next l m e [] holds.0 here entries first refl,
                λ inside enough. omega arith,
              )
        | inr more ↦
            let at : add64 next 1 ≡ suc next = omega (arith, holds, o.room) in
            let t =
              ih (add64 next 1) (size + size_of e) m rest opened (omega (arith, at, first, holds))
                (rw (entries, first) q) in
            let es = (batch_loop size_of fuel reader (add64 next 1) (size + size_of e) m rest).0 in
            rw (after_round, more)
              (
                sends-IsStretch next l m e es holds.0 here entries first
                    (subst (λ n. IsStretch n m es) at t.0),
                λ inside enough. omega arith,
              )
      ]

-- Over a log that can be read, from an index not below its first one and with a queue of its own entries, the
-- loop takes, whatever the sizes, a stretch of the log that begins at the index. If the log holds the
-- index and there are more rounds than queued entries, the stretch is not empty.
pub batch_loop-Taken :
    (size_of : LogEntry → ℕ) (fuel reader next size : ℕ) (l : Log) (queue : List Entry)
    → IsOpen reader l
    → l.first_index ≤ next
    → IsQueueOf l.first_index l.entries queue
    → Taken fuel next l queue (batch_loop size_of fuel reader next size l queue)
unfolding batch_loop
batch_loop-Taken size_of zero reader next size l queue o low q =
    (refl, λ inside enough. absurd (omega (arith, enough)))
batch_loop-Taken size_of (suc fuel) reader next size l queue o low q =
    elim (Bool-cases (leb next (reader_last_index l))) [
      | inr past ↦
          subst (Taken (suc fuel) next l queue)
            (sym (loop_past size_of fuel reader next size l queue past))
            (
              refl,
              λ inside enough.
                  absurd
                    (omega (arith, inside, leb→gt next _ past, reader_last_index_lem l o.valid)),
            )
      | inl there ↦
          let holds : Holds next l = (
            low,
            omega (
              arith,
              leb→le next _ there,
              reader_last_index_lem l o.valid,
              o.valid.positive,
              low,
            ),
          ) in
          subst (Taken (suc fuel) next l queue)
            (sym (loop_there size_of fuel reader next size l queue there))
            (after_round-Taken size_of fuel reader (batch_loop-Taken size_of fuel reader) next size
              l queue (round reader next l queue) o holds
              (round-Sound reader next l queue o holds q))
    ]
