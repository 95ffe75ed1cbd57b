-- ===== src/Roles/Append/Rounds.antt =====
-- One round of the loop of `appendEntries`, over a valid log.
use atomix_go_raft.Base.{
  ℕ, suc, ◌+◌, ◌-◌, ◌≤◌, ◌<◌, ◌≡◌, refl, sym, ap, subst, ◌∙◌, false, ◌⊎◌, inl, inr, Option, none,
  some, List, ◌∷◌, ◌++◌, arith, lt→ltb, ge→ltb, ◌==◌, ==_iff, Bool-cases, length, take, drop,
  get_elem?, u64_mod, sub64, length-take, take_all, drop_all, drop-get_elem?, take-append-drop,
  length-map,
}
use atomix_go_raft.Store.Log.{Log, LogEntry, Entry, last_entry, append, truncate, maybe_reset}
use atomix_go_raft.Store.Log.Invariant.{IsValid, last_entry-Last, append-IsValid, truncate-IsValid}
use atomix_go_raft.Store.Log.View.{
  contents, length-contents, get_elem?-contents, truncate_view, append_view, read_at-Reads, Reads,
  Holds,
}
use atomix_go_raft.Roles.Append.{overwrite, append_entry}
use atomix_go_raft.Roles.Append.Merge.{place}

-- A log that can be written at an index and in the ones behind it, so many in number.
pub record IsReady (reader index count : ℕ) (l : Log) : Type 0 where
  pub valid : IsValid l
  pub known : reader < length l.readers
  pub low : l.first_index ≤ index
  pub high : index ≤ l.first_index + length l.entries
  pub room : l.first_index + length l.entries < u64_mod
  pub room' : index + count < u64_mod

-- What writing an entry at an index makes of a log.
pub record Written (reader index : ℕ) (e : LogEntry) (l m : Log) : Type 0 where
  pub valid : IsValid m
  pub first_index : m.first_index ≡ l.first_index
  pub readers : length m.readers ≡ length l.readers
  pub items :
      contents m.entries
      ≡ take (index - l.first_index) (contents l.entries)
        ++ place (drop (index - l.first_index) (contents l.entries)) e

module _ (reader index : ℕ) (e : LogEntry) (l : Log) where
  append-Written :
      (count : ℕ)
      → IsReady reader index count l
      → index ≡ l.first_index + length l.entries
      → Written reader index e l (append e l).1
  unfolding append place
  append-Written count h at =
      let past : length (contents l.entries) ≤ index - l.first_index =
        omega (arith, length-contents l.entries, at) in
      record {
        valid = unfold append in append-IsValid e l h.valid h.room;
        first_index = refl;
        readers = refl;
        items =
            unfold append in
            rw
              (
                take_all (index - l.first_index) (contents l.entries) past,
                drop_all (index - l.first_index) (contents l.entries) past,
              )
              (append_view e l);
      }

  abbrev cut : Log
  cut = truncate (sub64 index 1) l

  cut_view :
      IsValid l
      → 1 ≤ index
      → index < l.first_index + length l.entries
      → contents cut.entries ≡ take (index - l.first_index) (contents l.entries)
  cut_view v positive inside =
      let count : suc (sub64 index 1) - l.first_index ≡ index - l.first_index =
        omega (arith, v.bounded) in
      truncate_view (sub64 index 1) l v ∙ ap (λ n. take n (contents l.entries)) count

  replaced-Written :
      (count : ℕ) (x : LogEntry)
      → IsReady reader index count l
      → 1 ≤ index
      → index < l.first_index + length l.entries
      → drop (index - l.first_index) (contents l.entries)
        ≡ x ∷ drop (suc (index - l.first_index)) (contents l.entries)
      → (x.term == e.term) ≡ false
      → Written reader index e l (append e cut).1
  unfolding place
  replaced-Written count x h positive inside rest other =
      let kept = cut_view h.valid positive inside in
      let shorter : length cut.entries ≤ length l.entries = omega (
        arith,
        length-contents cut.entries,
        length-contents l.entries,
        ap (λ (xs : List LogEntry). length xs) kept,
        length-take {0} (index - l.first_index) (contents l.entries),
      ) in
      let valid = truncate-IsValid (sub64 index 1) l h.valid in
      record {
        valid = unfold truncate in append-IsValid e cut valid (omega (arith, shorter, h.room));
        first_index = unfold append truncate in refl;
        readers = unfold append truncate in length-map (maybe_reset _) l.readers;
        items = append_view e cut ∙ rw (kept, rest, other) refl;
      }

  overwrite-Written :
      (count : ℕ) (x : LogEntry)
      → IsReady reader index count l
      → 1 ≤ index
      → index < l.first_index + length l.entries
      → get_elem? (contents l.entries) (index - l.first_index) ≡ some x
      → Written reader index e l (overwrite index x e l)
  unfolding place
  overwrite-Written count x h positive inside here =
      let p = index - l.first_index in
      let rest = drop-get_elem? (contents l.entries) p here in
      elim (Bool-cases (x.term == e.term)) [
        | inl same ↦ rw same (record {
          valid = h.valid;
          first_index = refl;
          readers = refl;
          items =
              rw (rest, same)
                (sym (
                  ap (◌++◌ (take p (contents l.entries))) (sym rest)
                  ∙ take-append-drop p (contents l.entries)));
        })
        | inr other ↦ rw other (replaced-Written count x h positive inside rest other)
      ]

  -- A read leaves the log as it was, but for a reader.
  from-Written :
      {o : Option Entry × Log} {m : Log}
      → Reads reader index l o
      → Written reader index e o.1 m
      → Written reader index e l m
  from-Written reads w = record {
    valid = w.valid;
    first_index = w.first_index ∙ reads.first_index;
    readers = w.readers ∙ reads.readers;
    items = rw (reads.entries, reads.first_index) at w.items;
  }

-- An entry that the log has is read, and kept or replaced.
inner-Written :
    (reader index count : ℕ) (e : LogEntry) (l : Log) {last : Entry}
    → IsReady reader index count l
    → 1 ≤ index
    → last_entry l ≡ some last
    → last.index + 1 ≡ l.first_index + length l.entries
    → index < last.index
    → (m : Log) × (append_entry reader index e l ≡ some (m, none)) × Written reader index e l m
unfolding append_entry
inner-Written reader index count e l {last} h positive at end before =
    let holds : Holds index l = (h.low, omega (arith, end, before)) in
    let (o, ran, reads) = read_at-Reads reader index l h.valid h.room holds h.known in
    let ready : IsReady reader index count o.1 = record {
      valid = reads.valid;
      known = rw reads.readers h.known;
      low = rw reads.first_index h.low;
      high = rw (reads.entries, reads.first_index) h.high;
      room = rw (reads.entries, reads.first_index) h.room;
      room' = h.room';
    } in
    let here : get_elem? (contents o.1.entries) (index - o.1.first_index) ≡ some reads.entry.entry =
      rw (reads.entries, reads.first_index)
        (get_elem?-contents l.entries (index - l.first_index) reads.stored) in
    let inside : index < o.1.first_index + length o.1.entries =
      rw (reads.entries, reads.first_index) holds.1 in
    (
      overwrite index reads.entry.entry e o.1,
      rw (at, append_entry) (rw (lt→ltb _ _ before, ran) (rw reads.found refl)),
      from-Written reader index e l reads
          (overwrite-Written reader index e o.1 count reads.entry.entry ready positive inside here),
    )

-- The last entry is replaced without the reader.
last-Written :
    (reader index count : ℕ) (e : LogEntry) (l : Log) {last : Entry}
    → IsReady reader index count l
    → 1 ≤ index
    → last_entry l ≡ some last
    → get_elem? l.entries (length l.entries - 1) ≡ some last
    → last.index + 1 ≡ l.first_index + length l.entries
    → last.index ≡ index
    → (m : Log) × (append_entry reader index e l ≡ some (m, none)) × Written reader index e l m
unfolding append_entry
last-Written reader index count e l {last} h positive at stored end same =
    let place_of : length l.entries - 1 ≡ index - l.first_index = omega (arith, end, same) in
    (
      overwrite index last.entry e l,
      rw (at, append_entry)
          (rw (ge→ltb index last.index (omega (arith, same)), (==_iff last.index index).1 same)
            refl),
      overwrite-Written reader index e l count last.entry h positive (omega (arith, end, same)) (
          get_elem?-contents l.entries (index - l.first_index)
            (subst (λ i. get_elem? l.entries i ≡ some last) place_of stored)),
    )

-- Behind the last entry, the entry is added.
end-Written :
    (reader index count : ℕ) (e : LogEntry) (l : Log) {last : Entry}
    → IsReady reader index count l
    → 1 ≤ index
    → last_entry l ≡ some last
    → last.index + 1 ≡ index
    → index ≡ l.first_index + length l.entries
    → (m : Log) × (append_entry reader index e l ≡ some (m, none)) × Written reader index e l m
unfolding append_entry
end-Written reader index count e l {last} h positive at end behind =
    let other : (last.index == index) ≡ false = ground (arith, end) in
    let before : sub64 index 1 ≡ last.index = omega (arith, end, h.room') in
    (
      (append e l).1,
      rw (at, append_entry)
          (rw
            (
              ge→ltb index last.index (omega (arith, end)),
              other,
              before,
              (==_iff last.index last.index).1 refl,
            )
            refl),
      append-Written reader index e l count h behind,
    )

ℕ-cases : (a b : ℕ) → (a < b) ⊎ ((b ≡ a) ⊎ (b < a))
ℕ-cases a b = omega arith

-- Whatever the log, a round writes its entry and has no error.
pub append_entry-Written :
    (reader index count : ℕ) (e : LogEntry) (l : Log)
    → IsReady reader index count l
    → 1 ≤ index
    → (m : Log) × (append_entry reader index e l ≡ some (m, none)) × Written reader index e l m
unfolding append_entry
append_entry-Written reader index count e l h positive = elim (last_entry-Last l h.valid) [
  | inl (empty, at) ↦ (
    (append e l).1,
    rw (at, append_entry) refl,
    append-Written reader index e l count h
        (omega (arith, h.low, h.high, ap (λ (xs : List Entry). length xs) empty)),
  )
  | inr (last, at, stored, filled, end) ↦ elim (ℕ-cases index last.index) [
    | inl before ↦ inner-Written reader index count e l h positive at end before
    | inr (inl same) ↦ last-Written reader index count e l h positive at stored end same
    | inr (inr behind) ↦
        end-Written reader index count e l h positive at (omega (arith, behind, end, h.high))
          (omega (arith, behind, end, h.high))
  ]
]
