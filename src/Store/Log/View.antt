-- ===== src/Store/Log/View.antt =====
-- store/log/log.go seen as what it stores: the index of the first entry and the entries' contents.
-- Indexes are positions here, and readers are gone.
use mathlib.Core.List.{map-append}
use atomix_go_raft.Base.{
  ℕ, zero, suc, ◌+◌, ◌-◌, ◌≤◌, ◌<◌, ◌≡◌, refl, ap, ◌∙◌, false, inl, inr, Option, none, some, List,
  [], ◌∷◌, ◌++◌, map, arith, ltb, ◌==◌, if◌then◌else◌, Bool-cases, length, get_elem?, take, u64_mod,
  get_elem?-some, get_or-set_self, lt→ltb, ge→ltb, ==_iff, ◌>>=◌, length-set,
}
use atomix_go_raft.Store.Log.{
  Log, LogEntry, Entry, cursor, append, reset, truncate, open_reader, next_entry, next_index,
  current_entry, set_cursor, reset_reader,
}
use atomix_go_raft.Store.Log.Invariant.{
  IsValid, Op, appends, resets, truncates, opens, nexts, seeks, run_op, index-Contiguous,
  truncate_entries-eq-take, seek_lem, get_or-Within, set_cursor-IsValid,
}

pub record View : Type 0 where
  pub first : ℕ
  pub items : List LogEntry

abbrev pub contents : List Entry → List LogEntry
contents = map λ e. e.entry

abbrev pub view : Log → View
view l = record { first = l.first_index; items = contents l.entries }

-- The entry at an index, if the log holds one.
unfoldable pub read : ℕ → View → Option LogEntry
read index v = if ltb index v.first then none else get_elem? v.items (index - v.first)

-- The abstract log: only three operations change it.
unfoldable pub step : Op → View → View
step (appends e) v = record v { items = v.items ++ e ∷ [] }
step (resets index) v = record { first = index; items = [] }
step (truncates index) v = record v { items = take (suc index - v.first) v.items }
step _ v = v

contents-take : (n : ℕ) (es : List Entry) → contents (take n es) ≡ take n (contents es)
contents-take zero es = refl
contents-take (suc n) [] = refl
contents-take (suc n) (e ∷ es) = ap (◌∷◌ e.entry) (contents-take n es)

pub get_elem?-contents :
    (es : List Entry) (i : ℕ) {e : Entry}
    → get_elem? es i ≡ some e
    → get_elem? (contents es) i ≡ some e.entry
get_elem?-contents [] i h = ground arith
get_elem?-contents (x ∷ es) zero h = ground arith
get_elem?-contents (x ∷ es) (suc i) h = get_elem?-contents es i h

pub length-contents : (es : List Entry) → length (contents es) ≡ length es
length-contents [] = refl
length-contents (e ∷ es) = ap suc (length-contents es)

view-next_entry : (r : ℕ) (l : Log) → view (next_entry r l).1 ≡ view l
unfolding next_entry
view-next_entry r l = elim (Bool-cases (ltb (cursor r l) (length l.entries))) [
  | inl more ↦ rw more
  | inr done ↦ rw done
]

view-reset_reader : (r index : ℕ) (l : Log) → IsValid l → view (reset_reader r index l) ≡ view l
unfolding reset_reader
view-reset_reader r index l v =
    rw (seek_lem l.first_index 0 index l.entries v.contiguous, reset_reader)
      (elim (Bool-cases (ltb (index - l.first_index) (length l.entries))) [
        | inl found ↦ rw found
        | inr missing ↦ rw missing
      ])

-- Every operation of a valid log does to its contents what the abstract log says: an append adds at the
-- end, a reset empties it, a truncation keeps a prefix, and the readers' operations change nothing.
pub view-run_op : (op : Op) (l : Log) → IsValid l → view (run_op op l) ≡ step op (view l)
unfolding run_op step append reset truncate open_reader
view-run_op (appends e) l v = rw map-append
view-run_op (resets index) l v = refl
view-run_op (truncates index) l v =
    rw (truncate_entries-eq-take l.first_index index l.entries v.contiguous) (λ i. record {
      first = l.first_index;
      items = contents-take (suc index - l.first_index) l.entries i;
    })
view-run_op (opens index) l v = refl
view-run_op (nexts r) l v = view-next_entry r l
view-run_op (seeks r index) l v = view-reset_reader r index l v

-- An index that the log holds.
abbrev pub Holds : ℕ → Log → Type 0
Holds index l = (l.first_index ≤ index) × (index < l.first_index + length l.entries)

-- What a read at an index gives back: the entry, and a log in which only the reader has moved on.
pub record Reads (r index : ℕ) (l : Log) (o : Option Entry × Log) : Type 0 where
  pub entry : Entry
  pub valid : IsValid o.1
  pub found : o.0 ≡ some entry
  pub stored : get_elem? l.entries (index - l.first_index) ≡ some entry
  pub indexed : entry.index ≡ index
  pub content : read index (view l) ≡ some entry.entry
  pub entries : o.1.entries ≡ l.entries
  pub first_index : o.1.first_index ≡ l.first_index
  pub readers : length o.1.readers ≡ length l.readers
  pub moved : cursor r o.1 ≡ suc (index - l.first_index)

pub read_lem :
    (index : ℕ) (v : View) → v.first ≤ index → read index v ≡ get_elem? v.items (index - v.first)
unfolding read
read_lem index v h = rw (ge→ltb index v.first h)

pub next_entry-Reads :
    (r index : ℕ) (l : Log)
    → IsValid l
    → Holds index l
    → r < length l.readers
    → cursor r l ≡ index - l.first_index
    → Reads r index l (next_entry r l)
unfolding next_entry
next_entry-Reads r index l v h known at =
    let inside : cursor r l < length l.entries = omega (arith, at, h) in
    let (e, got) = get_elem?-some l.entries (cursor r l) inside in
    rw (lt→ltb _ _ inside) (record {
      entry = e;
      valid = set_cursor-IsValid r (cursor r l + 1) l v (omega (arith, inside));
      found = got;
      stored = rw at at got;
      indexed =
          omega
            (arith, index-Contiguous l.first_index l.entries (cursor r l) v.contiguous got, at, h);
      content =
          read_lem index (view l) h.0
          ∙ get_elem?-contents l.entries (index - l.first_index) (rw at at got);
      entries = refl;
      first_index = refl;
      readers = length-set l.readers r _;
      moved = omega (arith, get_or-set_self l.readers r (cursor r l + 1) 0 known, at);
    })

-- A reset to an index that the log holds puts the reader on it.
reset_reader_lem :
    (r index : ℕ) (l : Log)
    → IsValid l
    → Holds index l
    → reset_reader r index l ≡ set_cursor r (index - l.first_index) l
unfolding reset_reader
reset_reader_lem r index l v h =
    let inside : index - l.first_index < length l.entries = omega (arith, h) in
    rw (seek_lem l.first_index 0 index l.entries v.contiguous, reset_reader, lt→ltb _ _ inside)
      (ap (λ c. set_cursor r c l) (omega arith))

pub reset_reader-Reads :
    (r index : ℕ) (l : Log)
    → IsValid l
    → Holds index l
    → r < length l.readers
    → Reads r index l (next_entry r (reset_reader r index l))
reset_reader-Reads r index l v h known = rw (reset_reader_lem r index l v h) (
    let moved = set_cursor r (index - l.first_index) l in
    let reads =
      next_entry-Reads r index moved (set_cursor-IsValid r _ l v (omega (arith, h))) h
        (omega (arith, length-set {0} l.readers r (index - l.first_index), known))
        (get_or-set_self l.readers r _ 0 known) in
    record {
      entry = reads.entry;
      valid = reads.valid;
      found = reads.found;
      stored = reads.stored;
      indexed = reads.indexed;
      content = reads.content;
      entries = reads.entries;
      first_index = reads.first_index;
      readers = reads.readers ∙ length-set l.readers r _;
      moved = reads.moved;
    })

-- `if reader.NextIndex() != index { reader.Reset(index) }; entry := reader.NextEntry()`.
unfoldable pub read_at : ℕ → ℕ → Log → Option (Option Entry × Log)
read_at r index l = next_index r l >>= λ next.
    some (next_entry r (if next == index then l else reset_reader r index l))

-- A reader's `NextIndex` is the index at its cursor.
pub next_index_lem :
    (r : ℕ) (l : Log)
    → IsValid l
    → l.first_index + length l.entries < u64_mod
    → next_index r l ≡ some (l.first_index + cursor r l)
unfolding next_index current_entry
next_index_lem r l v room = elim (Bool-cases (cursor r l == 0)) [
  | inl start ↦ rw start (ap some (omega (arith, (==_iff (cursor r l) 0).0 start)))
  | inr later ↦
      let passed : 0 < cursor r l = ground arith in
      let within = get_or-Within (length l.entries) r l.readers v.cursors in
      let (e, got) = get_elem?-some l.entries (cursor r l - 1) (omega (arith, within)) in
      let at = index-Contiguous l.first_index l.entries (cursor r l - 1) v.contiguous got in
      let filled : (length l.entries == 0) ≡ false = ground (arith, within) in
      rw (later, filled, got) (ap some (omega (arith, at, within)))
]

-- A read at an index that a valid log holds, whose end is within uint64, does not panic and finds the
-- entry with that index, wherever the reader stood. The entries stay, the log stays valid, and the
-- reader then stands behind the entry.
pub read_at-Reads :
    (r index : ℕ) (l : Log)
    → IsValid l
    → l.first_index + length l.entries < u64_mod
    → Holds index l
    → r < length l.readers
    → (o : Option Entry × Log) × (read_at r index l ≡ some o) × Reads r index l o
unfolding read_at
read_at-Reads r index l v room h known = elim (Bool-cases (l.first_index + cursor r l == index)) [
  | inl there ↦ (
    next_entry r l,
    rw (next_index_lem r l v room, there),
    next_entry-Reads r index l v h known
        (omega (arith, (==_iff (l.first_index + cursor r l) index).0 there)),
  )
  | inr elsewhere ↦ (
    next_entry r (reset_reader r index l),
    rw (next_index_lem r l v room, elsewhere),
    reset_reader-Reads r index l v h known,
  )
]

pub truncate_view :
    (index : ℕ) (l : Log)
    → IsValid l
    → contents (truncate index l).entries ≡ take (suc index - l.first_index) (contents l.entries)
unfolding truncate
truncate_view index l v =
    rw (truncate_entries-eq-take l.first_index index l.entries v.contiguous)
      (contents-take (suc index - l.first_index) l.entries)

pub append_view :
    (e : LogEntry) (l : Log) → contents (append e l).1.entries ≡ contents l.entries ++ e ∷ []
unfolding append
append_view e l = rw map-append
