-- ===== src/Store/Log/Invariant.antt =====
-- store/log/log.go: the invariant of the log, and that every operation keeps it.
use atomix_go_raft.Base.{
  ℕ, zero, suc, ◌+◌, ◌-◌, ◌≤◌, ◌<◌, ◌≡◌, refl, ap, ◌⊎◌, inl, inr, Option, none, some, List, [], ◌∷◌,
  ◌++◌, map, arith, ltb, ◌==◌, if◌then◌else◌, Bool-cases, sym, ltb→lt, ltb→ge, take-nil,
  length-eq-zero, ==_iff, length, get_elem?, set, get_or, take, All, All-append, length-append,
  length-take, u64_mod, get_elem?-some,
}
use atomix_go_raft.Store.Log.{
  Log, LogEntry, Entry, open_at, open_reader, last_entry, last_index, writer_next_index, append,
  maybe_reset, reset, truncate_entries, truncate, next_entry, seek, reset_reader, cursor,
  set_cursor,
}

-- Indexes run up from the first one.
abbrev pub Contiguous : ℕ → List Entry → Type 0
Contiguous first [] = Unit {0}
Contiguous first (e ∷ es) = (e.index ≡ first) × Contiguous (suc first) es

abbrev pub Within : ℕ → List ℕ → Type 0
Within n cursors = All (λ c. c ≤ n) cursors

pub record IsValid (l : Log) : Type 0 where
  pub contiguous : Contiguous l.first_index l.entries
  pub positive : 1 ≤ l.first_index
  pub bounded : l.first_index + length l.entries ≤ u64_mod
  pub cursors : Within (length l.entries) l.readers

pub index-Contiguous :
    (first : ℕ) (es : List Entry) (i : ℕ) {e : Entry}
    → Contiguous first es
    → get_elem? es i ≡ some e
    → e.index ≡ first + i
index-Contiguous first [] i c h = ground arith
index-Contiguous first (x ∷ es) zero c h = ground arith
index-Contiguous first (x ∷ es) (suc i) c h = omega (arith, index-Contiguous (suc first) es i c.1 h)

pub append-Contiguous :
    (first : ℕ) (es : List Entry) (e : Entry)
    → Contiguous first es
    → e.index ≡ first + length es
    → Contiguous first (es ++ e ∷ [])
append-Contiguous first [] e c h = (omega arith, tt)
append-Contiguous first (x ∷ es) e c h = (c.0, append-Contiguous (suc first) es e c.1 (omega arith))

take-Contiguous :
    (first n : ℕ) (es : List Entry) → Contiguous first es → Contiguous first (take n es)
take-Contiguous first zero es c = tt
take-Contiguous first (suc n) [] c = tt
take-Contiguous first (suc n) (x ∷ es) c = (c.0, take-Contiguous (suc first) n es c.1)

-- Truncation keeps a prefix, the entries up to the index.
pub truncate_entries-eq-take :
    (first index : ℕ) (es : List Entry)
    → Contiguous first es
    → truncate_entries index es ≡ take (suc index - first) es
unfolding truncate_entries
truncate_entries-eq-take first index [] c = sym (take-nil (suc index - first))
truncate_entries-eq-take first index (x ∷ es) c = elim (Bool-cases (ltb index x.index)) [
  | inl above ↦
      let none_left : suc index - first ≡ 0 = omega (arith, ltb→lt index x.index above, c.0) in
      rw (above, none_left)
  | inr within ↦
      let one_more : suc index - first ≡ suc (suc index - suc first) =
        omega (arith, ltb→ge index x.index within, c.0) in
      rw (within, one_more, truncate_entries-eq-take (suc first) index es c.1)
]

-- The search loop of a reader's `Reset` computes a position.
pub seek_lem :
    (first i index : ℕ) (es : List Entry)
    → Contiguous first es
    → seek i es index
      ≡ (if ltb (index - first) (length es) then some (i + (index - first)) else none)
unfolding seek
seek_lem first i index [] c = ground arith
seek_lem first i index (x ∷ es) c = ground (arith, seek_lem (suc first) (suc i) index es c.1)

maybe_reset-le : (len c : ℕ) → maybe_reset len c ≤ len
unfolding maybe_reset
maybe_reset-le len c = ground arith

maybe_reset-Within : (len : ℕ) (cs : List ℕ) → Within len (map (maybe_reset len) cs)
maybe_reset-Within len [] = tt
maybe_reset-Within len (c ∷ cs) = (maybe_reset-le len c, maybe_reset-Within len cs)

Within-mono : {m n : ℕ} (cs : List ℕ) → m ≤ n → Within m cs → Within n cs
Within-mono [] h w = tt
Within-mono (c ∷ cs) h w = (omega arith, Within-mono cs h w.1)

Within-set : (n c r : ℕ) (cs : List ℕ) → Within n cs → c ≤ n → Within n (set cs r c)
Within-set n c r [] w h = tt
Within-set n c zero (x ∷ cs) w h = (h, w.1)
Within-set n c (suc r) (x ∷ cs) w h = (w.0, Within-set n c r cs w.1 h)

pub get_or-Within : (n r : ℕ) (cs : List ℕ) → Within n cs → get_or cs r 0 ≤ n
get_or-Within n r [] w = omega arith
get_or-Within n zero (x ∷ cs) w = w.0
get_or-Within n (suc r) (x ∷ cs) w = get_or-Within n r cs w.1

open_at-le : (i index : ℕ) (es : List Entry) → open_at i es index ≤ i + length es
unfolding open_at
open_at-le i index [] = omega arith
open_at-le i index (x ∷ es) = ground (arith, open_at-le (suc i) index es)

-- The last entry: none of an empty log, and otherwise the one whose index is one below the end.
abbrev pub Last : Log → Option Entry → Type 0
Last l o =
    ((l.entries ≡ []) × (o ≡ none))
    ⊎ ((e : Entry) × (o ≡ some e)
        × (get_elem? l.entries (length l.entries - 1) ≡ some e)
        × (0 < length l.entries)
        × (e.index + 1 ≡ l.first_index + length l.entries))

pub last_entry-Last : (l : Log) → IsValid l → Last l (last_entry l)
unfolding last_entry
last_entry-Last l v = elim (Bool-cases (length l.entries == 0)) [
  | inl empty ↦ rw empty (inl (length-eq-zero l.entries ((==_iff _ 0).0 empty), refl))
  | inr filled ↦
      let some_entry : 0 < length l.entries = ground arith in
      let (e, h) = get_elem?-some l.entries (length l.entries - 1) (omega arith) in
      let at = index-Contiguous l.first_index l.entries (length l.entries - 1) v.contiguous h in
      rw filled (inr (e, h, h, some_entry, omega (arith, at)))
]

-- The index of the last entry is the end of the log, less one.
pub last_index_lem : (l : Log) → IsValid l → last_index l ≡ l.first_index + length l.entries - 1
unfolding last_index
last_index_lem l v = elim (last_entry-Last l v) [
  | inl (empty, h) ↦ rw (h, last_index, empty) (omega (arith, v.positive, v.bounded))
  | inr (e, h, _, _, k) ↦ rw (h, last_index) (omega arith)
]

pub writer_next_index_lem :
    (l : Log)
    → IsValid l
    → l.first_index + length l.entries < u64_mod
    → writer_next_index l ≡ l.first_index + length l.entries
unfolding writer_next_index
writer_next_index_lem l v room = elim (last_entry-Last l v) [
  | inl (empty, h) ↦
      rw (h, writer_next_index, empty) (omega (arith, ap (λ (es : List Entry). length es) empty))
  | inr (e, h, _, _, k) ↦ rw (h, writer_next_index) (omega arith)
]

-- The operations that change the log; a reader is named by its position.
pub data Op : Type 0 where
  appends : LogEntry → Op
  resets truncates opens nexts : ℕ → Op
  seeks : ℕ → ℕ → Op

unfoldable pub run_op : Op → Log → Log
run_op (appends e) l = (append e l).1
run_op (resets index) l = reset index l
run_op (truncates index) l = truncate index l
run_op (opens index) l = (open_reader index l).1
run_op (nexts r) l = (next_entry r l).1
run_op (seeks r index) l = reset_reader r index l

-- What a call must respect for the indexes to stay within uint64.
unfoldable pub Fits : Op → Log → Type 0
Fits (appends e) l = l.first_index + length l.entries < u64_mod
Fits (resets index) l = (1 ≤ index) × (index < u64_mod)
Fits _ l = Unit

pub append-IsValid :
    (e : LogEntry) (l : Log)
    → IsValid l
    → l.first_index + length l.entries < u64_mod
    → IsValid (append e l).1
unfolding append
append-IsValid e l v room = record {
  contiguous =
      append-Contiguous l.first_index l.entries _ v.contiguous (writer_next_index_lem l v room);
  positive = v.positive;
  bounded = omega (
    arith,
    length-append {0} l.entries
        (let x : Entry = record { index = writer_next_index l; entry = e } in x ∷ []),
  );
  cursors =
      Within-mono l.readers
        (omega (
          arith,
          length-append {0} l.entries
              (let x : Entry = record { index = writer_next_index l; entry = e } in x ∷ []),
        ))
        v.cursors;
}

pub truncate-IsValid : (index : ℕ) (l : Log) → IsValid l → IsValid (truncate index l)
unfolding truncate
truncate-IsValid index l v =
    rw (truncate_entries-eq-take l.first_index index l.entries v.contiguous) (record {
      contiguous = take-Contiguous l.first_index _ l.entries v.contiguous;
      positive = v.positive;
      bounded = omega (arith, v.bounded, length-take {0} (suc index - l.first_index) l.entries);
      cursors = maybe_reset-Within _ l.readers;
    })

pub set_cursor-IsValid :
    (r c : ℕ) (l : Log) → IsValid l → c ≤ length l.entries → IsValid (set_cursor r c l)
set_cursor-IsValid r c l v h = record {
  contiguous = v.contiguous;
  positive = v.positive;
  bounded = v.bounded;
  cursors = Within-set _ _ r l.readers v.cursors h;
}

pub next_entry-IsValid : (r : ℕ) (l : Log) → IsValid l → IsValid (next_entry r l).1
unfolding next_entry
next_entry-IsValid r l v = elim (Bool-cases (ltb (cursor r l) (length l.entries))) [
  | inl more ↦ rw more (set_cursor-IsValid r _ l v (ground arith))
  | inr done ↦ rw done v
]

pub reset_reader-IsValid : (r index : ℕ) (l : Log) → IsValid l → IsValid (reset_reader r index l)
unfolding reset_reader
reset_reader-IsValid r index l v =
    rw (seek_lem l.first_index 0 index l.entries v.contiguous, reset_reader)
      (elim (Bool-cases (ltb (index - l.first_index) (length l.entries))) [
        | inl found ↦ rw found (set_cursor-IsValid r _ l v (ground arith))
        | inr missing ↦ rw missing v
      ])

pub reset-IsValid : (index : ℕ) (l : Log) → 1 ≤ index → index < u64_mod → IsValid (reset index l)
unfolding reset
reset-IsValid index l positive range = record {
  contiguous = tt;
  positive = positive;
  bounded = omega (arith, range);
  cursors = maybe_reset-Within 0 l.readers;
}

-- Every operation of the log keeps it valid, as far as its indexes stay within uint64: entries are
-- numbered without gaps from the first index, which is not zero, and no reader is past the end.
pub run_op-IsValid : (op : Op) (l : Log) → IsValid l → Fits op l → IsValid (run_op op l)
unfolding run_op Fits reset open_reader reset_reader
run_op-IsValid (appends e) l v f = append-IsValid e l v f
run_op-IsValid (resets index) l v f = reset-IsValid index l f.0 f.1
run_op-IsValid (truncates index) l v f = truncate-IsValid index l v
run_op-IsValid (opens index) l v f = record {
  contiguous = v.contiguous;
  positive = v.positive;
  bounded = v.bounded;
  cursors = All-append _ l.readers _ v.cursors (omega (arith, open_at-le 0 index l.entries), tt);
}
run_op-IsValid (nexts r) l v f = next_entry-IsValid r l v
run_op-IsValid (seeks r index) l v f = reset_reader-IsValid r index l v
