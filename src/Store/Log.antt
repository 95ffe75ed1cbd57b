-- ===== src/Store/Log.antt =====
-- The in-memory log of pkg/atomix/raft/store/log/log.go, with the entries of
-- pkg/atomix/raft/protocol/log.proto. The log owns its readers, which its writer resets, so a reader
-- is a position in `readers`. The code's reader index starts at -1; `cursor` is that index plus one,
-- the position of the entry that is read next.
pub mod Invariant
pub mod View
use atomix_go_raft.Base.{
  ℕ, suc, ◌+◌, ◌-◌, ◌&&◌, Option, none, some, List, [], ◌∷◌, ◌++◌, map, String, ltb, leb, ◌==◌,
  if◌then◌else◌, length, get_elem?, get_or, set, add64, sub64, ◌>>=◌,
}

-- Times are compared by UnixNano only: the number is that int64 less the least int64.
abbrev pub Time : Type 0
Time = ℕ

-- The zero time's UnixNano.
abbrev pub zero_time : Time
zero_time = 2428007458083430656

abbrev pub Bytes : Type 0
Bytes = List ℕ

-- The oneof `entry` of LogEntry; `unset` is its nil.
pub data Payload : Type 0 where
  initialize : Payload
  configuration : List String → Payload
  command : Bytes → Payload
  query : Bytes → Payload
  unset : Payload

pub record LogEntry : Type 0 where
  pub term : ℕ
  pub timestamp : Time
  pub payload : Payload

pub record Entry : Type 0 where
  pub index : ℕ
  pub entry : LogEntry

pub record Log : Type 0 where
  pub entries : List Entry
  pub first_index : ℕ
  pub readers : List ℕ

unfoldable pub new_memory_log : Log
new_memory_log = record { entries = []; first_index = 1; readers = [] }

-- The search loop of `OpenReader`: the cursor is the position of the entry with the index, or 0.
unfoldable pub open_at : ℕ → List Entry → ℕ → ℕ
open_at i [] index = 0
open_at i (e ∷ es) index =
    let rest = open_at (suc i) es index in if e.index == index then i else rest

unfoldable pub open_reader : ℕ → Log → ℕ × Log
unfolding open_at
open_reader index l =
    (length l.readers, record l { readers = l.readers ++ open_at 0 l.entries index ∷ [] })

-- The writer.
unfoldable pub last_entry : Log → Option Entry
last_entry l = if length l.entries == 0 then none else get_elem? l.entries (length l.entries - 1)

unfoldable pub last_index : Log → ℕ
last_index l = elim (last_entry l) [ none ↦ sub64 l.first_index 1 | some e ↦ e.index ]

unfoldable pub writer_next_index : Log → ℕ
writer_next_index l = elim (last_entry l) [ none ↦ l.first_index | some e ↦ add64 e.index 1 ]

unfoldable pub append : LogEntry → Log → Entry × Log
append entry l =
    let indexed : Entry = record { index = writer_next_index l; entry = entry } in
    (indexed, record l { entries = l.entries ++ indexed ∷ [] })

-- `if r.index >= 0 && len(r.log.entries) <= r.index { r.index = len(r.log.entries) - 1 }`.
unfoldable pub maybe_reset : ℕ → ℕ → ℕ
maybe_reset len cursor = if ltb 0 cursor && leb len (cursor - 1) then len else cursor

unfoldable pub reset : ℕ → Log → Log
unfolding maybe_reset
reset index l = record l {
  entries = [];
  first_index = index;
  readers = map (maybe_reset 0) l.readers;
}

-- The entries before the first whose index is above the given one.
unfoldable pub truncate_entries : ℕ → List Entry → List Entry
truncate_entries index [] = []
truncate_entries index (e ∷ es) =
    let rest = truncate_entries index es in if ltb index e.index then [] else e ∷ rest

unfoldable pub truncate : ℕ → Log → Log
unfolding truncate_entries maybe_reset
truncate index l =
    let kept = truncate_entries index l.entries in
    record l { entries = kept; readers = map (maybe_reset (length kept)) l.readers }

-- The readers.
abbrev pub cursor : ℕ → Log → ℕ
cursor r l = get_or l.readers r 0

abbrev pub set_cursor : ℕ → ℕ → Log → Log
set_cursor r c l = record l { readers = set l.readers r c }

-- `none` is an index out of range, for an entry that the cursor has left behind.
unfoldable pub current_entry : ℕ → Log → Option (Option Entry)
current_entry r l =
    if cursor r l == 0
    then some none
    else if length l.entries == 0
    then some none
    else (get_elem? l.entries (cursor r l - 1) >>= λ e. some (some e))

unfoldable pub current_index : ℕ → Log → Option ℕ
current_index r l =
    current_entry r l >>= λ o. some (elim o [ none ↦ sub64 l.first_index 1 | some e ↦ e.index ])

unfoldable pub next_index : ℕ → Log → Option ℕ
next_index r l =
    current_entry r l >>= λ o. some (elim o [ none ↦ l.first_index | some e ↦ add64 e.index 1 ])

-- A reader's `FirstIndex` and `LastIndex`, which read the log alone.
unfoldable pub reader_first_index : Log → ℕ
reader_first_index l = l.first_index

unfoldable pub reader_last_index : Log → ℕ
reader_last_index l =
    if length l.entries == 0
    then sub64 l.first_index 1
    else elim (get_elem? l.entries (length l.entries - 1)) [ none ↦ 0 | some e ↦ e.index ]

unfoldable pub next_entry : ℕ → Log → Option Entry × Log
next_entry r l =
    if ltb (cursor r l) (length l.entries)
    then (get_elem? l.entries (cursor r l), set_cursor r (cursor r l + 1) l)
    else (none, l)

-- The search loop of a reader's `Reset`: the position of the first entry at or above the index.
unfoldable pub seek : ℕ → List Entry → ℕ → Option ℕ
seek i [] index = none
seek i (e ∷ es) index =
    let rest = seek (suc i) es index in if leb index e.index then some i else rest

unfoldable pub reset_reader : ℕ → ℕ → Log → Log
unfolding seek
reset_reader r index l = elim (seek 0 l.entries index) [ none ↦ l | some i ↦ set_cursor r i l ]
