-- ===== src/State/Manager/Range.antt =====
-- state/manager.go: the commands of a range of entries, and those called on the state machine.
use mathlib.Core.List.{append_assoc}
use atomix_go_raft.Base.{
  ℕ, suc, ◌+◌, ◌-◌, ◌≤◌, ◌<◌, ◌≡◌, refl, ap, ◌∙◌, sym, true, some, List, [], ◌∷◌, ◌++◌, arith,
  length, drop, take, drop-get_elem?, take-suc, get_elem?-drop, get_elem?, u64_mod,
}
use atomix_go_raft.Store.Log.{
  Bytes, Payload, initialize, configuration, command, query, unset, Entry, Log, cursor,
}
use atomix_go_raft.Store.Log.Invariant.{IsValid}
use atomix_go_raft.State.Manager.{Manager, Effect, command_call, Run}

-- The reader stands on the entry after the last one applied.
pub record IsSynced (m : Manager) (l : Log) : Type 0 where
  pub log : IsValid l
  pub room : l.first_index + length l.entries < u64_mod
  pub known : m.reader < length l.readers
  pub next : l.first_index + cursor m.reader l ≡ suc m.last_applied

-- The commands among entries, and among the calls of the state machine.
abbrev pub command_of : Payload → List Bytes
command_of (command value) = value ∷ []
command_of (query value) = []
command_of initialize = []
command_of (configuration members) = []
command_of unset = []

unfoldable pub commands : List Entry → List Bytes
commands [] = []
commands (e ∷ es) = command_of e.entry.payload ++ commands es

abbrev pub called_by : Effect → List Bytes
called_by (command_call index time value stream) = value ∷ []
called_by _ = []

unfoldable pub called : List Effect → List Bytes
called [] = []
called (c ∷ cs) = called_by c ++ called cs

pub called-append : (cs ds : List Effect) → called (cs ++ ds) ≡ called cs ++ called ds
unfolding called
called-append [] ds = refl
called-append (c ∷ cs) ds =
    rw (called-append cs ds) (sym (append_assoc (called_by c) (called cs) (called ds)))

-- The entries with indexes from `a + 1` to `b`.
abbrev pub between : ℕ → ℕ → Log → List Entry
between a b l = take (b - a) (drop (suc a - l.first_index) l.entries)

-- What applying entries up to an index comes to.
pub record Applied (index : ℕ) (m : Manager) (l : Log) (o : Run) : Type 0 where
  pub returned : o.2 ≡ true
  pub last : o.0.last_applied ≡ index
  pub synced : IsSynced o.0 o.1
  pub entries : o.1.entries ≡ l.entries
  pub first_index : o.1.first_index ≡ l.first_index
  pub in_order : called o.0.effects ≡ called m.effects ++ commands (between m.last_applied index l)

pub commands-append : (es fs : List Entry) → commands (es ++ fs) ≡ commands es ++ commands fs
unfolding commands
commands-append [] fs = refl
commands-append (e ∷ es) fs = rw (commands-append es fs, append_assoc)

pub between_cons :
    (a b : ℕ) (l : Log) (e : Entry)
    → l.first_index ≤ suc a
    → a < b
    → get_elem? l.entries (suc a - l.first_index) ≡ some e
    → between a b l ≡ e ∷ between (suc a) b l
between_cons a b l e low less stored =
    let count : b - a ≡ suc (b - suc a) = omega arith in
    let place : suc (suc a) - l.first_index ≡ suc (suc a - l.first_index) = omega arith in
    rw (count, place, drop-get_elem? l.entries (suc a - l.first_index) stored)

pub between_snoc :
    (a b : ℕ) (l : Log) (e : Entry)
    → a ≤ b
    → l.first_index ≤ suc a
    → get_elem? l.entries (suc b - l.first_index) ≡ some e
    → between a (suc b) l ≡ between a b l ++ e ∷ []
between_snoc a b l e less low stored =
    let count : suc b - a ≡ suc (b - a) = omega arith in
    let place : suc b - l.first_index ≡ (suc a - l.first_index) + (b - a) = omega arith in
    rw count (
      take-suc (drop (suc a - l.first_index) l.entries) (b - a) (
        get_elem?-drop (suc a - l.first_index) l.entries (b - a)
        ∙ ap (get_elem? l.entries) (sym place)
        ∙ stored))

pub between_none : {a b : ℕ} (l : Log) → a ≡ b → commands (between a b l) ≡ []
unfolding commands
between_none {a} {b} l same = let none_left : b - a ≡ 0 = omega arith in rw none_left
