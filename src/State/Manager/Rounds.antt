-- ===== src/State/Manager/Rounds.antt =====
-- state/manager.go: a run of the loop that applies entries, round by round.
use mathlib.Core.List.{append-nil, append_assoc}
use atomix_go_raft.Base.{
  ℕ, zero, suc, ◌+◌, ◌-◌, ◌≤◌, ◌<◌, ◌≡◌, refl, subst, ◌∙◌, sym, Bool, true, inl, inr, Option, none,
  some, [], ◌∷◌, ◌++◌, arith, ltb, ltb→lt, Bool-cases, length, get_elem?, sub64,
}
use atomix_go_raft.Store.Log.{
  Time, Payload, initialize, configuration, command, query, unset, Entry, Log, next_entry,
  reset_reader,
}
use atomix_go_raft.Store.Log.Invariant.{IsValid, next_entry-IsValid, reset_reader-IsValid}
use atomix_go_raft.Store.Log.View.{Reads, next_entry-Reads, reset_reader-Reads}
use atomix_go_raft.State.Manager.{
  Manager, Effect, Run, exec_payload, exec_read, exec_entry, pending_loop, exec_pending_changes,
  exec_after_pending, mark_applied, apply_index,
}
use atomix_go_raft.State.Manager.Range.{
  IsSynced, commands, called, command_of, called-append, commands-append, between, between_cons,
  between_none, between_snoc, Applied,
}

module _ (returns : Effect → Bool) (all_return : (c : Effect) → returns c ≡ true) where
  abbrev applied : Entry → Manager → Manager
  applied e m = (exec_payload returns e.entry.payload e.index e.entry.timestamp none m).0

  pub exec_payload-returns :
      (p : Payload) (index : ℕ) (t : Time) (m : Manager)
      → (exec_payload returns p index t none m).1 ≡ true
  unfolding exec_payload
  exec_payload-returns (query value) index t m = all_return _
  exec_payload-returns (command value) index t m = all_return _
  exec_payload-returns (configuration ms) index t m = refl
  exec_payload-returns initialize index t m = refl
  exec_payload-returns unset index t m = refl

  exec_payload-called :
      (p : Payload) (index : ℕ) (t : Time) (m : Manager)
      → called (exec_payload returns p index t none m).0.effects ≡ called m.effects ++ command_of p
  unfolding exec_payload called
  exec_payload-called (query value) index t m = called-append m.effects _
  exec_payload-called (command value) index t m = called-append m.effects _
  exec_payload-called (configuration ms) index t m = sym (append-nil _)
  exec_payload-called initialize index t m = sym (append-nil _)
  exec_payload-called unset index t m = sym (append-nil _)

  exec_payload_reader :
      (p : Payload) (index : ℕ) (t : Time) (m : Manager)
      → (exec_payload returns p index t none m).0.reader ≡ m.reader
  unfolding exec_payload
  exec_payload_reader p index t m = ground arith

  -- A round of the loop: the next entry is applied, and the reader moves past it.
  pub record Round (m : Manager) (l : Log) (o : Option Entry × Log) : Type 0 where
    pub entry : Entry
    pub found : o.0 ≡ some entry
    pub stored : get_elem? l.entries (suc m.last_applied - l.first_index) ≡ some entry
    pub indexed : entry.index ≡ suc m.last_applied
    pub entries : o.1.entries ≡ l.entries
    pub first_index : o.1.first_index ≡ l.first_index
    pub synced : IsSynced (record (applied entry m) { last_applied = entry.index }) o.1

  Round-from :
      (m : Manager) (l : Log) (o : Option Entry × Log)
      → IsSynced m l
      → IsValid o.1
      → Reads m.reader (suc m.last_applied) l o
      → Round m l o
  Round-from m l o s valid reads =
      let same_reader =
        exec_payload_reader reads.entry.entry.payload reads.entry.index reads.entry.entry.timestamp
          m in
      record {
        entry = reads.entry;
        found = reads.found;
        stored = reads.stored;
        indexed = reads.indexed;
        entries = reads.entries;
        first_index = reads.first_index;
        synced = record {
          log = valid;
          room = rw (reads.entries, reads.first_index) s.room;
          known = rw (same_reader, reads.readers) s.known;
          next =
              rw same_reader (omega (arith, reads.moved, reads.indexed, reads.first_index, s.next));
        };
      }

  -- The next entry of the log is a round, also when its index is sought first.
  pub next-Round :
      (m : Manager) (l : Log)
      → IsSynced m l
      → suc m.last_applied < l.first_index + length l.entries
      → Round m l (next_entry m.reader l)
  next-Round m l s more = Round-from m l _ s (next_entry-IsValid m.reader l s.log) (
      next_entry-Reads m.reader (suc m.last_applied) l s.log (omega (arith, s.next), more) s.known
        (omega (arith, s.next)))

  sought-Round :
      (m : Manager) (l : Log)
      → IsSynced m l
      → suc m.last_applied < l.first_index + length l.entries
      → Round m l (next_entry m.reader (reset_reader m.reader (suc m.last_applied) l))
  sought-Round m l s more =
      Round-from m l _ s
        (next_entry-IsValid m.reader _ (reset_reader-IsValid m.reader (suc m.last_applied) l s.log))
        (reset_reader-Reads m.reader (suc m.last_applied) l s.log (omega (arith, s.next), more)
          s.known)

  -- One round before a run that applies the rest.
  cons-Applied :
      (index : ℕ) (m : Manager) (l : Log) (p : Option Entry × Log) (o : Run)
      → IsSynced m l
      → m.last_applied < index
      → (n : Round m l p)
      → Applied index (record (applied n.entry m) { last_applied = n.entry.index }) p.1 o
      → Applied index m l o
  unfolding commands
  cons-Applied index m l p o s less n a = record {
    returned = a.returned;
    last = a.last;
    synced = a.synced;
    entries = a.entries ∙ n.entries;
    first_index = a.first_index ∙ n.first_index;
    in_order =
        a.in_order
        ∙ rw (
          exec_payload-called n.entry.entry.payload n.entry.index n.entry.entry.timestamp m,
          n.entries,
          n.first_index,
          n.indexed,
          between_cons m.last_applied index l n.entry (omega (arith, s.next)) less n.stored,
          append_assoc,
        );
  }

  pending_loop-Applied :
      (fuel index : ℕ) (m : Manager) (l : Log)
      → IsSynced m l
      → m.last_applied ≤ index
      → index < l.first_index + length l.entries
      → index - m.last_applied < fuel
      → Applied index m l (pending_loop returns fuel index m l)
  unfolding pending_loop exec_read
  pending_loop-Applied zero index m l s low high enough = elim enough [ ]
  pending_loop-Applied (suc fuel) index m l s low high enough =
      elim (Bool-cases (ltb m.last_applied index)) [
        | inr done ↦
            let all : m.last_applied ≡ index = ground arith in
            rw (done, pending_loop)
              (record {
                returned = refl;
                last = all;
                synced = s;
                entries = refl;
                first_index = refl;
                in_order = sym (rw (between_none l all) (append-nil (called m.effects)));
              })
        | inl more ↦
            let less = ltb→lt m.last_applied index more in
            let n = next-Round m l s (omega (arith, less)) in
            rw (more, pending_loop)
              (rw n.found (
                rw
                  (exec_payload-returns n.entry.entry.payload n.entry.index n.entry.entry.timestamp
                    m)
                  (cons-Applied index m l _ _ s less n (
                    pending_loop-Applied fuel index _ _ n.synced (omega (arith, n.indexed, less))
                      (rw (n.entries, n.first_index) high) (omega (arith, n.indexed, less))))))
      ]

  -- One round after a run.
  snoc-Applied :
      (m : Manager) (l : Log) (o : Run) (p : Option Entry × Log) (index : ℕ)
      → IsSynced m l
      → m.last_applied ≤ index
      → Applied index m l o
      → (n : Round o.0 o.1 p)
      → Applied
          (suc index)
          m
          l
          (record (applied n.entry o.0) { last_applied = suc index }, p.1, true)
  unfolding commands
  snoc-Applied m l o p index s low a n =
      let here : n.entry.index ≡ suc index = omega (arith, n.indexed, a.last) in
      let stored : get_elem? l.entries (suc index - l.first_index) ≡ some n.entry =
        (rw (a.last, a.entries, a.first_index) at n.stored) in
      record {
        returned = refl;
        last = refl;
        synced =
            subst (λ i. IsSynced (record (applied n.entry o.0) { last_applied = i }) p.1) here
              n.synced;
        entries = n.entries ∙ a.entries;
        first_index = n.first_index ∙ a.first_index;
        in_order = rw (
          exec_payload-called n.entry.entry.payload n.entry.index n.entry.entry.timestamp o.0,
          a.in_order,
          between_snoc m.last_applied index l n.entry low (omega (arith, s.next)) stored,
          commands-append (between m.last_applied index l) (n.entry ∷ []),
          append_assoc,
          append-nil (command_of n.entry.entry.payload),
        );
      }

  -- The requested index itself, which is sought and read.
  requested-Applied :
      (index : ℕ) (m : Manager) (l : Log) (o : Run)
      → IsSynced m l
      → m.last_applied ≤ index
      → suc index < l.first_index + length l.entries
      → Applied index m l o
      → Applied
          (suc index)
          m
          l
          (mark_applied returns (suc index) (exec_entry returns (suc index) none none o.0 o.1))
  unfolding mark_applied exec_entry exec_read
  requested-Applied index m l o s low high a =
      let n =
        subst (λ i. Round o.0 o.1 (next_entry o.0.reader (reset_reader o.0.reader (suc i) o.1)))
          a.last (sought-Round o.0 o.1 a.synced (rw (a.last, a.entries, a.first_index) high)) in
      rw n.found (
        rw (exec_payload-returns n.entry.entry.payload n.entry.index n.entry.entry.timestamp o.0)
          (snoc-Applied m l o _ index s low a n))

  -- The run that a request to apply an index makes.
  pub exec_after_pending-Applied :
      (index : ℕ) (m : Manager) (l : Log)
      → IsSynced m l
      → m.last_applied ≤ index
      → suc index < l.first_index + length l.entries
      → Applied (suc index) m l (exec_after_pending returns (apply_index (suc index)) m l)
  unfolding exec_after_pending apply_index exec_entry exec_read exec_pending_changes
  exec_after_pending-Applied index m l s low high =
      let before : sub64 (suc index) 1 ≡ index = omega (arith, s.room) in
      let a =
        pending_loop-Applied (suc (length l.entries)) index m l s low (omega (arith, high))
          (omega (arith, s.next, high)) in
      rw before (rw a.returned (requested-Applied index m l _ s low high a))
