-- ===== src/State/Manager/Repeats.antt =====
-- state/manager.go: commands that reach the state machine more than once.
use mathlib.Core.List.{append_assoc}
use atomix_go_raft.Base.{
  ℕ, suc, ◌+◌, ◌-◌, ◌≤◌, ◌<◌, ◌≡◌, refl, ap, ◌∙◌, Bool, true, Option, none, some, ◌∷◌, ◌++◌, arith,
  lt→ltb, ge→ltb, length, get_elem?, u64_mod, sub64,
}
use atomix_go_raft.Store.Log.{
  Time, Bytes, Payload, initialize, configuration, command, query, unset, Entry, Log, next_entry,
}
use atomix_go_raft.Store.Log.Invariant.{index-Contiguous}
use atomix_go_raft.State.Manager.{
  Manager, Stream, Effect, exec_payload, exec_command, exec_read, exec_entry, pending_loop,
  exec_pending_changes, exec_after_pending, exec_change, apply_index, apply_entry,
}
use atomix_go_raft.State.Manager.Range.{
  IsSynced, commands, called, called-append, between, between_cons,
}
use atomix_go_raft.State.Manager.Rounds.{next-Round, exec_payload-returns}
use atomix_go_raft.State.Manager.Order.{exec_change-apply_index}

exec_payload_last :
    (returns : Effect → Bool) (p : Payload) (index last : ℕ) (t : Time) (m : Manager)
    → (exec_payload returns p index t none (record m { last_applied = last })).0
      ≡ record (exec_payload returns p index t none m).0 { last_applied = last }
unfolding exec_payload
exec_payload_last returns (query value) index last t m = refl
exec_payload_last returns (command value) index last t m = refl
exec_payload_last returns (configuration ms) index last t m = refl
exec_payload_last returns initialize index last t m = refl
exec_payload_last returns unset index last t m = refl

-- A manager that counts an entry as applied which its reader has not passed runs the loop as if it
-- had not applied it.
pending_loop_behind :
    (returns : Effect → Bool)
    → ((c : Effect) → returns c ≡ true)
    → (fuel index last : ℕ) (m : Manager) (l : Log) (e : Entry) → (next_entry m.reader l).0 ≡ some e
    → m.last_applied < index
    → last < index
    → pending_loop returns (suc fuel) index (record m { last_applied = last }) l
      ≡ pending_loop returns (suc fuel) index m l
unfolding pending_loop exec_read
pending_loop_behind returns all fuel index last m l e found low low' =
    let p = e.entry.payload in
    rw (lt→ltb _ _ low, lt→ltb _ _ low', pending_loop)
      (rw found (
        rw
          (
            exec_payload-returns returns all p e.index e.entry.timestamp m,
            exec_payload-returns returns all p e.index e.entry.timestamp
                (record m { last_applied = last }),
          )
          (ap
            (λ m'.
              pending_loop returns fuel index (record m' { last_applied = e.index })
                (next_entry m.reader l).1)
            (exec_payload_last returns p e.index last e.entry.timestamp m))))

exec_change_behind :
    (returns : Effect → Bool)
    → ((c : Effect) → returns c ≡ true)
    → (index last : ℕ) (m : Manager) (l : Log) (e : Entry) → (next_entry m.reader l).0 ≡ some e
    → index < u64_mod
    → m.last_applied + 1 < index
    → last + 1 < index
    → exec_change returns (apply_index index) (record m { last_applied = last }) l
      ≡ exec_change returns (apply_index index) m l
unfolding exec_change apply_index exec_after_pending exec_pending_changes
exec_change_behind returns all index last m l e found word low low' =
    let before : sub64 index 1 ≡ index - 1 = omega arith in
    rw (
      lt→ltb last index (omega arith),
      lt→ltb m.last_applied index (omega arith),
      before,
      pending_loop_behind returns all (length l.entries) (index - 1) last m l e found (omega arith)
          (omega arith),
    )

-- What the entry after the last one applied does when it comes with its content, a command.
abbrev commanded : Entry → Bytes → Option Stream → (Effect → Bool) → Manager → Manager
commanded e value stream returns m =
    (exec_command returns e.index e.entry.timestamp value stream m).0

pending_loop_done :
    (returns : Effect → Bool) (fuel index : ℕ) (m : Manager) (l : Log)
    → index ≤ m.last_applied
    → pending_loop returns (suc fuel) index m l ≡ (m, l, true)
unfolding pending_loop
pending_loop_done returns fuel index m l h = rw (ge→ltb m.last_applied index h, pending_loop)

exec_change-apply_entry :
    (returns : Effect → Bool)
    → ((c : Effect) → returns c ≡ true)
    → (m : Manager) (l : Log) (e : Entry) (value : Bytes) (stream : Option Stream)
    → e.index ≡ suc m.last_applied
    → e.index < u64_mod
    → e.entry.payload ≡ command value
    → exec_change returns (apply_entry e stream) m l
      ≡ (record (commanded e value stream returns m) { last_applied = e.index }, l)
unfolding exec_change apply_entry exec_after_pending exec_pending_changes pending_loop exec_entry
    exec_read exec_payload exec_command
exec_change-apply_entry returns all m l e value stream here word cmd =
    let before : sub64 e.index 1 ≡ m.last_applied = omega arith in
    simp (
      cmd,
      before,
      pending_loop_done returns (length l.entries) m.last_applied m l (omega arith),
      all,
    )

-- A command that was applied from the entry that came with it is run a second time by the next
-- request that has to read the log: over a valid log, from a manager whose reader stands on the entry
-- after the last one applied, `ApplyEntry` with that entry, a command, and then `ApplyIndex` with an
-- index that the log holds, at least two above the entry's, call on the state machine the command, the
-- command once more, and then the commands of the entries after it, up to the index. The calls of the
-- state machine all return.
pub exec_change-apply_entry_repeats :
    (returns : Effect → Bool)
    → ((c : Effect) → returns c ≡ true)
    → (index : ℕ) (m : Manager) (l : Log) (e : Entry) (value : Bytes) (stream : Option Stream)
    → IsSynced m l
    → get_elem? l.entries (suc m.last_applied - l.first_index) ≡ some e
    → e.entry.payload ≡ command value
    → e.index + 1 < index
    → index < l.first_index + length l.entries
    → let o = exec_change returns (apply_entry e stream) m l in
      called (exec_change returns (apply_index index) o.0 o.1).0.effects
      ≡ called m.effects ++ value ∷ value ∷ commands (between e.index index l)
unfolding exec_command called commands
exec_change-apply_entry_repeats returns all index m l e value stream s stored cmd low high =
    let here : e.index ≡ suc m.last_applied = omega (
      arith,
      index-Contiguous l.first_index l.entries (suc m.last_applied - l.first_index) s.log.contiguous
          stored,
      s.next,
    ) in
    let mc = commanded e value stream returns m in
    let synced : IsSynced mc l = record {
      log = s.log;
      room = s.room;
      known = s.known;
      next = s.next;
    } in
    let n = next-Round returns all mc l synced (omega (arith, here, low, high)) in
    rw
      (
        exec_change-apply_entry returns all m l e value stream here
            (omega (arith, low, high, s.room)) cmd,
        exec_change_behind returns all index e.index mc l n.entry n.found
            (omega (arith, high, s.room)) (omega (arith, here, low)) low,
      )
      ((exec_change-apply_index returns all index mc l synced (omega (arith, here, low)) high).0
        ∙ rw
            (
              called-append m.effects _,
              append_assoc,
              between_cons m.last_applied index l e (omega (arith, s.next))
                  (omega (arith, here, low)) stored,
              cmd,
              here,
            )
            refl)
