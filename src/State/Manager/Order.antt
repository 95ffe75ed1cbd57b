-- ===== src/State/Manager/Order.antt =====
-- state/manager.go: the order in which entries reach the state machine.
use atomix_go_raft.Base.{
  ℕ, zero, suc, ◌+◌, ◌≤◌, ◌<◌, ◌≡◌, Bool, true, ◌++◌, arith, lt→ltb, ge→ltb, length,
}
use atomix_go_raft.Store.Log.{Log}
use atomix_go_raft.State.Manager.{Manager, Effect, exec_change, apply_index}
use atomix_go_raft.State.Manager.Range.{IsSynced, commands, called, between}
use atomix_go_raft.State.Manager.Rounds.{exec_after_pending-Applied}

-- A state machine whose calls all return is given each command of the log once and in order when the
-- manager is asked to apply an index: from a manager whose reader stands on the entry after the last
-- one applied, over a valid log that holds the index, `ApplyIndex` adds to the commands called on the
-- state machine the commands of the entries above the last one applied, up to the index. Afterwards
-- the index is the last one applied, the reader stands on the entry after it, and the log holds the
-- same entries.
pub exec_change-apply_index :
    (returns : Effect → Bool)
    → ((c : Effect) → returns c ≡ true)
    → (index : ℕ) (m : Manager) (l : Log) → IsSynced m l
    → m.last_applied < index
    → index < l.first_index + length l.entries
    → let o = exec_change returns (apply_index index) m l in
      (called o.0.effects ≡ called m.effects ++ commands (between m.last_applied index l))
      × (o.0.last_applied ≡ index)
      × IsSynced o.0 o.1
      × (o.1.entries ≡ l.entries)
unfolding exec_change
exec_change-apply_index returns all zero m l s low high = elim low [ ]
exec_change-apply_index returns all (suc index) m l s low high =
    let a = exec_after_pending-Applied returns all index m l s (omega arith) high in
    unfold apply_index in rw (lt→ltb _ _ low) (a.in_order, a.last, a.synced, a.entries)

-- A request for an index that was applied before changes nothing.
pub exec_change-apply_index_again :
    (returns : Effect → Bool) (index : ℕ) (m : Manager) (l : Log)
    → index ≤ m.last_applied
    → exec_change returns (apply_index index) m l ≡ (m, l)
unfolding exec_change apply_index
exec_change-apply_index_again returns index m l low = rw (ge→ltb _ _ low)
