-- ===== src/Examples/Applies.antt =====
-- Runs of the state manager.
use atomix_go_raft.Base.{◌≡◌, refl, arith, Bool, true, none, [], ◌∷◌, ◌++◌}
use atomix_go_raft.Store.Log.{zero_time}
use atomix_go_raft.State.Manager.{
  Manager, Effect, exec_change, apply_index, apply_entry, no_operation,
}
use atomix_go_raft.State.Manager.Range.{IsSynced, called, commands, between}
use atomix_go_raft.State.Manager.Order.{exec_change-apply_index}
use atomix_go_raft.State.Manager.Repeats.{exec_change-apply_entry_repeats}
use atomix_go_raft.Examples.Data.{three, three-IsValid, stored}

abbrev returns : Effect → Bool
returns call = true

abbrev manager : Manager
manager = record {
  current_index = 0;
  current_time = zero_time;
  last_applied = 0;
  reader = 0;
  operation = no_operation;
  effects = [];
}

manager-IsSynced : IsSynced manager three
manager-IsSynced = record {
  log = three-IsValid;
  room = omega arith;
  known = omega arith;
  next = refl;
}

exec_change-apply_index_example :
    let o = exec_change returns (apply_index 2) manager three in
    (called o.0.effects ≡ called [] ++ commands (between 0 2 three))
    × (o.0.last_applied ≡ 2)
    × IsSynced o.0 o.1
    × (o.1.entries ≡ three.entries)
exec_change-apply_index_example =
    exec_change-apply_index returns (λ call. refl) 2 manager three manager-IsSynced (omega arith)
      (omega arith)

exec_change-apply_entry_repeats_example :
    let o = exec_change returns (apply_entry (stored 1 1 10) none) manager three in
    called (exec_change returns (apply_index 3) o.0 o.1).0.effects
    ≡ called [] ++ (10 ∷ []) ∷ (10 ∷ []) ∷ commands (between 1 3 three)
exec_change-apply_entry_repeats_example =
    exec_change-apply_entry_repeats returns (λ call. refl) 3 manager three (stored 1 1 10) (10 ∷ [])
      none manager-IsSynced refl refl (omega arith) (omega arith)
