-- ===== src/Examples/Logs.antt =====
-- Runs of the log.
use atomix_go_raft.Base.{◌≡◌, refl, arith, Option, some, [], ◌∷◌}
use atomix_go_raft.Store.Log.{Log, Entry}
use atomix_go_raft.Store.Log.Invariant.{IsValid, appends, truncates, run_op, run_op-IsValid, Fits}
use atomix_go_raft.Store.Log.View.{view, step, view-run_op, read_at, read_at-Reads, Reads}
use atomix_go_raft.Examples.Data.{entry_of, three, three-IsValid}

run_op-IsValid_example : IsValid (run_op (appends (entry_of 2 40)) three)
unfolding Fits
run_op-IsValid_example = run_op-IsValid (appends (entry_of 2 40)) three three-IsValid (omega arith)

view-run_op_example : view (run_op (truncates 2) three) ≡ step (truncates 2) (view three)
view-run_op_example = view-run_op (truncates 2) three three-IsValid

truncate_keeps_two :
    view (run_op (truncates 2) three)
    ≡ record { first = 1; items = entry_of 1 10 ∷ entry_of 1 20 ∷ [] }
unfolding run_op atomix_go_raft.Store.Log.truncate
truncate_keeps_two = refl

read_at-Reads_example : (o : Option Entry × Log) × (read_at 0 2 three ≡ some o) × Reads 0 2 three o
read_at-Reads_example =
    read_at-Reads 0 2 three three-IsValid (omega arith) (omega arith, omega arith) (omega arith)
