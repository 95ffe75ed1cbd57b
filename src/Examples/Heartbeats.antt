-- ===== src/Examples/Heartbeats.antt =====
-- A leader of three with two heartbeats that wait.
use atomix_go_raft.Base.{◌+◌, ◌≡◌, arith, some, [], ◌∷◌}
use atomix_go_raft.Roles.Appender.{report}
use atomix_go_raft.Roles.Heartbeats.{Heartbeats, unset_time, commit_member_time}
use atomix_go_raft.Roles.Heartbeats.Majority.{Answered, commit_member_time-Answered}
use atomix_go_raft.Examples.Data.{b, c}

abbrev waiting : Heartbeats
waiting = record {
  members = b ∷ c ∷ [];
  commit_times = (b, unset_time + 5) ∷ [];
  futures = (unset_time + 10) ∷ (unset_time + 30) ∷ [];
  answered = [];
  last_quorum_time = unset_time + 5;
}

commit_member_time-Answered_example :
    (t : Heartbeats) × (commit_member_time c (unset_time + 20) waiting ≡ some t)
    × Answered waiting t
unfolding report
commit_member_time-Answered_example =
    commit_member_time-Answered c (unset_time + 20) waiting (omega arith) (omega arith)
      (omega arith, (omega arith, tt))
