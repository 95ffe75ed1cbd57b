-- ===== src/Examples/Commits.antt =====
-- Runs of the leader's bookkeeping.
use atomix_go_raft.Base.{◌≡◌, refl, arith, true, sort, insert, some, [], ◌∷◌}
use atomix_go_raft.Protocol.Cluster.{new_cluster}
use atomix_go_raft.Protocol.Raft.{
  Raft, Event, status_event, ready, running, commit, set_commit_index, set_status, notify, follower,
  candidate, leader,
}
use atomix_go_raft.Roles.Appender.{
  Appender, commit_member_index, sent, called, reported, report, fill, commit_up_to, commit_loop,
  commit_one, signal_index,
}
use atomix_go_raft.Roles.Appender.Quorum.{Counted, commit_member_index-Counted}
use atomix_go_raft.Roles.Appender.Waiting.{IsWaiting}
use atomix_go_raft.Roles.Appender.Signals.{IsTold, commit_member_index-IsWaiting}
use atomix_go_raft.Examples.Data.{a, b, c, config}

abbrev ready_event : Event
ready_event = record {
  type = status_event;
  status = ready;
  role = some leader;
  term = 3;
  leader = some (record { address = 0; id = a });
}

-- a leads in term 3 and has committed up to 1. It waits for the entries 2 and 3.
abbrev pub raft_a : Raft
raft_a = record {
  status = running;
  cluster = new_cluster a config;
  metadata = record { term = some 3; vote = some a };
  roles = follower ∷ candidate ∷ leader ∷ [];
  role = some (record { type = leader; active = true });
  term = 3;
  leader = some (record { address = 0; id = a });
  last_voted_for = some a;
  first_commit_index = some 1;
  commit_index = 1;
  events = [];
  spawned = [];
  allocated = 1;
}

abbrev appender : Appender
appender = record {
  members = b ∷ c ∷ [];
  commit_indexes = (b, 1) ∷ [];
  commit_channels = 2 ∷ 3 ∷ [];
  commit_futures = 2 ∷ [];
  signals = sent 1 ∷ [];
}

commit_member_index-Counted_example :
    (t : Appender × Raft) × (commit_member_index c 2 (appender, raft_a) ≡ some t)
    × Counted (b ∷ c ∷ []) raft_a t
unfolding atomix_go_raft.Roles.Appender.report
commit_member_index-Counted_example =
    commit_member_index-Counted c 2 appender raft_a (omega arith) (omega arith)

-- What the report of entry 2 by c leaves.
abbrev after : Appender × Raft
after = (
  record appender {
    commit_indexes = (b, 1) ∷ (c, 2) ∷ [];
    commit_channels = 3 ∷ [];
    commit_futures = [];
    signals = sent 1 ∷ sent 2 ∷ called 2 ∷ [];
  },
  record raft_a { commit_index = 2; status = ready; events = ready_event ∷ [] },
)

appender-IsWaiting : IsWaiting (appender, raft_a)
appender-IsWaiting = record {
  channels = (omega arith, (omega arith, tt));
  futures = (omega arith, tt);
  signals = (omega arith, tt);
}

reported_by_c : commit_member_index c 2 (appender, raft_a) ≡ some after
unfolding commit_member_index reported report fill commit_up_to commit_loop commit_one signal_index
    commit set_commit_index set_status notify sort insert
reported_by_c = refl

commit_member_index-IsWaiting_example : IsWaiting after × IsTold (appender, raft_a) after
commit_member_index-IsWaiting_example =
    commit_member_index-IsWaiting c 2 (appender, raft_a) after appender-IsWaiting reported_by_c
