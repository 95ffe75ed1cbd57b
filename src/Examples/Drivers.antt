-- ===== src/Examples/Drivers.antt =====
-- An appender whose installation of a snapshot is refused, and a heartbeat after it.
use atomix_go_raft.Base.{◌≤◌, ◌≡◌, refl, true, false, none, [], ◌∷◌}
use atomix_go_raft.Store.Log.{zero_time}
use atomix_go_raft.Store.Snapshot.{Snapshot}
use atomix_go_raft.Roles.Replication.{MemberAppender}
use atomix_go_raft.Roles.Driver.{
  Driver, heartbeat_asked, process_event, start_if_idle, start_append, refused, handle_install,
  end_append, signal_of, receives, Steps, stays, then_steps,
}
use atomix_go_raft.Roles.Driver.Stall.{one_append, refused_stalls}
use atomix_go_raft.Examples.Data.{three}

abbrev appender : MemberAppender
appender = record {
  prev_term = 0;
  next_index = 1;
  match_index = 0;
  failure_count = 0;
  first_failure_time = zero_time;
  reader = 0;
  queue = [];
  held = false;
  notices = [];
}

abbrev idle : Driver
idle = record {
  appender = appender;
  snapshot_index = 0;
  appending = false;
  running = 0;
  signal = none;
}

abbrev busy : Driver
busy = start_append idle

abbrev saved : Snapshot
saved = record { index = 5; timestamp = zero_time; bytes = 1 ∷ [] }

asked : Steps idle busy
unfolding process_event start_if_idle
asked = then_steps stays (receives heartbeat_asked busy refl refl)

one_append_example : busy.running ≤ 1
one_append_example = one_append idle busy refl refl asked

abbrev stalled : Driver
stalled = end_append busy (handle_install refused saved zero_time three busy)

asked_again : Steps stalled stalled
unfolding process_event start_if_idle end_append handle_install signal_of
asked_again = then_steps stays (receives heartbeat_asked stalled refl refl)

refused_stalls_example :
    (stalled.running ≡ 0) × (stalled.appending ≡ true) × (stalled.signal ≡ none)
refused_stalls_example = refused_stalls saved zero_time three busy stalled refl refl asked_again
