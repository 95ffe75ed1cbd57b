-- ===== src/Examples/Appends.antt =====
-- Runs of append requests.
use atomix_go_raft.Base.{◌≡◌, true, refl, arith, none, some, [], ◌∷◌, min, max, if◌then◌else◌}
use atomix_go_raft.Store.Log.{Log}
use atomix_go_raft.Store.Log.View.{contents}
use atomix_go_raft.Protocol.Cluster.{new_cluster}
use atomix_go_raft.Protocol.Raft.{running, follower, candidate, leader}
use atomix_go_raft.Protocol.Messages.{AppendRequest, AppendResponse}
use atomix_go_raft.Roles.Server.{Server}
use atomix_go_raft.Roles.Append.{response, handle_append, append_loop}
use atomix_go_raft.Roles.Append.Rounds.{IsReady}
use atomix_go_raft.Roles.Append.Loop.{Merged, append_loop-Merged}
use atomix_go_raft.Roles.Append.Replies.{IsServing, Fits, Handled}
use atomix_go_raft.Roles.Append.Handled.{handle_append-Handled}
use atomix_go_raft.Roles.Append.Outcomes.{
  handle_append_commit, handle_append_again, handle_append_reset,
}
use atomix_go_raft.Examples.Data.{a, b, config, entry_of, three, three-IsValid}

-- A follower of b in term 3, which has committed its first entry.
abbrev pub server : Server
server = record {
  raft = record {
    status = running;
    cluster = new_cluster a config;
    metadata = record { term = some 3; vote = none };
    roles = follower ∷ candidate ∷ leader ∷ [];
    role = some (record { type = follower; active = true });
    term = 3;
    leader = some (record { address = 0; id = b });
    last_voted_for = none;
    first_commit_index = none;
    commit_index = 1;
    events = [];
    spawned = [];
    allocated = 1;
  };
  log = three;
  reader = 0;
  changes = [];
  overflow = 0;
}

-- The leader has other entries behind the first one.
abbrev pub request : AppendRequest
request = record {
  term = 3;
  leader = b;
  prev_log_index = 1;
  prev_log_term = 1;
  entries = entry_of 3 50 ∷ entry_of 3 60 ∷ [];
  commit_index = 9;
}

-- A leader whose log begins at 8.
abbrev from_snapshot : AppendRequest
from_snapshot = record {
  term = 3;
  leader = b;
  prev_log_index = 7;
  prev_log_term = 0;
  entries = entry_of 3 50 ∷ entry_of 3 60 ∷ [];
  commit_index = 9;
}

pub server-IsServing : IsServing server
server-IsServing = record { valid = three-IsValid; known = omega arith; room = omega arith }

pub request-Fits : Fits request server
request-Fits = record { named = omega arith; low = omega arith; range = omega arith }

handle_append-Handled_example :
    (t : Server) × (x : AppendResponse) × (handle_append request server ≡ some (t, response x))
    × Handled request server t x
handle_append-Handled_example = handle_append-Handled request server server-IsServing request-Fits

handle_append_commit_example :
    (t : Server) × (x : AppendResponse) × (handle_append request server ≡ some (t, response x))
    × (t.raft.commit_index ≡ (if x.succeeded then max 1 (min 9 3) else 1))
handle_append_commit_example =
    handle_append_commit request server server-IsServing request-Fits (omega arith) (omega arith)
      (omega arith)

handle_append_again_example :
    (t u : Server) × (x y : AppendResponse) × (handle_append request server ≡ some (t, response x))
    × (handle_append request t ≡ some (u, response y))
    × (contents u.log.entries ≡ contents t.log.entries)
handle_append_again_example = handle_append_again request server server-IsServing request-Fits

handle_append_reset_example :
    (t : Server) × (x : AppendResponse) × (handle_append from_snapshot server
      ≡ some (t, response x))
    × (x.succeeded ≡ true)
    × (t.log.first_index ≡ 8)
    × (contents t.log.entries ≡ entry_of 3 50 ∷ entry_of 3 60 ∷ [])
handle_append_reset_example =
    handle_append_reset from_snapshot server (omega arith) (omega arith) refl (omega arith)
      (omega arith)

three-IsReady : IsReady 0 2 2 three
three-IsReady = record {
  valid = three-IsValid;
  known = omega arith;
  low = omega arith;
  high = omega arith;
  room = omega arith;
  room' = omega arith;
}

append_loop-Merged_example :
    (m : Log) × (append_loop 0 1 (entry_of 1 20 ∷ entry_of 3 60 ∷ []) three ≡ some (3, m, none))
    × Merged 2 (entry_of 1 20 ∷ entry_of 3 60 ∷ []) three m
append_loop-Merged_example =
    append_loop-Merged 0 1 (entry_of 1 20 ∷ entry_of 3 60 ∷ []) three three-IsReady
