-- ===== src/Examples/Replications.antt =====
-- Runs of the leader's replication to a follower.
use atomix_go_raft.Base.{◌≡◌, ◌≤◌, ◌⊎◌, refl, arith, false, some, [], ◌∷◌, length}
use atomix_go_raft.Store.Log.{LogEntry, zero_time}
use atomix_go_raft.Store.Log.View.{read, view}
use atomix_go_raft.Protocol.Messages.{AppendResponse}
use atomix_go_raft.Roles.Server.{Server}
use atomix_go_raft.Roles.Append.{response, handle_append}
use atomix_go_raft.Roles.Replication.{
  MemberAppender, Request, handle_append_response, entries_append_request,
}
use atomix_go_raft.Roles.Replication.Exchange.{Moved, exchange-Moved}
use atomix_go_raft.Roles.Replication.Batch.{IsOpen, IsStretch}
use atomix_go_raft.Roles.Replication.Requests.{entries_append_request-IsStretch}
use atomix_go_raft.Examples.Data.{stored, three, three-IsValid}
use atomix_go_raft.Examples.Appends.{server, request, server-IsServing, request-Fits}
use atomix_go_raft.Examples.Commits.{raft_a}

-- The entry 2 is next, and the queue has it.
abbrev member : MemberAppender
member = record {
  prev_term = 0;
  next_index = 2;
  match_index = 0;
  failure_count = 0;
  first_failure_time = zero_time;
  reader = 0;
  queue = stored 2 1 20 ∷ [];
  held = false;
  notices = [];
}

exchange-Moved_example :
    (t : Server) × (x : AppendResponse) × (b : MemberAppender) × (handle_append request server
      ≡ some (t, response x))
    × (handle_append_response request x zero_time three (member, raft_a) ≡ some (b, raft_a))
    × Moved request member x b
exchange-Moved_example =
    exchange-Moved request server member raft_a three zero_time server-IsServing request-Fits
      (omega arith) (omega arith) (omega arith)

three-IsOpen : IsOpen 0 three
three-IsOpen = record { valid = three-IsValid; room = omega arith; known = omega arith }

entries_append_request-IsStretch_example :
    (o : Request) × (entries_append_request (λ e. 10) raft_a three member ≡ some o)
    × (o.0.prev_log_index ≡ 1)
    × ((o.0.prev_log_term ≡ 0)
        ⊎ ((e : LogEntry) × (read 1 (view three) ≡ some e) × (o.0.prev_log_term ≡ e.term)))
    × IsStretch 2 three o.0.entries
    × (1 ≤ length o.0.entries)
entries_append_request-IsStretch_example =
    entries_append_request-IsStretch (λ e. 10) raft_a three member three-IsOpen
      (omega arith, omega arith) ((omega arith, refl), tt) refl
