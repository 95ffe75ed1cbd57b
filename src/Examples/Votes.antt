-- ===== src/Examples/Votes.antt =====
-- Runs of votes and restarts.
use atomix_go_raft.Base.{◌≡◌, ◌≢◌, ◌↔◌, refl, arith, true, false, none, some, [], ◌∷◌, eq_iff}
use atomix_go_raft.Store.Log.{last_entry, new_memory_log}
use atomix_go_raft.Protocol.Cluster.{
  new_cluster, get_member, is_some, contains, get_member-contains, lookup_member,
}
use atomix_go_raft.Protocol.Raft.{
  Raft, running, set_term, set_leader, notify, set_last_voted_for, close, set_role, set_status,
  follower, candidate, leader,
}
use atomix_go_raft.Protocol.Raft.Invariant.{IsValid}
use atomix_go_raft.Protocol.Messages.{VoteRequest}
use atomix_go_raft.Protocol.Metadata.{load_term, load_vote, store_term, store_vote}
use atomix_go_raft.Roles.Server.{update_term_and_leader}
use atomix_go_raft.Roles.Transition.{become_follower, start_follower, stop_role, deactivate}
use atomix_go_raft.Roles.Steps.{
  restart, closes, restarts, sets_term, votes_for, run_calls, run_call, Keeps, run_calls-IsValid,
  run_calls-Keeps,
}
use atomix_go_raft.Roles.Election.{vote, follower_vote, handle_vote, is_log_up_to_date}
use atomix_go_raft.Roles.Election.Votes.{
  IsUpToDate, IsGrantable, is_log_up_to_date_iff, handle_vote_iff,
}
use atomix_go_raft.Roles.Election.Record.{vote_recorded, one_vote_in_term}
use atomix_go_raft.Roles.Election.Restarts.{restart_votes_again}
use atomix_go_raft.Examples.Data.{a, b, c, config, three}

-- A follower in term 2 without a leader.
abbrev raft_a : Raft
raft_a = record {
  status = running;
  cluster = new_cluster a config;
  metadata = record { term = some 2; vote = none };
  roles = follower ∷ candidate ∷ leader ∷ [];
  role = some (record { type = follower; active = true });
  term = 2;
  leader = none;
  last_voted_for = none;
  first_commit_index = none;
  commit_index = 1;
  events = [];
  spawned = [];
  allocated = 0;
}

raft_a-IsValid : IsValid raft_a
raft_a-IsValid = record {
  stored_term = unfold atomix_go_raft.Protocol.Metadata.load_term in refl;
  stored_vote = unfold atomix_go_raft.Protocol.Metadata.load_vote in refl;
  known_vote = tt;
  known_leader = tt;
  caught_up = λ h. ground (arith, h);
}

-- b asks for a vote in term 3.
abbrev request : VoteRequest
request = record { term = 3; candidate = b; last_log_index = 3; last_log_term = 2 }

b-≢-a : b ≢ a
b-≢-a h = let no : false ≡ true = (eq_iff b a).1 h in ground arith

get_member-contains_example :
    is_some (get_member b (new_cluster a config)) ≡ contains b (new_cluster a config).member_ids
get_member-contains_example = get_member-contains a b config

is_log_up_to_date_iff_example :
    (is_log_up_to_date 2 2 three ≡ true) ↔ IsUpToDate 2 2 (last_entry three)
is_log_up_to_date_iff_example = is_log_up_to_date_iff 2 2 three

handle_vote_iff_example :
    ((handle_vote request three raft_a).1.voted ≡ true) ↔ IsGrantable request three raft_a
handle_vote_iff_example = handle_vote_iff request three raft_a

run_calls-IsValid_example : IsValid (run_calls (sets_term 3 ∷ votes_for b ∷ restarts ∷ []) raft_a)
run_calls-IsValid_example =
    run_calls-IsValid (sets_term 3 ∷ votes_for b ∷ restarts ∷ []) raft_a raft_a-IsValid

run_calls-Keeps_example : Keeps raft_a (run_calls (sets_term 3 ∷ votes_for b ∷ closes ∷ []) raft_a)
run_calls-Keeps_example =
    run_calls-Keeps (sets_term 3 ∷ votes_for b ∷ closes ∷ []) raft_a (refl, (refl, (refl, tt)))

granted : (vote follower request three raft_a).1.voted ≡ true
unfolding vote follower_vote update_term_and_leader set_term set_leader notify handle_vote
    set_last_voted_for get_member lookup_member new_cluster is_log_up_to_date last_entry
granted = refl

vote_recorded_example :
    let o = vote follower request three raft_a in
    (o.0.last_voted_for ≡ some b) × (o.0.term ≡ 3) × (o.1.term ≡ 3)
unfolding new_cluster
vote_recorded_example = vote_recorded follower request three raft_a b-≢-a granted

-- The server closes, and is asked again.
granted_again :
    (vote follower request three
      (run_calls (closes ∷ []) (vote follower request three raft_a).0)).1.voted
    ≡ true
unfolding vote follower_vote update_term_and_leader set_term set_leader notify handle_vote
    set_last_voted_for get_member lookup_member new_cluster is_log_up_to_date last_entry run_calls
    run_call close set_status store_term store_vote become_follower set_role start_follower
    stop_role deactivate
granted_again = refl

b-≢-member : b ≢ (run_calls (closes ∷ []) (vote follower request three raft_a).0).cluster.member
unfolding vote follower_vote update_term_and_leader set_term set_leader notify handle_vote
    set_last_voted_for get_member lookup_member new_cluster is_log_up_to_date last_entry run_calls
    run_call close set_status store_term store_vote become_follower set_role start_follower
    stop_role deactivate
b-≢-member = b-≢-a

one_vote_in_term_example : b ≡ b
unfolding new_cluster
one_vote_in_term_example =
    one_vote_in_term follower follower request request three three raft_a (closes ∷ []) (refl, tt)
      b-≢-a b-≢-member granted granted_again refl

-- After its vote for b in term 3, the server restarts and is asked by c for term 3.
restart_votes_again_example :
    (vote follower
      (record request { candidate = c })
      new_memory_log
      (restart (vote follower request three raft_a).0)).1.voted
    ≡ true
unfolding vote follower_vote update_term_and_leader set_term set_leader notify handle_vote
    set_last_voted_for get_member lookup_member new_cluster is_log_up_to_date last_entry
    become_follower set_role start_follower stop_role deactivate store_term store_vote
restart_votes_again_example =
    restart_votes_again (record request { candidate = c }) (vote follower request three raft_a).0
      (λ h. ground (arith, h)) refl
