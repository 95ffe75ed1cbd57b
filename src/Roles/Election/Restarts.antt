-- ===== src/Roles/Election/Restarts.antt =====
-- Votes after a restart of the server: its log, its term and its vote were in memory only.
use atomix_go_raft.Base.{
  ◌≤◌, ◌≡◌, ◌≢◌, refl, ap, ◌∙◌, inl, inr, true, none, arith, ◌==◌, length, Bool-cases,
}
use atomix_go_raft.Store.Log.{new_memory_log, last_entry}
use atomix_go_raft.Protocol.Cluster.{Cluster, get_member, is_some}
use atomix_go_raft.Protocol.Metadata.{load_term, load_vote, new_memory_metadata_store}
use atomix_go_raft.Protocol.Raft.{
  Raft, follower, set_term, set_leader, new_raft, set_status, init, notify, set_role, has_role,
}
use atomix_go_raft.Protocol.Messages.{VoteRequest}
use atomix_go_raft.Roles.Server.{update_term_and_leader}
use atomix_go_raft.Roles.Transition.{init_server, become_follower, start_follower}
use atomix_go_raft.Roles.Steps.{restart}
use atomix_go_raft.Roles.Election.{vote, follower_vote, is_log_up_to_date}
use atomix_go_raft.Roles.Election.Votes.{handle_vote_free}

-- A server in term 0 that has not voted and knows no leader.
record IsNew (c : Cluster) (r : Raft) : Type 0 where
  term : r.term ≡ 0
  leader : r.leader ≡ none
  vote : r.last_voted_for ≡ none
  cluster : r.cluster ≡ c

restart-IsNew : (r : Raft) → length r.cluster.member_ids ≢ 1 → IsNew r.cluster (restart r)
unfolding restart init_server init load_term load_vote new_raft become_follower start_follower
    set_status notify set_role new_memory_metadata_store
restart-IsNew r many = elim (Bool-cases (length r.cluster.member_ids == 1)) [
  | inl single ↦ absurd (many (ground (arith, single)))
  | inr others ↦ elim (Bool-cases (has_role follower r.roles)) [
    | inl known ↦
        rw (others, known) (record { term = refl; leader = refl; vote = refl; cluster = refl })
    | inr unknown ↦
        rw (others, unknown) (record { term = refl; leader = refl; vote = refl; cluster = refl })
  ]
]

updated-IsNew :
    (request : VoteRequest) (r : Raft) (cluster : Cluster)
    → IsNew cluster r
    → let u = (update_term_and_leader request.term none r).0 in
      (u.term ≤ request.term)
      × (u.leader ≡ none)
      × (u.last_voted_for ≡ none)
      × (u.cluster ≡ cluster)
unfolding update_term_and_leader set_term set_leader
updated-IsNew request r cluster n = ground (arith, n.term, n.leader, n.vote, n.cluster)

-- A restart forgets the votes given: whatever a server voted for, after a restart it grants the request of
-- any member of its cluster for any term, if it is not the only member and its new log is empty.
pub restart_votes_again :
    (request : VoteRequest) (r : Raft)
    → length r.cluster.member_ids ≢ 1
    → is_some (get_member request.candidate r.cluster) ≡ true
    → (vote follower request new_memory_log (restart r)).1.voted ≡ true
unfolding vote follower_vote new_memory_log is_log_up_to_date last_entry
restart_votes_again request r many known =
    let n = restart-IsNew r many in
    let u = (update_term_and_leader request.term none (restart r)).0 in
    let (term, leaderless, free, same) = updated-IsNew request (restart r) r.cluster n in
    (handle_vote_free request new_memory_log u free).1
      (term, leaderless, ap (λ c. is_some (get_member request.candidate c)) same ∙ known, refl)
