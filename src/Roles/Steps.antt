-- ===== src/Roles/Steps.antt =====
-- All that can happen to the protocol state of a server: every call of the Raft interface that changes
-- it (protocol/raft.go), and a crash with a restart. The metadata store is in memory, so a restart is without
-- the term and the vote of before.
use atomix_go_raft.Base.{
  Bool, true, false, All, List, [], ◌∷◌, ℕ, ◌≤◌, ◌≡◌, refl, ◌∙◌, Option, some, arith,
}
use atomix_go_raft.Protocol.Cluster.{MemberId}
use atomix_go_raft.Protocol.Metadata.{load_term, load_vote, new_memory_metadata_store}
use atomix_go_raft.Protocol.Raft.{
  Raft, Pointer, RoleType, follower, candidate, leader, running, new_raft, set_term, set_leader,
  set_last_voted_for, set_commit_index, commit, set_status, init, close,
}
use atomix_go_raft.Protocol.Raft.Invariant.{
  IsValid, Grows, Grows-refl, set_term-IsValid, set_term-Grows, set_leader-IsValid,
  set_leader-Grows, set_last_voted_for-IsValid, set_last_voted_for-Grows, set_commit_index-IsValid,
  set_commit_index-Grows, commit-IsValid, commit-Grows, set_status-IsValid, set_status-Grows,
}
use atomix_go_raft.Roles.Transition.{become_leader, become_candidate, become_follower, init_server}
use atomix_go_raft.Roles.Transition.Invariant.{
  IsStable, IsValid-IsStable, Grows-IsStable, become_leader_rule, become_candidate_rule,
  become_follower_rule, become_follower-IsValid, become_follower-Grows,
}

-- `SetRole`, by the role.
unfoldable pub change_role : RoleType → Raft → Raft
change_role follower r = become_follower r
change_role candidate r = become_candidate r
change_role leader r = become_leader r

-- A new process, with the metadata store that `NewRaft` makes.
unfoldable pub restart : Raft → Raft
restart r = init_server (new_raft r.cluster r.roles new_memory_metadata_store)

pub data Call : Type 0 where
  sets_term sets_commit_index commits : ℕ → Call
  sets_leader : Option Pointer → Call
  votes_for : MemberId → Call
  changes_role : RoleType → Call
  closes restarts : Call

unfoldable pub run_call : Call → Raft → Raft
run_call (sets_term t) r = (set_term t r).0
run_call (sets_commit_index i) r = set_commit_index i r
run_call (commits i) r = (commit i r).0
run_call (sets_leader p) r = (set_leader p r).0
run_call (votes_for id) r = (set_last_voted_for id r).0
run_call (changes_role t) r = change_role t r
run_call closes r = close r
run_call restarts r = restart r

-- A call that is no restart.
abbrev pub goes_on : Call → Bool
goes_on restarts = false
goes_on _ = true

-- What holds as long as a server runs: the term does not fall, and within a term a vote stays.
pub record Keeps (r s : Raft) : Type 0 where
  pub term : r.term ≤ s.term
  pub vote :
      (id : MemberId) → s.term ≡ r.term → r.last_voted_for ≡ some id → s.last_voted_for ≡ some id

pub Keeps-trans : {r s t : Raft} → Keeps r s → Keeps s t → Keeps r t
Keeps-trans g h = record {
  term = omega arith;
  vote = λ id same voted.
      h.vote id (omega (arith, g.term, h.term)) (g.vote id (omega (arith, g.term, h.term)) voted);
}

pub Grows-Keeps : {r s : Raft} → Grows r s → Keeps r s
Grows-Keeps g = record { term = g.term; vote = g.vote }

fresh : Raft → Raft
fresh r = set_status running (new_raft r.cluster r.roles new_memory_metadata_store)

fresh-IsValid : (r : Raft) → IsValid (fresh r)
unfolding fresh new_raft set_status new_memory_metadata_store load_term load_vote
fresh-IsValid r = record {
  stored_term = refl;
  stored_vote = refl;
  known_vote = tt;
  known_leader = tt;
  caught_up = λ e. cc;
}

restart_lem : (r : Raft) → restart r ≡ become_follower (fresh r)
unfolding restart fresh init_server init new_raft new_memory_metadata_store load_term load_vote
restart_lem r = refl

change_role_rule :
    {P : Raft → Type 0} → IsStable P → (t : RoleType) (r : Raft) → P r → P (change_role t r)
unfolding change_role
change_role_rule stable follower r h = become_follower_rule stable r h
change_role_rule stable candidate r h = become_candidate_rule stable r h
change_role_rule stable leader r h = become_leader_rule stable r h

pub run_call-IsValid : (c : Call) (r : Raft) → IsValid r → IsValid (run_call c r)
unfolding run_call close
run_call-IsValid (sets_term t) r v = set_term-IsValid t r v
run_call-IsValid (sets_commit_index i) r v = set_commit_index-IsValid i r v
run_call-IsValid (commits i) r v = commit-IsValid i r v
run_call-IsValid (sets_leader p) r v = set_leader-IsValid p r v
run_call-IsValid (votes_for id) r v = set_last_voted_for-IsValid id r v
run_call-IsValid (changes_role t) r v = change_role_rule IsValid-IsStable t r v
run_call-IsValid closes r v = set_status-IsValid _ r v (λ e. cc)
run_call-IsValid restarts r v = rw (restart_lem r) (become_follower-IsValid _ (fresh-IsValid r))

pub run_call-Keeps : (c : Call) (r : Raft) → goes_on c ≡ true → Keeps r (run_call c r)
unfolding run_call close
run_call-Keeps (sets_term t) r v = Grows-Keeps (set_term-Grows t r)
run_call-Keeps (sets_commit_index i) r v = Grows-Keeps (set_commit_index-Grows i r)
run_call-Keeps (commits i) r v = Grows-Keeps (commit-Grows i r)
run_call-Keeps (sets_leader p) r v = Grows-Keeps (set_leader-Grows p r)
run_call-Keeps (votes_for id) r v = Grows-Keeps (set_last_voted_for-Grows id r)
run_call-Keeps (changes_role t) r v =
    Grows-Keeps (change_role_rule (Grows-IsStable r) t r (Grows-refl r))
run_call-Keeps closes r v = Grows-Keeps (set_status-Grows _ r)
run_call-Keeps restarts r v = absurd (let no' = v in cc)

fresh-cluster : (r : Raft) → (fresh r).cluster ≡ r.cluster
unfolding fresh new_raft set_status
fresh-cluster r = refl

-- No call changes the cluster.
pub run_call-cluster : (c : Call) (r : Raft) → (run_call c r).cluster ≡ r.cluster
unfolding run_call close
run_call-cluster (sets_term t) r = (set_term-Grows t r).cluster
run_call-cluster (sets_commit_index i) r = (set_commit_index-Grows i r).cluster
run_call-cluster (commits i) r = (commit-Grows i r).cluster
run_call-cluster (sets_leader p) r = (set_leader-Grows p r).cluster
run_call-cluster (votes_for id) r = (set_last_voted_for-Grows id r).cluster
run_call-cluster (changes_role t) r =
    (change_role_rule (Grows-IsStable r) t r (Grows-refl r)).cluster
run_call-cluster closes r = (set_status-Grows _ r).cluster
run_call-cluster restarts r =
    rw (restart_lem r) ((become_follower-Grows (fresh r)).cluster ∙ fresh-cluster r)

-- Any number of calls.
unfoldable pub run_calls : List Call → Raft → Raft
run_calls [] r = r
run_calls (c ∷ cs) r = run_calls cs (run_call c r)

-- Any calls of the Raft interface and any restarts, in any order, keep the protocol state valid: term and
-- vote are in the metadata store, vote and leader are members, and a ready server has caught up.
pub run_calls-IsValid : (cs : List Call) (r : Raft) → IsValid r → IsValid (run_calls cs r)
unfolding run_calls
run_calls-IsValid [] r v = v
run_calls-IsValid (c ∷ cs) r v = run_calls-IsValid cs (run_call c r) (run_call-IsValid c r v)

-- Over any calls without a restart the term does not fall, and as long as it is the same a vote that was
-- cast stays.
pub run_calls-Keeps :
    (cs : List Call) (r : Raft) → All (λ c. goes_on c ≡ true) cs → Keeps r (run_calls cs r)
unfolding run_calls
run_calls-Keeps [] r up = record { term = omega arith; vote = λ id same voted. voted }
run_calls-Keeps (c ∷ cs) r up =
    Keeps-trans (run_call-Keeps c r up.0) (run_calls-Keeps cs (run_call c r) up.1)
