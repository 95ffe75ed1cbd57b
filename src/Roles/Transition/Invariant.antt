-- ===== src/Roles/Transition/Invariant.antt =====
-- What the parts of a change of role keep, every change of role keeps: the invariant of the protocol
-- state, the term, the vote and the commit index.
use atomix_go_raft.Base.{ℕ, ◌≡◌, refl, Option, none, inl, inr, length, ◌==◌, Bool-cases, arith}
use atomix_go_raft.Protocol.Metadata.{load_term, load_vote}
use atomix_go_raft.Protocol.Cluster.{MemberId}
use atomix_go_raft.Protocol.Raft.{
  Raft, Pointer, EventType, RoleType, follower, candidate, leader, Task, notify, spawn, set_leader,
  new_pointer,
}
use atomix_go_raft.Protocol.Raft.Invariant.{
  IsValid, Grows, Grows-trans, Grows-refl, enter, set_role_rule, set_leader-IsValid,
  set_leader-Grows, notify-IsValid, notify-Grows, enter-IsValid, enter-Grows,
}
use atomix_go_raft.Roles.Transition.{
  leads, step_down, deactivate, stop_role, set_leadership, start_leader, become_leader,
  start_candidate, become_candidate, start_follower, become_follower,
}

pub record IsStable (P : Raft → Type 0) : Type 0 where
  pub notifies : (e : EventType) (r : Raft) → P r → P (notify e r)
  pub enters : (t : RoleType) (r : Raft) → P r → P (enter t r)
  pub deactivates : (r : Raft) → P r → P (deactivate r)
  pub spawns : (t : Task) (r : Raft) → P r → P (spawn t r)
  pub allocates : (id : MemberId) (r : Raft) → P r → P (new_pointer id r).1
  pub leads_by : (p : Option Pointer) (r : Raft) → P r → P (set_leader p r).0

module _ {P : Raft → Type 0} (stable : IsStable P) where
  step_down_rule : (r : Raft) → P r → P (step_down r)
  unfolding step_down
  step_down_rule r h = elim (Bool-cases (leads r.cluster.member r.leader)) [
    | inl own ↦ rw own (stable.leads_by none r h)
    | inr other ↦ rw other h
  ]

  stop_role_rule : (t : RoleType) (r : Raft) → P r → P (stop_role t r)
  unfolding stop_role
  stop_role_rule follower r h = stable.deactivates r h
  stop_role_rule candidate r h = stable.deactivates r h
  stop_role_rule leader r h = step_down_rule r h

  start_leader_rule : (r : Raft) → P r → P (start_leader r)
  unfolding start_leader set_leadership
  start_leader_rule r h =
      stable.spawns _ _ (stable.spawns _ _ (stable.leads_by _ _ (stable.allocates _ r h)))

  pub become_leader_rule : (r : Raft) → P r → P (become_leader r)
  unfolding become_leader
  become_leader_rule =
      set_role_rule stop_role start_leader stop_role_rule stable.enters start_leader_rule
        stable.notifies leader

  start_candidate_rule : (r : Raft) → P r → P (start_candidate r)
  unfolding start_candidate
  start_candidate_rule r h = elim (Bool-cases (length r.cluster.member_ids == 1)) [
    | inl alone ↦ rw alone (become_leader_rule r h)
    | inr others ↦ rw others (stable.spawns _ r h)
  ]

  pub become_candidate_rule : (r : Raft) → P r → P (become_candidate r)
  unfolding become_candidate
  become_candidate_rule =
      set_role_rule stop_role start_candidate stop_role_rule stable.enters start_candidate_rule
        stable.notifies candidate

  start_follower_rule : (r : Raft) → P r → P (start_follower r)
  unfolding start_follower
  start_follower_rule r h = elim (Bool-cases (length r.cluster.member_ids == 1)) [
    | inl alone ↦ rw alone (become_candidate_rule r h)
    | inr others ↦ rw others (stable.spawns _ r h)
  ]

  pub become_follower_rule : (r : Raft) → P r → P (become_follower r)
  unfolding become_follower
  become_follower_rule =
      set_role_rule stop_role start_follower stop_role_rule stable.enters start_follower_rule
        stable.notifies follower

pub IsValid-IsStable : IsStable IsValid
unfolding deactivate new_pointer load_term load_vote
IsValid-IsStable = record {
  notifies = notify-IsValid;
  enters = enter-IsValid;
  deactivates = λ r v. ground arith;
  spawns = λ t r v. ground arith;
  allocates = λ id r v. ground arith;
  leads_by = set_leader-IsValid;
}

deactivate-Grows : (r : Raft) → Grows r (deactivate r)
unfolding deactivate
deactivate-Grows r = ground arith

pub Grows-IsStable : (r : Raft) → IsStable (Grows r)
unfolding new_pointer
Grows-IsStable r = record {
  notifies = λ e s g. Grows-trans g (notify-Grows e s);
  enters = λ t s g. Grows-trans g (enter-Grows t s);
  deactivates = λ s g. Grows-trans g (deactivate-Grows s);
  spawns = λ t s g. Grows-trans g (ground arith);
  allocates = λ id s g. Grows-trans g (ground arith);
  leads_by = λ p s g. Grows-trans g (set_leader-Grows p s);
}

-- The term and the vote are untouched.
pub record SameVote (term : ℕ) (vote : Option MemberId) (s : Raft) : Type 0 where
  pub same_term : s.term ≡ term
  pub same_vote : s.last_voted_for ≡ vote

pub SameVote-IsStable : (term : ℕ) (vote : Option MemberId) → IsStable (SameVote term vote)
unfolding deactivate new_pointer notify set_leader
SameVote-IsStable term vote = record {
  notifies = λ e s h. ground arith;
  enters = λ t s h. ground arith;
  deactivates = λ s h. ground arith;
  spawns = λ t s h. ground arith;
  allocates = λ id s h. ground arith;
  leads_by = λ p s h. ground arith;
}

pub become_follower-IsValid : (r : Raft) → IsValid r → IsValid (become_follower r)
become_follower-IsValid = become_follower_rule IsValid-IsStable

pub become_follower-Grows : (r : Raft) → Grows r (become_follower r)
become_follower-Grows r = become_follower_rule (Grows-IsStable r) r (Grows-refl r)

pub become_follower-SameVote : (r : Raft) → SameVote r.term r.last_voted_for (become_follower r)
become_follower-SameVote r =
    become_follower_rule (SameVote-IsStable r.term r.last_voted_for) r
      (record { same_term = refl; same_vote = refl })
