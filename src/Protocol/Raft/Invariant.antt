-- ===== src/Protocol/Raft/Invariant.antt =====
-- protocol/raft.go: what holds of the protocol state between two calls, and how a call may change it.
use atomix_go_raft.Base.{
  ℕ, ◌≤◌, ◌≡◌, ◌≢◌, not, refl, ◌∙◌, true, inl, inr, Option, none, some, arith, Bool-cases, eq_iff,
}
use atomix_go_raft.Protocol.Cluster.{MemberId, Cluster, get_member, is_some}
use atomix_go_raft.Protocol.Metadata.{load_term, load_vote}
use atomix_go_raft.Protocol.Raft.{
  Raft, Pointer, Status, Role, ready, notify, set_status, set_term, set_leader, set_last_voted_for,
  set_commit_index, commit, set_role, has_role, is_role, RoleType, EventType, role_event,
  loaded_term, reaches,
}

abbrev pub Known : Option MemberId → Cluster → Type 0
Known none c = Unit {0}
Known (some id) c = is_some (get_member id c) ≡ true

abbrev pub pointee : Option Pointer → Option MemberId
pointee none = none
pointee (some p) = some p.id

-- The term and the vote are in the metadata store, the leader and the vote are members, and a server
-- that is ready has committed up to the first commit index that it was told.
pub record IsValid (r : Raft) : Type 0 where
  pub stored_term : loaded_term (load_term r.metadata) 0 ≡ r.term
  pub stored_vote : load_vote r.metadata ≡ r.last_voted_for
  pub known_vote : Known r.last_voted_for r.cluster
  pub known_leader : Known (pointee r.leader) r.cluster
  pub caught_up : r.status ≡ ready → reaches r.commit_index r.first_commit_index ≡ true

-- From one state to a later one: the term and the commit index do not fall, and within a term a vote
-- that was cast stays.
pub record Grows (r s : Raft) : Type 0 where
  pub term : r.term ≤ s.term
  pub commit_index : r.commit_index ≤ s.commit_index
  pub cluster : s.cluster ≡ r.cluster
  pub vote :
      (id : MemberId) → s.term ≡ r.term → r.last_voted_for ≡ some id → s.last_voted_for ≡ some id

pub Grows-refl : (r : Raft) → Grows r r
Grows-refl r = record {
  term = omega arith;
  commit_index = omega arith;
  cluster = refl;
  vote = λ id same voted. voted;
}

pub Grows-trans : {r s t : Raft} → Grows r s → Grows s t → Grows r t
Grows-trans g h = record {
  term = omega arith;
  commit_index = omega arith;
  cluster = h.cluster ∙ g.cluster;
  vote = λ id same voted.
      h.vote id (omega (arith, g.term, h.term)) (g.vote id (omega (arith, g.term, h.term)) voted);
}

pub set_term-IsValid : (term : ℕ) (r : Raft) → IsValid r → IsValid (set_term term r).0
unfolding set_term load_term load_vote
set_term-IsValid term r v = ground arith

pub set_term-Grows : (term : ℕ) (r : Raft) → Grows r (set_term term r).0
unfolding set_term
set_term-Grows term r = ground arith

pub set_leader-IsValid :
    (target : Option Pointer) (r : Raft) → IsValid r → IsValid (set_leader target r).0
unfolding set_leader load_term load_vote
set_leader-IsValid target r v = ground arith

pub set_leader-Grows : (target : Option Pointer) (r : Raft) → Grows r (set_leader target r).0
unfolding set_leader
set_leader-Grows target r = ground arith

pub set_last_voted_for-IsValid :
    (id : MemberId) (r : Raft) → IsValid r → IsValid (set_last_voted_for id r).0
unfolding set_last_voted_for load_term load_vote
set_last_voted_for-IsValid id r v = ground arith

pub set_last_voted_for-Grows : (id : MemberId) (r : Raft) → Grows r (set_last_voted_for id r).0
unfolding set_last_voted_for
set_last_voted_for-Grows id r = grind (arith, eq_iff)

pub set_commit_index-IsValid :
    (index : ℕ) (r : Raft) → IsValid r → IsValid (set_commit_index index r)
unfolding set_commit_index
set_commit_index-IsValid index r v = ground arith

pub set_commit_index-Grows : (index : ℕ) (r : Raft) → Grows r (set_commit_index index r)
unfolding set_commit_index
set_commit_index-Grows index r = ground arith

pub commit-IsValid : (index : ℕ) (r : Raft) → IsValid r → IsValid (commit index r).0
unfolding commit
commit-IsValid index r v = ground arith

pub commit-Grows : (index : ℕ) (r : Raft) → Grows r (commit index r).0
unfolding commit
commit-Grows index r = ground arith

pub set_status-IsValid :
    (status : Status) (r : Raft) → IsValid r → status ≢ ready → IsValid (set_status status r)
unfolding set_status
set_status-IsValid status r v h = ground arith

pub set_status-Grows : (status : Status) (r : Raft) → Grows r (set_status status r)
unfolding set_status
set_status-Grows status r = ground arith

pub notify-IsValid : (type : EventType) (r : Raft) → IsValid r → IsValid (notify type r)
unfolding notify load_term load_vote
notify-IsValid type r v = ground arith

pub notify-Grows : (type : EventType) (r : Raft) → Grows r (notify type r)
unfolding notify
notify-Grows type r = ground arith

abbrev pub enter : RoleType → Raft → Raft
enter t r = record r { role = some (record { type = t; active = true }) }

pub enter-IsValid : (t : RoleType) (r : Raft) → IsValid r → IsValid (enter t r)
unfolding load_term load_vote
enter-IsValid t r v = ground arith

pub enter-Grows : (t : RoleType) (r : Raft) → Grows r (enter t r)
enter-Grows t r = ground arith

-- What the `Stop` of every role, an entry, a `Start` and a notice keep, a change of role keeps.
module _ {P : Raft → Type 0} (stop : RoleType → Raft → Raft) (start : Raft → Raft) where
  pub set_role_rule :
      ((t : RoleType) (r : Raft) → P r → P (stop t r))
      → ((t : RoleType) (r : Raft) → P r → P (enter t r))
      → ((r : Raft) → P r → P (start r))
      → ((e : EventType) (r : Raft) → P r → P (notify e r))
      → (t : RoleType) (r : Raft) → P r
      → P (set_role stop start t r)
  unfolding set_role
  set_role_rule stops enters starts notifies t r h = elim (Bool-cases (not (has_role t r.roles))) [
    | inl unknown ↦ rw unknown h
    | inr known ↦ elim (Bool-cases (is_role t r.role)) [
      | inl same ↦ rw (known, same) h
      | inr other ↦
          rw (known, other)
            (unfold notify in
              notifies role_event _
                (starts _ (enters t _ (stopped r.role (λ role. stops role.type r h)))))
    ]
  ]
    where
      stopped :
          (o : Option Role)
          → ((role : Role) → P (stop role.type r))
          → P (elim o [ none ↦ r | some role ↦ stop role.type r ])
      stopped none f = h
      stopped (some role) f = f role
