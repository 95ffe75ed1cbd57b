-- ===== src/Protocol/Raft.antt =====
-- pkg/atomix/raft/protocol/raft.go: the protocol state of a server. The read and write locks are
-- not part of the state; the calls below run under the write lock. What the watchers are told is the list `events`,
-- and the goroutines that a role starts are the list `spawned`, both oldest first. `allocated` counts
-- the addresses of the pointers made so far.
pub mod Invariant
use atomix_go_raft.Base.{
  ℕ, ◌+◌, ◌≡◌, Bool, true, false, not, ◌&&◌, Option, none, some, List, [], ◌∷◌, ◌++◌, ltb, leb,
  ◌==◌, if◌then◌else◌, str_eq,
}
use atomix_go_raft.Protocol.Cluster.{MemberId, Cluster, get_member, is_some}
use atomix_go_raft.Protocol.Metadata.{Metadata, store_term, load_term, store_vote, load_vote}

pub data Status : Type 0 where
  stopped running ready : Status

pub data RoleType : Type 0 where
  follower candidate leader : RoleType

pub data EventType : Type 0 where
  status_event role_event term_event leader_event : EventType

-- A *MemberID. Two pointers are compared by address in one place, so the address is kept.
pub record Pointer : Type 0 where
  pub address : ℕ
  pub id : MemberId

pub record Event : Type 0 where
  pub type : EventType
  pub status : Status
  pub role : Option RoleType
  pub term : ℕ
  pub leader : Option Pointer

pub data Error : Type 0 where
  cannot_decrease_term unknown_member cannot_change_leader already_voted unknown_candidate : Error

pub data Task : Type 0 where
  reset_heartbeat_timeout send_vote_requests start_appender commit_initialize_entry : Task

pub record Role : Type 0 where
  pub type : RoleType
  pub active : Bool

pub record Raft : Type 0 where
  pub status : Status
  pub cluster : Cluster
  pub metadata : Metadata
  pub roles : List RoleType
  pub role : Option Role
  pub term : ℕ
  pub leader : Option Pointer
  pub last_voted_for : Option MemberId
  pub first_commit_index : Option ℕ
  pub commit_index : ℕ
  pub events : List Event
  pub spawned : List Task
  pub allocated : ℕ

unfoldable pub new_raft : Cluster → List RoleType → Metadata → Raft
new_raft cluster roles store = record {
  status = stopped;
  cluster = cluster;
  metadata = store;
  roles = roles;
  role = none;
  term = 0;
  leader = none;
  last_voted_for = none;
  first_commit_index = none;
  commit_index = 0;
  events = [];
  spawned = [];
  allocated = 0;
}

-- The address of a new variable.
unfoldable pub new_pointer : MemberId → Raft → Pointer × Raft
new_pointer id r =
    (record { address = r.allocated; id = id }, record r { allocated = r.allocated + 1 })

abbrev pub role_type : Raft → Option RoleType
role_type r = elim r.role [ none ↦ none | some role ↦ some role.type ]

unfoldable pub notify : EventType → Raft → Raft
notify type r = record r { events = r.events ++ event ∷ [] }
  where
    event : Event
    event = record {
      type = type;
      status = r.status;
      role = role_type r;
      term = r.term;
      leader = r.leader;
    }

abbrev pub same_status : Status → Status → Bool
same_status stopped stopped = true
same_status running running = true
same_status ready ready = true
same_status _ _ = false

unfoldable pub set_status : Status → Raft → Raft
unfolding notify
set_status status r =
    if same_status r.status status then r else notify status_event (record r { status = status })

unfoldable pub set_term : ℕ → Raft → Raft × Option Error
unfolding notify store_term store_vote
set_term term r =
    if ltb term r.term
    then (r, some cannot_decrease_term)
    else if ltb r.term term
    then (
      notify term_event (record r {
        term = term;
        leader = none;
        last_voted_for = none;
        metadata = store_vote none (store_term term r.metadata);
      }),
      none,
    )
    else (r, none)

set_first_leader : Pointer → Raft → Raft × Option Error
set_first_leader p r =
    if is_some (get_member p.id r.cluster)
    then (notify leader_event (record r { leader = some p }), none)
    else (r, some unknown_member)

unfoldable pub set_leader : Option Pointer → Raft → Raft × Option Error
unfolding notify set_first_leader
set_leader target r = elim r.leader [
  | none ↦ elim target [ none ↦ (r, none) | some p ↦ set_first_leader p r ]
  | some q ↦ elim target [
    | none ↦ (notify leader_event (record r { leader = none }), none)
    | some p ↦ if q.address == p.address then (r, none) else (r, some cannot_change_leader)
  ]
]

cast_vote : MemberId → Raft → Raft × Option Error
cast_vote id r =
    if is_some (get_member id r.cluster)
    then (record r { last_voted_for = some id; metadata = store_vote (some id) r.metadata }, none)
    else (r, some unknown_candidate)

unfoldable pub set_last_voted_for : MemberId → Raft → Raft × Option Error
unfolding cast_vote store_vote
set_last_voted_for id r = elim r.last_voted_for [
  | none ↦ cast_vote id r
  | some voted ↦ if str_eq voted id then cast_vote id r else (r, some already_voted)
]

unfoldable pub set_commit_index : ℕ → Raft → Raft
set_commit_index index r = elim r.first_commit_index [
  | none ↦ record r { first_commit_index = some index }
  | some k ↦ r
]

abbrev pub reaches : ℕ → Option ℕ → Bool
reaches index none = false
reaches index (some k) = leb k index

-- `Commit`: the state, and the commit index before the call.
unfoldable pub commit : ℕ → Raft → Raft × ℕ
unfolding set_status
commit index r =
    if ltb r.commit_index index
    then (
      if reaches index r.first_commit_index
          then set_status ready (record r { commit_index = index })
          else record r { commit_index = index },
      r.commit_index,
    )
    else (r, r.commit_index)

abbrev pub same_role : RoleType → RoleType → Bool
same_role follower follower = true
same_role candidate candidate = true
same_role leader leader = true
same_role _ _ = false

abbrev pub has_role : RoleType → List RoleType → Bool
has_role t [] = false
has_role t (u ∷ us) = let rest = has_role t us in if same_role u t then true else rest

abbrev pub is_role : RoleType → Option Role → Bool
is_role t none = false
is_role t (some role) = same_role role.type t

abbrev pub stop_current : (RoleType → Raft → Raft) → Raft → Raft
stop_current stop r = elim r.role [ none ↦ r | some role ↦ stop role.type r ]

-- `SetRole`, over the `Stop` of the roles and the `Start` of the one that is entered. Both return
-- nil in every role.
unfoldable pub set_role : (RoleType → Raft → Raft) → (Raft → Raft) → RoleType → Raft → Raft
unfolding notify
set_role stop start type r =
    if not (has_role type r.roles)
    then r
    else if is_role type r.role
    then r
    else (let stopped = stop_current stop r in
        notify role_event
          (start (record stopped { role = some (record { type = type; active = true }) })))

abbrev pub spawn : Task → Raft → Raft
spawn task r = record r { spawned = r.spawned ++ task ∷ [] }

abbrev pub loaded_term : Option ℕ → ℕ → ℕ
loaded_term none term = term
loaded_term (some t) term = t

-- `Init`, over the call of `SetRole(RoleFollower)` that ends it.
unfoldable pub init : (Raft → Raft) → Raft → Raft
unfolding set_status load_term load_vote
init become_follower r = become_follower (
    set_status running (record r {
      term = loaded_term (load_term r.metadata) r.term;
      last_voted_for = load_vote r.metadata;
    }))

unfoldable pub close : Raft → Raft
unfolding set_status
close r = set_status stopped r
