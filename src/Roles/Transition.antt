-- ===== src/Roles/Transition.antt =====
-- The `Start` and `Stop` of the roles (roles/follower.go, candidate.go, leader.go) and the changes of
-- role that they make. A follower or a candidate that is alone in its cluster enters the next role from its
-- `Start`, so the changes of role are defined from the leader's down. Timers are not modelled.
pub mod Invariant
use atomix_go_raft.Base.{Bool, false, Option, none, some, length, ◌==◌, str_eq, if◌then◌else◌}
use atomix_go_raft.Protocol.Cluster.{MemberId}
use atomix_go_raft.Protocol.Raft.{
  Raft, Pointer, RoleType, follower, candidate, leader, reset_heartbeat_timeout, send_vote_requests,
  start_appender, commit_initialize_entry, spawn, set_leader, set_role, new_pointer, init,
}

abbrev pub leads : MemberId → Option Pointer → Bool
leads id none = false
leads id (some p) = str_eq p.id id

-- `stepDown` of the leader.
unfoldable pub step_down : Raft → Raft
step_down r = if leads r.cluster.member r.leader then (set_leader none r).0 else r

unfoldable pub deactivate : Raft → Raft
deactivate r = elim r.role [
  | none ↦ r
  | some role ↦ record r { role = some (record role { active = false }) }
]

-- The `Stop` of each role. The leader's stops its appender and leaves its `active` set.
unfoldable pub stop_role : RoleType → Raft → Raft
stop_role follower r = deactivate r
stop_role candidate r = deactivate r
stop_role leader r = step_down r

unfoldable pub set_leadership : Raft → Raft
set_leadership r = let (p, r') = new_pointer r.cluster.member r in (set_leader (some p) r').0

unfoldable pub start_leader : Raft → Raft
start_leader r = spawn commit_initialize_entry (spawn start_appender (set_leadership r))

unfoldable pub become_leader : Raft → Raft
become_leader = set_role stop_role start_leader leader

unfoldable pub start_candidate : Raft → Raft
start_candidate r =
    if length r.cluster.member_ids == 1 then become_leader r else spawn send_vote_requests r

unfoldable pub become_candidate : Raft → Raft
become_candidate = set_role stop_role start_candidate candidate

unfoldable pub start_follower : Raft → Raft
start_follower r =
    if length r.cluster.member_ids == 1 then become_candidate r else spawn reset_heartbeat_timeout r

unfoldable pub become_follower : Raft → Raft
become_follower = set_role stop_role start_follower follower

unfoldable pub init_server : Raft → Raft
init_server = init become_follower
