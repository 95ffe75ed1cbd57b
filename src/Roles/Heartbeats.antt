-- ===== src/Roles/Heartbeats.antt =====
-- The leader's heartbeats (roles/appender.go: heartbeat, commitMemberTime, failTime): a heartbeat that was
-- asked for is answered when a majority has answered requests that were sent after it.
pub mod Majority
use atomix_go_raft.Base.{
  ℕ, zero, suc, ◌+◌, ◌*◌, ◌/◌, Bool, true, false, Option, none, some, List, [], ◌∷◌, ◌++◌, map, ltb,
  ◌==◌, if◌then◌else◌, length, get_elem?, ◌>>=◌, str_eq, sort,
}
use atomix_go_raft.Store.Log.{Time, zero_time}
use atomix_go_raft.Protocol.Cluster.{MemberId}
use atomix_go_raft.Protocol.Raft.{Raft, set_leader}
use atomix_go_raft.Roles.Transition.{become_follower}
use atomix_go_raft.Roles.Appender.{report, indexes}

-- `futures` has the times of the heartbeats that wait, oldest first, `answered` those that were answered.
pub record Heartbeats : Type 0 where
  pub members : List MemberId
  pub commit_times : List (MemberId × Time)
  pub futures : List Time
  pub answered : List Time
  pub last_quorum_time : Time

-- The int64 0, which an array of times has where it is not set.
abbrev pub unset_time : Time
unset_time = 9223372036854775808

-- Without other members a heartbeat is answered at once.
unfoldable pub heartbeat : Time → Heartbeats → Heartbeats
heartbeat now h =
    if length h.members == 0
    then record h { answered = h.answered ++ now ∷ [] }
    else record h { futures = h.futures ++ now ∷ [] }

unfoldable pub time_of : MemberId → List (MemberId × Time) → Time
time_of id [] = zero_time
time_of id (m ∷ ms) = let rest = time_of id ms in if str_eq m.0 id then m.1 else rest

-- The array of times: `none` is an index out of range.
unfoldable pub fill_times : ℕ → List Time → Option (List Time)
fill_times zero [] = some []
fill_times zero (x ∷ xs) = none
fill_times (suc n) [] = fill_times n [] >>= λ ys. some (unset_time ∷ ys)
fill_times (suc n) (x ∷ xs) = fill_times n xs >>= λ ys. some (x ∷ ys)

-- The loop over the heartbeats: those that are answered, and those that wait on.
unfoldable pub answer_before : Time → List Time → List Time × List Time
answer_before time [] = ([], [])
answer_before time (t ∷ ts) =
    let o = answer_before time ts in if ltb t time then (t ∷ o.0, o.1) else ([], t ∷ ts)

unfoldable pub commit_member_time : MemberId → Time → Heartbeats → Option Heartbeats
commit_member_time id time h =
    if ltb (time_of id h.commit_times) time
    then (let times = report id time h.commit_times in
        fill_times (length h.members) (indexes times) >>= λ filled.
        get_elem? (sort filled) (length h.members / 2) >>= λ commit_time.
        (let o = answer_before commit_time h.futures in
          some (record h {
            commit_times = times;
            answered = h.answered ++ o.0;
            futures = o.1;
            last_quorum_time = time;
          })))
    else some h

-- A failed call steps down when the last answer is too old. The timeout is in nanoseconds.
unfoldable pub fail_time : ℕ → Time → Heartbeats → Raft → Raft
fail_time election_timeout time h r =
    if ltb (h.last_quorum_time + election_timeout * 2) time
    then become_follower (set_leader none r).0
    else r
