-- ===== src/Roles/Appender.antt =====
-- The leader's bookkeeping of what its followers have stored (roles/appender.go).
pub mod Quorum
pub mod Waiting
pub mod Signals
use atomix_go_raft.Base.{
  ℕ, zero, suc, ◌+◌, ◌-◌, ◌/◌, ◌<◌, Bool, true, false, Option, none, some, List, [], ◌∷◌, ◌++◌, map,
  ltb, leb, ◌==◌, if◌then◌else◌, length, get_elem?, ◌>>=◌, str_eq, sort,
}
use atomix_go_raft.Protocol.Cluster.{MemberId}
use atomix_go_raft.Protocol.Raft.{Raft, set_commit_index, commit}

-- What ends a wait for an index: the caller's future is called, or its channel gets `true`.
pub data Signal : Type 0 where
  sent called : ℕ → Signal

-- `raftAppender`: the other members, the map of the indexes they reported, the indexes with a channel
-- and those with a future, and the signals given, oldest first.
pub record Appender : Type 0 where
  pub members : List MemberId
  pub commit_indexes : List (MemberId × ℕ)
  pub commit_channels : List ℕ
  pub commit_futures : List ℕ
  pub signals : List Signal

unfoldable pub new_appender : List MemberId → MemberId → Appender
new_appender [] self = record {
  members = [];
  commit_indexes = [];
  commit_channels = [];
  commit_futures = [];
  signals = [];
}
new_appender (id ∷ ids) self =
    let a = new_appender ids self in
    if str_eq id self then a else record a { members = id ∷ a.members }

-- A map's lookup, 0 for a missing key, and its assignment.
unfoldable pub reported : MemberId → List (MemberId × ℕ) → ℕ
reported id [] = 0
reported id (m ∷ ms) = let rest = reported id ms in if str_eq m.0 id then m.1 else rest

unfoldable pub report : MemberId → ℕ → List (MemberId × ℕ) → List (MemberId × ℕ)
report id index [] = (id, index) ∷ []
report id index (m ∷ ms) =
    let rest = report id index ms in if str_eq m.0 id then (id, index) ∷ ms else m ∷ rest

abbrev pub indexes : List (MemberId × ℕ) → List ℕ
indexes = map λ m. m.1

-- `make([]Index, n)` filled from the front: `none` is an index out of range.
unfoldable pub fill : ℕ → List ℕ → Option (List ℕ)
fill zero [] = some []
fill zero (x ∷ xs) = none
fill (suc n) [] = fill n [] >>= λ ys. some (0 ∷ ys)
fill (suc n) (x ∷ xs) = fill n xs >>= λ ys. some (x ∷ ys)

unfoldable pub has : ℕ → List ℕ → Bool
has index [] = false
has index (i ∷ is) = let rest = has index is in if i == index then true else rest

unfoldable pub without : ℕ → List ℕ → List ℕ
without index [] = []
without index (i ∷ is) = let rest = without index is in if i == index then rest else i ∷ rest

-- The two lookups at the end of `commitIndex`.
unfoldable pub signal_index : ℕ → Appender → Appender
unfolding has without
signal_index index a =
    let b =
      if has index a.commit_channels
      then record a {
        commit_channels = without index a.commit_channels;
        signals = a.signals ++ sent index ∷ [];
      }
      else a in
    if has index b.commit_futures
    then record b {
      commit_futures = without index b.commit_futures;
      signals = b.signals ++ called index ∷ [];
    }
    else b

-- `commitIndex`.
unfoldable pub commit_one : ℕ → Appender × Raft → Appender × Raft
commit_one index s = (signal_index index s.0, (commit index (set_commit_index index s.1)).0)

-- The loop from the index behind the commit index, so many times.
unfoldable pub commit_loop : ℕ → ℕ → Appender × Raft → Appender × Raft
commit_loop zero index s = s
commit_loop (suc count) index s = commit_loop count (suc index) (commit_one index s)

unfoldable pub commit_up_to : ℕ → Appender × Raft → Appender × Raft
commit_up_to index s =
    if ltb s.1.commit_index index
    then commit_loop (index - s.1.commit_index) (suc s.1.commit_index) s
    else s

-- `commitMemberIndex`.
unfoldable pub commit_member_index : MemberId → ℕ → Appender × Raft → Option (Appender × Raft)
commit_member_index id index s =
    if ltb (reported id s.0.commit_indexes) index
    then (let reports = report id index s.0.commit_indexes in
        fill (length s.0.members) (indexes reports) >>= λ filled.
        get_elem? (sort filled) (length s.0.members / 2) >>= λ commit_index.
        some (commit_up_to commit_index (record (s.0) { commit_indexes = reports }, s.1)))
    else some s

-- `commit` of an entry: at once without other members, and otherwise after the signal. It is given
-- whether there is a function to call.
unfoldable pub commit_entry : ℕ → Bool → Appender × Raft → Appender × Raft
commit_entry index with_future s =
    if length s.0.members == 0
    then (
      if with_future then record (s.0) { signals = s.0.signals ++ called index ∷ [] } else s.0,
      (commit index (set_commit_index index s.1)).0,
    )
    else (
      record (s.0) {
        commit_channels = index ∷ without index s.0.commit_channels;
        commit_futures =
            if with_future then index ∷ without index s.0.commit_futures else s.0.commit_futures;
      },
      s.1,
    )
