-- ===== src/Roles/Server.antt =====
-- What the roles of a server share (roles/role.go, store/store.go): the protocol state, the log with
-- the store's own reader, and the changes enqueued for the state manager, oldest first.
use atomix_go_raft.Base.{
  ℕ, Bool, true, false, not, ◌&&◌, ◌||◌, Option, none, some, List, ltb, ◌==◌, if◌then◌else◌,
}
use atomix_go_raft.Store.Log.{Log, new_memory_log, open_reader}
use atomix_go_raft.Protocol.Raft.{Raft, Pointer, set_term, set_leader}
use atomix_go_raft.State.Manager.{Change}

-- `overflow` is what the platform's conversion to uint64 makes of the float64 2^64, which the
-- language leaves open.
pub record Server : Type 0 where
  pub raft : Raft
  pub log : Log
  pub reader : ℕ
  pub changes : List Change
  pub overflow : ℕ

-- `NewMemoryStore`: a new log and a reader of it.
unfoldable pub new_memory_store : ℕ × Log
new_memory_store = open_reader 0 new_memory_log

abbrev pub is_nil {ℓ} : {A : Type ℓ} → Option A → Bool
is_nil none = true
is_nil (some a) = false

-- `updateTermAndLeader`: both errors are logged only.
unfoldable pub update_term_and_leader : ℕ → Option Pointer → Raft → Raft × Bool
update_term_and_leader term target r =
    if ltb r.term term || (term == r.term && (is_nil r.leader && not (is_nil target)))
    then ((set_leader target (set_term term r).0).0, true)
    else (r, false)
