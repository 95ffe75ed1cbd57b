-- ===== src/Roles/Install.antt =====
-- The installation of a snapshot: what a leader sends (sendInstallRequests of roles/appender.go) and what
-- a member makes of it (Install of roles/passive.go, which every role inherits; a follower then resets its
-- heartbeat timeout, which is not modelled here).
pub mod Chunks
pub mod Transfer
use atomix_go_raft.Base.{
  ℕ, zero, suc, ◌+◌, Bool, true, false, Option, none, some, List, [], ◌∷◌, ◌++◌, ltb, if◌then◌else◌,
  length, take,
}
use atomix_go_raft.Store.Log.{Time}
use atomix_go_raft.Store.Snapshot.{
  Snapshot, SnapshotStore, Writer, new_snapshot, read_bytes, open_writer, write_bytes, close_writer,
}
use atomix_go_raft.Protocol.Cluster.{MemberId}
use atomix_go_raft.Protocol.Raft.{Raft, new_pointer}
use atomix_go_raft.Protocol.Messages.{
  ResponseStatus, ok_status, error_status, ResponseError, no_leader, illegal_member_state,
}
use atomix_go_raft.Protocol.Streams.{CallError, Streamed, failed, responded}
use atomix_go_raft.Roles.Server.{update_term_and_leader}
use atomix_go_raft.Roles.Replication.{max_batch_size}

pub record InstallRequest : Type 0 where
  pub term : ℕ
  pub leader : MemberId
  pub index : ℕ
  pub timestamp : Time
  pub chunk : List ℕ

pub record InstallResponse : Type 0 where
  pub status : ResponseStatus
  pub error : ResponseError

unfoldable pub new_install_request : Raft → Snapshot → List ℕ → InstallRequest
new_install_request r snapshot chunk = record {
  term = r.term;
  leader = r.cluster.member;
  index = snapshot.index;
  timestamp = snapshot.timestamp;
  chunk = chunk;
}

-- The loop that reads the snapshot, so many rounds at most. The leader's state stays as it is meanwhile. All
-- requests point into one buffer. The channel has no room, so a request is taken from it before the next
-- read, but it may be marshalled only after that read has begun to fill the buffer again. What the k-th
-- request has on the wire is an argument: `marshalled k chunk refill`, for the bytes that were read for it
-- and those that the next read writes over them, which are none at the end of the snapshot.
unfoldable pub install_rounds :
    (ℕ → List ℕ → List ℕ → List ℕ) → ℕ → ℕ → Raft → Snapshot → List ℕ → List InstallRequest
install_rounds marshalled zero size r snapshot left = []
install_rounds marshalled (suc n) size r snapshot left = elim (read_bytes size left) [
  | none ↦ []
  | some (chunk, left') ↦
      new_install_request r snapshot (marshalled 0 chunk (take size left'))
      ∷ install_rounds (λ k. marshalled (suc k)) n size r snapshot left'
]

-- One round more than the snapshot has bytes is enough.
unfoldable pub install_requests :
    (ℕ → List ℕ → List ℕ → List ℕ) → Raft → Snapshot → List InstallRequest
install_requests marshalled r snapshot =
    install_rounds marshalled (suc (length snapshot.bytes)) max_batch_size r snapshot snapshot.bytes

-- A member while it installs; `locked` tells whether it has the write lock.
pub record Installing : Type 0 where
  pub raft : Raft
  pub store : SnapshotStore
  pub writer : Option Writer
  pub locked : Bool

pub data Installed : Type 0 where
  responds : InstallResponse → Installed
  fails : CallError → Installed

-- `writer.Close()`: without a writer it panics, which is `none`.
abbrev pub close_then : Installed → Installing → Option (Installing × Installed)
close_then o i = elim i.writer [
  | none ↦ none
  | some w ↦ some (record i { store = close_writer w i.store }, o)
]

unfoldable pub with_writer : InstallRequest → Installing → Writer × SnapshotStore
with_writer request i = elim i.writer [
  | some w ↦ (w, i.store)
  | none ↦
      let (a, store) = new_snapshot request.index request.timestamp i.store in
      (open_writer a store, store)
]

-- The term and the leader of a request.
unfoldable pub update_by : InstallRequest → Raft → Raft
update_by request r =
    let (p, r') = new_pointer request.leader r in
    (update_term_and_leader request.term (some p) r').0

-- A message that is not of a lesser term is written to the snapshot; a write to memory has no error.
unfoldable pub write_message : InstallRequest → Installing → Installing
write_message request i =
    let (w, store) = with_writer request i in
    record {
      raft = update_by request i.raft;
      store = store;
      writer = some (write_bytes request.chunk w);
      locked = i.locked;
    }

unfoldable pub install :
    List (Streamed InstallRequest) → Installing → Option (Installing × Installed)
install [] i = close_then (responds (record { status = ok_status; error = no_leader })) i
install (failed e ∷ ms) i = close_then (fails e) i
install (responded request ∷ ms) i =
    let rest = install ms (write_message request i) in
    if ltb request.term (update_by request i.raft).term
    then some (
      record i { raft = update_by request i.raft; locked = true },
      responds (record { status = error_status; error = illegal_member_state }),
    )
    else rest
