-- ===== src/Roles/Install/Transfer.antt =====
-- A snapshot from a leader to a member.
use mathlib.Core.List.{append-nil}
use atomix_go_raft.Base.{
  ℕ, suc, ◌≤◌, ◌≡◌, ◌≢◌, refl, sym, ap, ◌∙◌, ◌⊎◌, false, none, some, List, [], ◌∷◌, ◌++◌, map,
  arith, length, take, drop, All,
}
use atomix_go_raft.Store.Snapshot.{
  Snapshot, SnapshotStore, new_snapshot, current_snapshot, read_bytes, close_writer,
  close_writer_current,
}
use atomix_go_raft.Protocol.Raft.{Raft}
use atomix_go_raft.Protocol.Messages.{ok_status, no_leader}
use atomix_go_raft.Protocol.Streams.{CallError, Streamed, failed, responded}
use atomix_go_raft.Roles.Replication.{max_batch_size}
use atomix_go_raft.Roles.Install.{
  InstallRequest, new_install_request, install_rounds, install_requests, Installing, Installed,
  responds, fails, install,
}
use atomix_go_raft.Roles.Install.Chunks.{
  chunks, IsOfTerm, IsUntouched, IsInTime, chunks-install_rounds, install_rounds-IsOfTerm,
  install-whole,
}

-- A member that is not installing yet.
abbrev pub waiting : Raft → SnapshotStore → Installing
waiting r store = record { raft = r; store = store; writer = none; locked = false }

-- What a transfer leaves.
abbrev pub Transferred :
    List (Streamed InstallRequest) → Raft → SnapshotStore → Installed → Snapshot → Type 0
Transferred ms r store o s =
    (i : Installing) × (install ms (waiting r store) ≡ some (i, o))
    × (current_snapshot i.store ≡ some s)
    × (i.locked ≡ false)

transfer_left :
    (marshalled : ℕ → List ℕ → List ℕ → List ℕ) (leader : Raft) (s : Snapshot) (r : Raft)
    (store : SnapshotStore) (left : List ℕ)
    → left ≢ []
    → r.term ≤ leader.term
    → IsUntouched marshalled
    → (length left ≤ max_batch_size) ⊎ IsInTime marshalled
    → Transferred
        (map responded (install_rounds marshalled (suc (length left)) max_batch_size leader s left))
        r
        store
        (responds (record { status = ok_status; error = no_leader }))
        (record { index = s.index; timestamp = s.timestamp; bytes = left })
unfolding install install_rounds read_bytes new_install_request
transfer_left marshalled leader s r store [] some_bytes h untouched safe = absurd (some_bytes refl)
transfer_left marshalled leader s r store (x ∷ xs) some_bytes h untouched safe =
    let n = suc (length xs) in
    let size : ℕ = 1048575 in
    let later : ℕ → List ℕ → List ℕ → List ℕ = λ k. marshalled (suc k) in
    let q =
      new_install_request leader s
        (marshalled 0 (x ∷ take size xs) (take (suc size) (drop size xs))) in
    let qs = install_rounds later n (suc size) leader s (drop size xs) in
    let o = new_snapshot s.index s.timestamp store in
    let (r', whole) =
      install-whole q qs [] r store (install_rounds-IsOfTerm later n size leader s (drop size xs))
        h in
    let all : chunks (q ∷ qs) ≡ x ∷ xs =
      chunks-install_rounds marshalled (suc n) size leader s (x ∷ xs) (omega arith) untouched
        safe in
    (
      record {
        raft = r';
        store = close_writer (record { snapshot = o.0; buf = chunks (q ∷ qs) }) o.1;
        writer = some (record { snapshot = o.0; buf = chunks (q ∷ qs) });
        locked = false;
      },
      ap (λ ms. install ms (waiting r store)) (sym (append-nil (map responded (q ∷ qs)))) ∙ whole,
      close_writer_current s.index s.timestamp (chunks (q ∷ qs)) store
          ∙ ap
              (λ bs. some (
                let t : Snapshot = record {
                  index = s.index;
                  timestamp = s.timestamp;
                  bytes = bs;
                } in
                t))
              all,
      refl,
    )

-- A snapshot with bytes goes over whole: if it has no more bytes than fit into the buffer, or every request
-- is marshalled before the next read changes the buffer (a request that no read follows is marshalled as it
-- is), and the requests that a leader sends for it reach a member whose term is not greater, in order and
-- without a failure, then the member answers that all is well, its current snapshot is that snapshot, and it
-- does not hold the lock.
pub install_transfers :
    (marshalled : ℕ → List ℕ → List ℕ → List ℕ) (leader : Raft) (s : Snapshot) (r : Raft)
    (store : SnapshotStore)
    → s.bytes ≢ []
    → r.term ≤ leader.term
    → IsUntouched marshalled
    → (length s.bytes ≤ max_batch_size) ⊎ IsInTime marshalled
    → Transferred
        (map responded (install_requests marshalled leader s))
        r
        store
        (responds (record { status = ok_status; error = no_leader }))
        s
unfolding install_requests
install_transfers marshalled leader s r store some_bytes h untouched safe =
    transfer_left marshalled leader s r store s.bytes some_bytes h untouched safe

-- A stream that breaks off: if requests of one term, which is not less than the member's, come to a member
-- that is not installing, and then an error, the member gives the error back, and the bytes that came make
-- its current snapshot.
pub install_breaks_off :
    (q : InstallRequest) (qs : List InstallRequest) (e : CallError)
    (ms : List (Streamed InstallRequest)) (r : Raft) (store : SnapshotStore)
    → All (IsOfTerm q.term) qs
    → r.term ≤ q.term
    → Transferred
        (map responded (q ∷ qs) ++ failed e ∷ ms)
        r
        store
        (fails e)
        (record { index = q.index; timestamp = q.timestamp; bytes = chunks (q ∷ qs) })
unfolding install
install_breaks_off q qs e ms r store same h =
    let o = new_snapshot q.index q.timestamp store in
    let (r', whole) = install-whole q qs (failed e ∷ ms) r store same h in
    (
      record {
        raft = r';
        store = close_writer (record { snapshot = o.0; buf = chunks (q ∷ qs) }) o.1;
        writer = some (record { snapshot = o.0; buf = chunks (q ∷ qs) });
        locked = false;
      },
      whole,
      close_writer_current q.index q.timestamp (chunks (q ∷ qs)) store,
      refl,
    )

-- A snapshot without bytes: the requests that a leader sends for it make a member that is not installing
-- panic.
pub install_empty_panics :
    (marshalled : ℕ → List ℕ → List ℕ → List ℕ) (leader : Raft) (s : Snapshot) (r : Raft)
    (store : SnapshotStore)
    → s.bytes ≡ []
    → install (map responded (install_requests marshalled leader s)) (waiting r store) ≡ none
unfolding install_requests install install_rounds read_bytes
install_empty_panics marshalled leader s r store empty = rw empty refl
