-- ===== src/Examples/Installs.antt =====
-- Installations of a snapshot.
use atomix_go_raft.Base.{ℕ, ◌≡◌, refl, inl, arith, true, none, List, [], ◌∷◌, map}
use atomix_go_raft.Store.Log.{zero_time}
use atomix_go_raft.Store.Snapshot.{Snapshot, new_snapshot_store}
use atomix_go_raft.Protocol.Raft.{Raft}
use atomix_go_raft.Protocol.Messages.{ok_status, no_leader}
use atomix_go_raft.Protocol.Streams.{CallError, responded, failed}
use atomix_go_raft.Roles.Install.{InstallRequest, install_requests, install, responds, fails}
use atomix_go_raft.Roles.Install.Chunks.{IsUntouched}
use atomix_go_raft.Roles.Install.Transfer.{
  waiting, Transferred, install_transfers, install_breaks_off, install_empty_panics,
}
use atomix_go_raft.Examples.Data.{a, b, new_server}

abbrev leader_a : Raft
leader_a = record (new_server a) { term = 2 }

abbrev saved : Snapshot
saved = record { index = 5; timestamp = zero_time; bytes = 1 ∷ 2 ∷ 3 ∷ [] }

abbrev nothing_saved : Snapshot
nothing_saved = record saved { bytes = [] }

-- The first part of the snapshot.
abbrev part : InstallRequest
part = record { term = 2; leader = a; index = 5; timestamp = zero_time; chunk = 1 ∷ 2 ∷ [] }

abbrev lost_call : CallError
lost_call = record { unavailable = true; text = "" }

-- A request that is marshalled after the next read: it has that read's bytes, as far as they reach.
abbrev seen_late : ℕ → List ℕ → List ℕ → List ℕ
seen_late k chunk [] = chunk
seen_late k [] (y ∷ refill) = []
seen_late k (x ∷ chunk) (y ∷ refill) = y ∷ seen_late k chunk refill

seen_late-IsUntouched : IsUntouched seen_late
seen_late-IsUntouched k [] = refl
seen_late-IsUntouched k (x ∷ chunk) = refl

install_transfers_example :
    Transferred
      (map responded (install_requests seen_late leader_a saved))
      (new_server b)
      new_snapshot_store
      (responds (record { status = ok_status; error = no_leader }))
      saved
install_transfers_example =
    install_transfers seen_late leader_a saved (new_server b) new_snapshot_store (λ h. cc)
      (omega arith) seen_late-IsUntouched (inl (omega arith))

install_breaks_off_example :
    Transferred
      (responded part ∷ failed lost_call ∷ [])
      (new_server b)
      new_snapshot_store
      (fails lost_call)
      (record { index = 5; timestamp = zero_time; bytes = 1 ∷ 2 ∷ [] })
install_breaks_off_example =
    install_breaks_off part [] lost_call [] (new_server b) new_snapshot_store tt (omega arith)

install_empty_panics_example :
    install
      (map responded (install_requests seen_late leader_a nothing_saved))
      (waiting (new_server b) new_snapshot_store)
    ≡ none
install_empty_panics_example =
    install_empty_panics seen_late leader_a nothing_saved (new_server b) new_snapshot_store refl
