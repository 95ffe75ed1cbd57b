-- ===== src/Store/Snapshot.antt =====
-- store/snapshot/snapshot.go: the snapshots in memory. A snapshot is shared by the map, by the current
-- snapshot and by its writers, so it stands in the list `objects` and is known by its place there.
use atomix_go_raft.Base.{
  ℕ, zero, suc, ◌≡◌, refl, ap, Option, none, some, List, [], ◌∷◌, ◌++◌, length, get_elem?, take,
  drop, ◌>>=◌,
}
use atomix_go_raft.Store.Log.{Time}

pub record Snapshot : Type 0 where
  pub index : ℕ
  pub timestamp : Time
  pub bytes : List ℕ

-- `snapshots` is the map from indexes, the newest binding first.
pub record SnapshotStore : Type 0 where
  pub objects : List Snapshot
  pub snapshots : List (ℕ × ℕ)
  pub current : Option ℕ

unfoldable pub new_snapshot_store : SnapshotStore
new_snapshot_store = record { objects = []; snapshots = []; current = none }

unfoldable pub new_snapshot : ℕ → Time → SnapshotStore → ℕ × SnapshotStore
new_snapshot index timestamp s = (
  length s.objects,
  record {
    objects = s.objects ++ record { index = index; timestamp = timestamp; bytes = [] } ∷ [];
    snapshots = (index, length s.objects) ∷ s.snapshots;
    current = some (length s.objects);
  },
)

unfoldable pub current_snapshot : SnapshotStore → Option Snapshot
current_snapshot s = s.current >>= λ a. get_elem? s.objects a

-- A reader is what is left to read. At the end it has no bytes, which is `none`.
unfoldable pub read_bytes : ℕ → List ℕ → Option (List ℕ × List ℕ)
read_bytes size [] = none
read_bytes size (x ∷ xs) = some (take size (x ∷ xs), drop size (x ∷ xs))

pub record Writer : Type 0 where
  pub snapshot : ℕ
  pub buf : List ℕ

abbrev pub bytes_of : Option Snapshot → List ℕ
bytes_of none = []
bytes_of (some s) = s.bytes

unfoldable pub open_writer : ℕ → SnapshotStore → Writer
open_writer a s = record { snapshot = a; buf = bytes_of (get_elem? s.objects a) }

unfoldable pub write_bytes : List ℕ → Writer → Writer
write_bytes chunk w = record w { buf = w.buf ++ chunk }

unfoldable pub set_bytes : List Snapshot → ℕ → List ℕ → List Snapshot
set_bytes [] a bytes = []
set_bytes (x ∷ xs) zero bytes = record x { bytes = bytes } ∷ xs
set_bytes (x ∷ xs) (suc a) bytes = x ∷ set_bytes xs a bytes

-- `Close` of a writer gives the snapshot the bytes that were written.
unfoldable pub close_writer : Writer → SnapshotStore → SnapshotStore
close_writer w s = record s { objects = set_bytes s.objects w.snapshot w.buf }

-- A snapshot that was made and written becomes the current one.
pub close_writer_current :
    (index : ℕ) (timestamp : Time) (bytes : List ℕ) (s : SnapshotStore)
    → let (a, s') = new_snapshot index timestamp s in
      current_snapshot (close_writer (record { snapshot = a; buf = bytes }) s')
      ≡ some (record { index = index; timestamp = timestamp; bytes = bytes })
unfolding new_snapshot current_snapshot close_writer set_bytes
close_writer_current index timestamp bytes s = written s.objects
  where
    written :
        (xs : List Snapshot)
        → get_elem?
            (set_bytes
              (xs ++ record { index = index; timestamp = timestamp; bytes = [] } ∷ [])
              (length xs)
              bytes)
            (length xs)
          ≡ some (record { index = index; timestamp = timestamp; bytes = bytes })
    written [] = refl
    written (x ∷ xs) = written xs

-- A new snapshot has a writer without bytes.
pub open_writer_new :
    (index : ℕ) (timestamp : Time) (s : SnapshotStore)
    → let (a, s') = new_snapshot index timestamp s in
      open_writer a s' ≡ record { snapshot = a; buf = [] }
unfolding new_snapshot open_writer
open_writer_new index timestamp s =
    ap (λ x. record { snapshot = length s.objects; buf = bytes_of x }) (at s.objects)
  where
    at :
        (xs : List Snapshot)
        → get_elem?
            (xs ++ record { index = index; timestamp = timestamp; bytes = [] } ∷ [])
            (length xs)
          ≡ some (record { index = index; timestamp = timestamp; bytes = [] })
    at [] = refl
    at (x ∷ xs) = at xs
