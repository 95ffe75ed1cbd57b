-- ===== src/Examples/Data.antt =====
-- The cluster of three, its entries and its logs.
use atomix_go_raft.Base.{true, none, some, ℕ, List, [], ◌∷◌, arith}
use atomix_go_raft.Store.Log.{Log, LogEntry, Entry, command, zero_time}
use atomix_go_raft.Store.Log.Invariant.{IsValid}
use atomix_go_raft.Protocol.Cluster.{MemberId, new_cluster}
use atomix_go_raft.Protocol.Raft.{Raft, running, follower, candidate, leader}

abbrev pub a : MemberId
a = "a"

abbrev pub b : MemberId
b = "b"

abbrev pub c : MemberId
c = "c"

abbrev pub config : List (MemberId × MemberId)
config = (a, a) ∷ (b, b) ∷ (c, c) ∷ []

-- An entry of a term with a one-byte command.
abbrev pub entry_of : ℕ → ℕ → LogEntry
entry_of term value = record { term = term; timestamp = zero_time; payload = command (value ∷ []) }

abbrev pub stored : ℕ → ℕ → ℕ → Entry
stored index term value = record { index = index; entry = entry_of term value }

-- Three entries, of the terms 1, 1 and 2, and one reader before them.
abbrev pub three : Log
three = record {
  entries = stored 1 1 10 ∷ stored 2 1 20 ∷ stored 3 2 30 ∷ [];
  first_index = 1;
  readers = 0 ∷ [];
}

pub three-IsValid : IsValid three
three-IsValid = record {
  contiguous = (omega arith, (omega arith, (omega arith, tt)));
  positive = omega arith;
  bounded = omega arith;
  cursors = (omega arith, tt);
}

-- A follower in term 0.
abbrev pub new_server : MemberId → Raft
new_server id = record {
  status = running;
  cluster = new_cluster id config;
  metadata = record { term = none; vote = none };
  roles = follower ∷ candidate ∷ leader ∷ [];
  role = some (record { type = follower; active = true });
  term = 0;
  leader = none;
  last_voted_for = none;
  first_commit_index = none;
  commit_index = 0;
  events = [];
  spawned = [];
  allocated = 0;
}
