-- ===== src/Roles/Driver.antt =====
-- The events of one follower's appender (roles/appender.go: processEvents, append, and what follows an
-- installation). An append is a goroutine: `running` counts those that run, `appending` is the flag, and
-- `signal` is what an append that has ended sends on `appendCh`, until it is received.
pub mod Stall
use atomix_go_raft.Base.{
  ℕ, zero, suc, ◌+◌, ◌-◌, ◌*◌, ◌≡◌, Bool, true, false, not, ◌&&◌, Option, none, some, List, [], ◌∷◌,
  ltb, leb, if◌then◌else◌, length, drop, min, ◌>>=◌,
}
use atomix_go_raft.Store.Log.{Entry, Log, Time}
use atomix_go_raft.Store.Snapshot.{Snapshot}
use atomix_go_raft.Roles.Replication.{
  MemberAppender, Notice, append_notice, commit_notice, fail_notice, enqueue, succeed, fail,
  requeue, tell_commit,
}

pub record Driver : Type 0 where
  pub appender : MemberAppender
  pub snapshot_index : ℕ
  pub appending : Bool
  pub running : ℕ
  pub signal : Option Bool

pub data Event : Type 0 where
  entry_arrives : Entry → Event
  append_ends : Bool → Event
  heartbeat_asked ticked : Event

abbrev pub start_append : Driver → Driver
start_append d = record d { appending = true; running = d.running + 1 }

-- `if !a.appending { a.appending = true; go a.append() }`.
unfoldable pub start_if_idle : Driver → Driver
start_if_idle d = if not d.appending then start_append d else d

-- `none` waits forever for the mutex of the queue.
unfoldable pub process_event : Event → Driver → Option Driver
process_event (entry_arrives e) d =
    enqueue e d.appender >>= λ a. some (start_if_idle (record d { appender = a }))
process_event (append_ends has_entries) d =
    let idle = record d { appending = false } in
    if has_entries then some (start_append idle) else some idle
process_event heartbeat_asked d = some (start_if_idle d)
process_event ticked d = some (start_if_idle d)

-- What an append does.
pub data Plan : Type 0 where
  sends_entries pauses : Plan
  sends_snapshot : Snapshot → Plan

-- `minBackoffFailureCount` and `maxHeartbeatWait`, in nanoseconds.
abbrev pub min_backoff_failure_count : ℕ
min_backoff_failure_count = 3

abbrev pub max_heartbeat_wait : ℕ
max_heartbeat_wait = 60000000000

-- The wait grows with the square of the failures, up to a minute. The floats that the code compares are
-- exact below 2^53, and above it both are beyond the minute.
unfoldable pub heartbeat_wait_time : ℕ → ℕ → ℕ
heartbeat_wait_time failures election_timeout =
    min (failures * failures * election_timeout) max_heartbeat_wait

abbrev pub replicates : Snapshot → Driver → Bool
replicates s d = ltb d.snapshot_index s.index && leb d.appender.next_index s.index

unfoldable pub plan_append : ℕ → ℕ → Option Snapshot → Driver → Plan
plan_append time_since_failure election_timeout current d =
    if ltb min_backoff_failure_count d.appender.failure_count
    then (if ltb
          (heartbeat_wait_time (d.appender.failure_count - min_backoff_failure_count)
            election_timeout)
          time_since_failure
        then sends_entries
        else pauses)
    else elim current [
      | none ↦ sends_entries
      | some s ↦ if replicates s d then sends_snapshot s else sends_entries
    ]

-- How an installation is answered: with success, with a refusal, or not at all.
pub data InstallOutcome : Type 0 where
  installed refused broken : InstallOutcome

unfoldable pub handle_install : InstallOutcome → Snapshot → Time → Log → Driver → Driver
handle_install installed s start l d = record d {
  appender = requeue l (tell_commit start (succeed d.appender));
  snapshot_index = s.index;
}
handle_install refused s start l d = d
handle_install broken s start l d = record d { appender = requeue l (fail start d.appender) }

-- What is sent on `appendCh`.
unfoldable pub signal_of : List Notice → Option Bool
signal_of [] = none
signal_of (append_notice b ∷ ns) = some b
signal_of (commit_notice i t ∷ ns) = signal_of ns
signal_of (fail_notice t ∷ ns) = signal_of ns

-- An append ends, with the state that it leaves.
unfoldable pub end_append : Driver → Driver → Driver
end_append before d = record d {
  running = d.running - 1;
  signal = signal_of (drop (length before.appender.notices) d.appender.notices);
}

abbrev pub is_external : Event → Bool
is_external (append_ends b) = false
is_external _ = true

pub data Step (d : Driver) : Driver → Type 0 where
  -- An entry, a heartbeat or a tick.
  receives :
      (e : Event) (d' : Driver) → is_external e ≡ true → process_event e d ≡ some d' → Step d d'
  -- An append ends, after whatever it did.
  ends :
      (n : ℕ) (a : MemberAppender) (i : ℕ)
      → d.running ≡ suc n
      → Step d (end_append d (record d { appender = a; snapshot_index = i }))
  -- The end of an append is heard of.
  hears :
      (b : Bool) (d' : Driver)
      → d.signal ≡ some b
      → process_event (append_ends b) d ≡ some d'
      → Step d (record d' { signal = none })

pub data Steps (d : Driver) : Driver → Type 0 where
  stays : Steps d d
  then_steps : {c e : Driver} → Steps d c → Step c e → Steps d e
