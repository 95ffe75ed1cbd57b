-- ===== src/State/Manager.antt =====
-- pkg/atomix/raft/state/manager.go: the manager that applies log entries to the state machine. The
-- state machine is not part of the repository: what is called on it, and on the streams, is the list
-- `effects`, oldest first, and whether one of its calls returns or panics is a parameter. The manager's
-- reader is a reader of the log, which every call takes and gives back.
pub mod Range
mod Rounds
pub mod Order
pub mod Repeats
use atomix_go_raft.Base.{
  ℕ, zero, suc, ◌+◌, ◌≡◌, Bool, true, false, Option, none, some, List, [], ◌∷◌, ◌++◌, ltb,
  if◌then◌else◌, length, sub64,
}
use atomix_go_raft.Store.Log.{
  Time, zero_time, Bytes, Payload, initialize, configuration, command, query, unset, LogEntry,
  Entry, Log, next_entry, open_reader, reset_reader,
}

-- A stream of the caller, by a number.
abbrev pub Stream : Type 0
Stream = ℕ

pub data Operation : Type 0 where
  no_operation op_type_query op_type_command : Operation

-- A call of the state machine, with what it can ask of the manager while it runs, or of a stream.
pub data Effect : Type 0 where
  command_call : ℕ → Time → Bytes → Option Stream → Effect
  query_call : ℕ → Time → Bytes → Option Stream → Effect
  stream_value stream_close : Stream → Effect

pub record Change : Type 0 where
  pub index : ℕ
  pub entry : Option LogEntry
  pub stream : Option Stream

pub record Manager : Type 0 where
  pub current_index : ℕ
  pub current_time : Time
  pub last_applied : ℕ
  pub reader : ℕ
  pub operation : Operation
  pub effects : List Effect

unfoldable pub new_manager : Log → Manager × Log
new_manager l =
    let (reader, l') = open_reader 0 l in
    (
      record {
        current_index = 0;
        current_time = zero_time;
        last_applied = 0;
        reader = reader;
        operation = no_operation;
        effects = [];
      },
      l',
    )

unfoldable pub apply_index : ℕ → Change
apply_index index = record { index = index; entry = none; stream = none }

unfoldable pub apply_entry : Entry → Option Stream → Change
apply_entry e stream = record { index = e.index; entry = some e.entry; stream = stream }

unfoldable pub update_clock : ℕ → Time → Manager → Manager
update_clock index timestamp m = record m {
  current_index = index;
  current_time = if ltb m.current_time timestamp then timestamp else m.current_time;
}

abbrev pub add_effect : Effect → Manager → Manager
add_effect e m = record m { effects = m.effects ++ e ∷ [] }

-- `if stream != nil { stream.Value(nil); stream.Close() }`.
abbrev pub finish_stream : Option Stream → Manager → Manager
finish_stream none m = m
finish_stream (some s) m = add_effect (stream_close s) (add_effect (stream_value s) m)

unfoldable pub exec_init : ℕ → Time → Option Stream → Manager → Manager
unfolding update_clock
exec_init index timestamp stream m = finish_stream stream (update_clock index timestamp m)

unfoldable pub exec_config : ℕ → Time → Option Stream → Manager → Manager
unfolding update_clock
exec_config index timestamp stream m = finish_stream stream (update_clock index timestamp m)

-- With `false` a call panicked: the state is then the one in which it did.
abbrev pub Run : Type 0
Run = Manager × Log × Bool

module _ (returns : Effect → Bool) where
  unfoldable pub exec_query : Bytes → Option Stream → Manager → Manager × Bool
  exec_query value stream m =
      let call = query_call m.current_index m.current_time value stream in
      (add_effect call (record m { operation = op_type_query }), returns call)

  unfoldable pub exec_command : ℕ → Time → Bytes → Option Stream → Manager → Manager × Bool
  unfolding update_clock
  exec_command index timestamp value stream m =
      let m' = update_clock index timestamp m in
      let call = command_call m'.current_index m'.current_time value stream in
      (add_effect call (record m' { operation = op_type_command }), returns call)

  -- The type switch of `execEntry`.
  unfoldable pub exec_payload : Payload → ℕ → Time → Option Stream → Manager → Manager × Bool
  unfolding exec_query exec_command exec_config exec_init
  exec_payload (query value) index timestamp stream m = exec_query value stream m
  exec_payload (command value) index timestamp stream m =
      exec_command index timestamp value stream m
  exec_payload (configuration members) index timestamp stream m =
      (exec_config index timestamp stream m, true)
  exec_payload initialize index timestamp stream m = (exec_init index timestamp stream m, true)
  exec_payload unset index timestamp stream m = (m, true)

  unfoldable pub exec_read : Option Entry → Option Stream → Manager → Log → Run
  exec_read none stream m l = (m, l, false)
  exec_read (some e) stream m l =
      let (m', returned) = exec_payload e.entry.payload e.index e.entry.timestamp stream m in
      (m', l, returned)

  -- `execEntry`: an entry without content is read from the log first.
  unfoldable pub exec_entry : ℕ → Option LogEntry → Option Stream → Manager → Log → Run
  unfolding exec_read
  exec_entry index none stream m l =
      let (o, l') = next_entry m.reader (reset_reader m.reader index l) in exec_read o stream m l'
  exec_entry index (some e) stream m l =
      exec_read (some (record { index = index; entry = e })) stream m l

  -- The loop of `execPendingChanges`. Each round reads an entry, so one more than the log holds is
  -- enough fuel.
  unfoldable pub pending_loop : ℕ → ℕ → Manager → Log → Run
  pending_loop zero index m l = (m, l, true)
  pending_loop (suc fuel) index m l = elim (ltb m.last_applied index) [
    | false ↦ (m, l, true)
    | true ↦
        let (o, l') = next_entry m.reader l in
        elim o [
          | none ↦ (m, l', true)
          | some e ↦
              let (m', l'', returned) = exec_read (some e) none m l' in
              elim returned [
                | false ↦ (m', l'', false)
                | true ↦ pending_loop fuel index (record m' { last_applied = e.index }) l''
              ]
        ]
  ]

  unfoldable pub exec_pending_changes : ℕ → Manager → Log → Run
  exec_pending_changes index m l = pending_loop (suc (length l.entries)) index m l

  -- The three calls that both branches of `execChange` end with; a panic stops after any of them.
  unfoldable pub mark_applied : ℕ → Run → Run
  mark_applied index (m, l, false) = (m, l, false)
  mark_applied index (m, l, true) = (record m { last_applied = index }, l, true)

  unfoldable pub exec_requested : Change → Run → Run
  unfolding mark_applied
  exec_requested c (m, l, false) = (m, l, false)
  exec_requested c (m, l, true) = mark_applied c.index (exec_entry c.index c.entry c.stream m l)

  unfoldable pub exec_after_pending : Change → Manager → Log → Run
  unfolding exec_requested
  exec_after_pending c m l = exec_requested c (exec_pending_changes (sub64 c.index 1) m l)

  unfoldable pub exec_content : Change → LogEntry → Payload → Manager → Log → Run
  exec_content c e (query value) m l =
      let (m', returned) = exec_query value c.stream m in (m', l, returned)
  exec_content c e _ m l = exec_after_pending c m l

  unfoldable pub exec_change_run : Change → Option LogEntry → Manager → Log → Run
  exec_change_run c (some e) m l = exec_content c e e.payload m l
  exec_change_run c none m l =
      if ltb m.last_applied c.index then exec_after_pending c m l else (m, l, true)

  -- `execChange`, which recovers from a panic and keeps what was done before it.
  unfoldable pub exec_change : Change → Manager → Log → Manager × Log
  unfolding exec_change_run exec_content
  exec_change c m l = let (m', l', returned) = exec_change_run c c.entry m l in (m', l')

  -- `start`: the changes in the order in which they were enqueued.
  unfoldable pub start : List Change → Manager → Log → Manager × Log
  start [] m l = (m, l)
  start (c ∷ cs) m l = let (m', l') = exec_change c m l in start cs m' l'
