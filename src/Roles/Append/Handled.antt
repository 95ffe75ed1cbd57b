-- ===== src/Roles/Append/Handled.antt =====
-- What handling an append request comes to, for every request that names a previous entry.
use atomix_go_raft.Base.{
  ℕ, suc, ◌+◌, ◌≤◌, ◌<◌, ◌≡◌, refl, ap, ◌∙◌, Bool, true, false, ◌&&◌, inl, inr, Option, none, some,
  arith, ltb, leb, ltb→lt, ◌==◌, Bool-cases, length, u64_mod, add64,
}
use atomix_go_raft.Store.Log.{Log, last_index}
use atomix_go_raft.Store.Log.View.{view}
use atomix_go_raft.Protocol.Messages.{AppendRequest, AppendResponse}
use atomix_go_raft.Roles.Server.{Server}
use atomix_go_raft.Roles.Append.{
  Reply, response, fail_append, succeed_append, check_term, check_previous_entry, new_commit_index,
  commit_entries, append_loop, write_entries, append_entries, handle_append,
}
use atomix_go_raft.Roles.Append.Rounds.{IsReady}
use atomix_go_raft.Roles.Append.Loop.{append_loop-Merged}
use atomix_go_raft.Roles.Append.Previous.{agrees, Checked, check_previous_entry-Checked}
use atomix_go_raft.Roles.Append.Replies.{
  IsServing, Fits, Handled, committed, committed-index, committed-term, length-Merged,
  agrees-inside,
}

stale-refused : (a b : ℕ) (c : Bool) → ltb a b ≡ true → (leb b a && c) ≡ false
stale-refused a b c h = ground arith

current-leb : (a b : ℕ) → ltb a b ≡ false → leb b a ≡ true
current-leb a b h = ground arith

and-false : (a : Bool) {b : Bool} → b ≡ false → (a && b) ≡ false
and-false true h = h
and-false false h = refl

and-true : {a b : Bool} → a ≡ true → b ≡ true → (a && b) ≡ true
and-true h k = rw (h, k) refl

-- Both records read the answer.
abbrev Ends : AppendRequest → Server → Option (Server × Reply) → Type 0
Ends request s m =
    (t : Server) × (a : AppendResponse) × (m ≡ some (t, response a)) × Handled request s t a

stale-Handled :
    (request : AppendRequest) (s : Server)
    → IsServing s
    → ltb request.term s.raft.term ≡ true
    → Ends request s (handle_append request s)
unfolding handle_append check_term
stale-Handled request s h stale = (
  s,
  fail_append (last_index s.log) s.raft,
  rw (stale, handle_append, check_term) refl,
  record {
    serving = h;
    first_index = refl;
    term = refl;
    result = inr (record {
      agreed = stale-refused request.term s.raft.term (agrees request (view s.log)) stale;
      succeeded = refl;
      answer_term = refl;
      last_log_index = λ current. absurd (omega (arith, ltb→lt _ _ stale, current));
      entries = refl;
      raft = refl;
      changes = refl;
    });
  },
)

-- The log that the check left is the server's.
refused-Handled :
    (request : AppendRequest) (s : Server) (o : Option ℕ × Log) (i : ℕ)
    → IsServing s
    → Checked s.reader request s.log o
    → i < request.prev_log_index
    → agrees request (view s.log) ≡ false
    → Handled request s (record s { log = o.1 }) (fail_append i s.raft)
refused-Handled request s o i h checked below other = record {
  serving = record {
    valid = checked.valid;
    known = rw checked.readers h.known;
    room = rw (checked.entries, checked.first_index) h.room;
  };
  first_index = checked.first_index;
  term = refl;
  result = inr (record {
    agreed = and-false (leb s.raft.term request.term) other;
    succeeded = refl;
    answer_term = refl;
    last_log_index = λ current. below;
    entries = checked.entries;
    raft = refl;
    changes = refl;
  });
}

write_entries-named :
    (request : AppendRequest) (reader : ℕ) (l : Log)
    → 1 ≤ request.prev_log_term
    → write_entries request reader l ≡ append_loop reader request.prev_log_index request.entries l
unfolding write_entries
write_entries-named request reader l named =
    let some_term : (request.prev_log_term == 0) ≡ false = ground arith in
    elim (Bool-cases (length request.entries == 0)) [
      | inl empty ↦ rw (write_entries, empty) refl
      | inr filled ↦ rw (write_entries, filled, some_term) refl
    ]

-- The entries are written and then committed.
append_entries-run :
    (request : AppendRequest) (s : Server) {m : Log}
    → 1 ≤ request.prev_log_term
    → request.prev_log_index + length request.entries < u64_mod
    → append_loop s.reader request.prev_log_index request.entries s.log
      ≡ some (request.prev_log_index + length request.entries, m, none)
    → append_entries request s
      ≡ some (
          commit_entries request
            (new_commit_index request s.overflow s.raft
              (request.prev_log_index + length request.entries))
            (request.prev_log_index + length request.entries)
            (record s { log = m }))
unfolding append_entries
append_entries-run request s named range ran =
    let at : add64 request.prev_log_index (length request.entries)
        ≡ request.prev_log_index + length request.entries =
      omega (arith, range) in
    rw (append_entries, write_entries-named request s.reader s.log named, ran, at) refl

accepted-Handled :
    (request : AppendRequest) (s : Server) (o : Option ℕ × Log)
    → IsServing s
    → Fits request s
    → Checked s.reader request s.log o
    → (leb s.raft.term request.term) ≡ true
    → agrees request (view s.log) ≡ true
    → Ends request s (append_entries request (record s { log = o.1 }))
unfolding commit_entries
accepted-Handled request s o h fits checked current agreed =
    let inside = agrees-inside request s.log fits.low agreed in
    let ready : IsReady s.reader (suc request.prev_log_index) (length request.entries) o.1 =
      record {
        valid = checked.valid;
        known = rw checked.readers h.known;
        low = omega (arith, fits.low, checked.first_index);
        high = rw (checked.entries, checked.first_index) (omega (arith, inside));
        room = rw (checked.entries, checked.first_index) h.room;
        room' = omega (arith, fits.range);
      } in
    let (m, ran, merged) =
      append_loop-Merged s.reader request.prev_log_index request.entries o.1 ready in
    let last = request.prev_log_index + length request.entries in
    let index = new_commit_index request s.overflow s.raft last in
    let r = committed request index s.raft in
    (
      (commit_entries request index last (record s { log = m })).0,
      succeed_append last r,
      append_entries-run request (record s { log = o.1 }) fits.named (omega (arith, fits.range))
          ran,
      record {
        serving = record {
          valid = merged.valid;
          known = rw (merged.readers, checked.readers) h.known;
          room = omega (
            arith,
            length-Merged (ready.low) (ready.high) merged,
            merged.first_index,
            ready.room,
            fits.range,
          );
        };
        first_index = merged.first_index ∙ checked.first_index;
        term = committed-term request index s.raft;
        result = inl (record {
          agreed = and-true current agreed;
          succeeded = refl;
          last_log_index = refl;
          items = rw (checked.entries, checked.first_index) at merged.items;
          commit_index = committed-index request index s.raft;
        });
      },
    )

-- What follows the check of the previous entry.
abbrev pub after_check : AppendRequest → Server → Log → Option ℕ → Option (Server × Reply)
after_check request s l o = elim o [
  | some index ↦ some (record s { log = l }, response (fail_append index s.raft))
  | none ↦ append_entries request (record s { log = l })
]

pub handle_append-checked :
    (request : AppendRequest) (s : Server) {o : Option ℕ × Log}
    → ltb request.term s.raft.term ≡ false
    → check_previous_entry request s.reader s.log ≡ some o
    → handle_append request s ≡ after_check request s o.1 o.0
unfolding handle_append check_term
handle_append-checked request s current ran = rw (handle_append, check_term, current, ran) refl

-- On a server whose store is valid, a request that names a previous entry, at an index not below the
-- log's first one, and whose indexes stay within uint64, is answered without a panic or an error, and the
-- store stays valid. It succeeds if its term is not older and the log has an entry of the previous term
-- at the previous index: then the entries are merged into the log behind that entry, and the commit
-- index becomes the computed one, if that is larger. Otherwise entries, protocol state and enqueued
-- changes stay, and to a request of a current term the answer is an index below the previous one.
pub handle_append-Handled :
    (request : AppendRequest) (s : Server)
    → IsServing s
    → Fits request s
    → (t : Server) × (a : AppendResponse) × (handle_append request s ≡ some (t, response a))
      × Handled request s t a
handle_append-Handled request s h fits = elim (Bool-cases (ltb request.term s.raft.term)) [
  | inl stale ↦ stale-Handled request s h stale
  | inr current ↦
      let (o, ran, checked) =
        check_previous_entry-Checked s.reader request s.log h.valid fits.low
          (omega (arith, fits.range)) fits.named h.room h.known in
      elim checked.verdict [
        | inl (passed, agreed) ↦
            let (t, a, end, handled) =
              accepted-Handled request s o h fits checked
                (current-leb request.term s.raft.term current) agreed in
            (
              t,
              a,
              handle_append-checked request s current ran
                  ∙ ap (after_check request s o.1) passed
                  ∙ end,
              handled,
            )
        | inr (i, failed, below, other) ↦ (
          record s { log = o.1 },
          fail_append i s.raft,
          handle_append-checked request s current ran ∙ ap (after_check request s o.1) failed,
          refused-Handled request s o i h checked below other,
        )
      ]
]
