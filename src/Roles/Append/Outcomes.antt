-- ===== src/Roles/Append/Outcomes.antt =====
-- What follows for append requests: the commit index, redelivered requests and a compacted leader.
use atomix_go_raft.Base.{
  ℕ, suc, ◌+◌, ◌-◌, ◌≤◌, ◌<◌, ◌≡◌, refl, sym, ap, ◌∙◌, Bool, true, false, ◌&&◌, inl, inr, none,
  some, List, [], ◌++◌, arith, leb, lt→ltb, ge→ltb, if◌then◌else◌, ◌==◌, length, take, drop,
  u64_mod, add64, min, max, f64_mod, float64-exact, length-take, length-map, take-append,
  drop-append,
}
use atomix_go_raft.Store.Log.{Log, LogEntry, reset, maybe_reset}
use atomix_go_raft.Store.Log.Invariant.{reset-IsValid}
use atomix_go_raft.Roles.Append.Rounds.{IsReady}
use atomix_go_raft.Roles.Append.Loop.{append_loop-Merged}
use atomix_go_raft.Store.Log.View.{view, contents, length-contents}
use atomix_go_raft.Protocol.Raft.{Raft}
use atomix_go_raft.Protocol.Messages.{AppendRequest, AppendResponse}
use atomix_go_raft.Roles.Server.{Server}
use atomix_go_raft.Roles.Append.{
  response, succeed_append, commit_entries, check_previous_entry, write_entries, append_entries,
  append_loop, new_commit_index, handle_append,
}
use atomix_go_raft.Roles.Append.Merge.{merge, merge-again, merge-nil, terms-merge}
use atomix_go_raft.Roles.Append.Previous.{agrees}
use atomix_go_raft.Roles.Append.Replies.{IsServing, Fits, agrees-inside, true-≢-false}
use atomix_go_raft.Roles.Append.Handled.{handle_append-Handled, handle_append-checked}

-- Below 2^53 the detour through float64 loses nothing.
new_commit_index-exact :
    (request : AppendRequest) (overflow : ℕ) (r : Raft) (last : ℕ)
    → r.commit_index < f64_mod
    → request.commit_index < f64_mod
    → last < f64_mod
    → new_commit_index request overflow r last ≡ max r.commit_index (min request.commit_index last)
unfolding new_commit_index
new_commit_index-exact request overflow r last h k j =
    let small : max r.commit_index (min request.commit_index last) < u64_mod =
      omega (arith, h, k, j) in
    rw (new_commit_index, float64-exact _ h, float64-exact _ k, float64-exact _ j, lt→ltb _ _ small)
      refl

-- On a server whose store is valid, a request that names a previous entry, at an index not below the
-- log's first one, and whose indexes stay within uint64, leaves the commit index if it is refused. An
-- accepted one, while the indexes are below 2^53, moves it up to the smaller one of the leader's commit
-- index and the request's last index, if that is larger.
pub handle_append_commit :
    (request : AppendRequest) (s : Server)
    → IsServing s
    → Fits request s
    → s.raft.commit_index < f64_mod
    → request.commit_index < f64_mod
    → request.prev_log_index + length request.entries < f64_mod
    → (t : Server) × (a : AppendResponse) × (handle_append request s ≡ some (t, response a))
      × (t.raft.commit_index ≡ (
          if a.succeeded
          then max s.raft.commit_index
              (min request.commit_index (request.prev_log_index + length request.entries))
          else s.raft.commit_index))
handle_append_commit request s h fits small small' small'' =
    let (t, a, ran, handled) = handle_append-Handled request s h fits in
    (
      t,
      a,
      ran,
      elim handled.result [
        | inl accepted ↦ rw (accepted.succeeded) (
            rw (new_commit_index-exact request s.overflow s.raft _ small small' small'') at
              accepted.commit_index
            ∙ omega arith)
        | inr refused ↦ rw refused.succeeded (ap (λ (r : Raft). r.commit_index) refused.raft)
      ],
    )

and-right : (a b : Bool) → (a && b) ≡ true → b ≡ true
and-right true b h = h
and-right false b h = absurd (true-≢-false (sym h))

-- Merging the same entries at the same place again.
merged-again :
    (p : ℕ) (old new : List LogEntry) (es : List LogEntry)
    → p ≤ length old
    → new ≡ take p old ++ merge (drop p old) es
    → take p new ++ merge (drop p new) es ≡ new
merged-again p old new es inside is =
    let front : length (take p old) ≡ p = omega (arith, length-take p old, inside) in
    let first : take p new ≡ take p old =
      ap (take p) is ∙ take-append p (take p old) (merge (drop p old) es) front in
    let rest : drop p new ≡ merge (drop p old) es =
      ap (drop p) is ∙ drop-append p (take p old) (merge (drop p old) es) front in
    ap (λ xs. xs ++ merge (drop p new) es) first
    ∙ ap (λ ys. take p old ++ merge ys es) rest
    ∙ ap (λ ys. take p old ++ ys)
        (merge-again (merge (drop p old) es) es (terms-merge (drop p old) es))
    ∙ sym is

-- On a server whose store is valid, a request that names a previous entry, at an index not below the
-- log's first one, and whose indexes stay within uint64, is answered when it is handled and when the
-- same request is handled once more, and the second time leaves the entries as the first one did.
pub handle_append_again :
    (request : AppendRequest) (s : Server)
    → IsServing s
    → Fits request s
    → (t u : Server) × (a b : AppendResponse) × (handle_append request s ≡ some (t, response a))
      × (handle_append request t ≡ some (u, response b))
      × (contents u.log.entries ≡ contents t.log.entries)
handle_append_again request s h fits =
    let (t, a, ran, handled) = handle_append-Handled request s h fits in
    let again : Fits request t = record {
      named = fits.named;
      low = omega (arith, handled.first_index, fits.low);
      range = fits.range;
    } in
    let (u, b, ran', handled') = handle_append-Handled request t handled.serving again in
    (
      t,
      u,
      a,
      b,
      ran,
      ran',
      elim handled'.result [
        | inr refused ↦ ap contents refused.entries
        | inl accepted' ↦ elim handled.result [
          | inl accepted ↦
              let inside = agrees-inside request s.log fits.low (and-right _ _ accepted.agreed) in
              accepted'.items
              ∙ ap
                  (λ f.
                    take (suc request.prev_log_index - f) (contents t.log.entries)
                    ++ merge (drop (suc request.prev_log_index - f) (contents t.log.entries))
                        request.entries)
                  handled.first_index
              ∙ merged-again (suc request.prev_log_index - s.log.first_index)
                  (contents s.log.entries) (contents t.log.entries) request.entries
                  (omega (arith, inside, length-contents s.log.entries)) accepted.items
          | inr refused ↦
              let same : (leb t.raft.term request.term && agrees request (view t.log))
                  ≡ (leb s.raft.term request.term && agrees request (view s.log)) =
                λ i.
                  leb (handled.term i) request.term
                  && agrees request (record {
                    first = handled.first_index i;
                    items = contents (refused.entries i);
                  }) in
              absurd (true-≢-false (sym accepted'.agreed ∙ same ∙ refused.agreed))
        ]
      ],
    )

-- The entries of a compacted leader: with no previous term, they replace the log.
module _ (request : AppendRequest) (s : Server) where
  abbrev fresh : Log
  fresh = reset (add64 request.prev_log_index 1) s.log

  fresh-IsReady :
      s.reader < length s.log.readers
      → suc request.prev_log_index + length request.entries < u64_mod
      → IsReady s.reader (suc request.prev_log_index) (length request.entries) fresh
  unfolding reset
  fresh-IsReady known range =
      let at : add64 request.prev_log_index 1 ≡ suc request.prev_log_index = omega (arith, range) in
      record {
        valid =
            reset-IsValid (add64 request.prev_log_index 1) s.log (omega (arith, at))
              (omega (arith, at, range));
        known = omega (arith, known, length-map (maybe_reset 0) s.log.readers);
        low = omega (arith, at);
        high = omega (arith, at);
        room = omega (arith, at, range);
        room' = range;
      }

  write_entries-fresh :
      request.prev_log_term ≡ 0
      → 1 ≤ length request.entries
      → write_entries request s.reader s.log
        ≡ append_loop s.reader request.prev_log_index request.entries fresh
  unfolding write_entries
  write_entries-fresh unnamed some_entries =
      let filled : (length request.entries == 0) ≡ false = ground (arith, some_entries) in
      rw (write_entries, filled, unnamed) refl

  passes-unnamed :
      request.prev_log_term ≡ 0 → check_previous_entry request s.reader s.log ≡ some (none, s.log)
  unfolding check_previous_entry
  passes-unnamed unnamed = rw (check_previous_entry, unnamed) refl

  append_entries-success :
      {index : ℕ} {m : Log}
      → write_entries request s.reader s.log ≡ some (index, m, none)
      → (t : Server) × (a : AppendResponse) × (append_entries request s ≡ some (t, response a))
        × (a.succeeded ≡ true)
        × (t.log ≡ m)
  unfolding append_entries commit_entries
  append_entries-success {index} {m} ran =
      let commit_index =
        new_commit_index request s.overflow s.raft
          (add64 request.prev_log_index (length request.entries)) in
      (
        (commit_entries request commit_index index (record s { log = m })).0,
        succeed_append index
            (commit_entries request commit_index index (record s { log = m })).0.raft,
        rw (append_entries, ran) refl,
        refl,
        refl,
      )

-- On a server whose reader is one of the log's, a request with entries, of a term that is not older, that
-- names no previous term succeeds with any log and replaces it, if its indexes stay within uint64: the
-- log then begins behind the previous index and has the request's entries.
pub handle_append_reset :
    (request : AppendRequest) (s : Server)
    → s.reader < length s.log.readers
    → s.raft.term ≤ request.term
    → request.prev_log_term ≡ 0
    → 1 ≤ length request.entries
    → suc request.prev_log_index + length request.entries < u64_mod
    → (t : Server) × (a : AppendResponse) × (handle_append request s ≡ some (t, response a))
      × (a.succeeded ≡ true)
      × (t.log.first_index ≡ suc request.prev_log_index)
      × (contents t.log.entries ≡ request.entries)
unfolding reset
handle_append_reset request s known current unnamed some_entries range =
    let (m, ran, merged) =
      append_loop-Merged s.reader request.prev_log_index request.entries (fresh request s)
        (fresh-IsReady request s known range) in
    let (t, a, end, succeeded, log) =
      append_entries-success request s (write_entries-fresh request s unnamed some_entries ∙ ran) in
    let at : add64 request.prev_log_index 1 ≡ suc request.prev_log_index = omega (arith, range) in
    let p = suc request.prev_log_index - (fresh request s).first_index in
    (
      t,
      a,
      handle_append-checked request s (ge→ltb _ _ current) (passes-unnamed request s unnamed) ∙ end,
      succeeded,
      ap (λ (l : Log). l.first_index) log ∙ merged.first_index ∙ at,
      ap (λ (l : Log). contents l.entries) log
          ∙ merged.items
          ∙ ap (λ n. take n [] ++ merge (drop n []) request.entries)
              (let z : p ≡ 0 = omega (arith, at) in z)
          ∙ merge-nil request.entries,
    )
