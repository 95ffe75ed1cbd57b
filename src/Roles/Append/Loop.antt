-- ===== src/Roles/Append/Loop.antt =====
-- The loop of `appendEntries` ends with the merged log, without an error.
use atomix_go_raft.Base.{
  ℕ, suc, ◌+◌, ◌-◌, ◌≤◌, ◌≡◌, refl, sym, ap, ◌∙◌, ◌⊎◌, inl, inr, Option, none, some, List, [], ◌∷◌,
  ◌++◌, arith, length, take, drop, add64, length-append, ◌>>=◌, length-take, take-append-drop,
}
use atomix_go_raft.Store.Log.{Log, LogEntry}
use atomix_go_raft.Store.Log.Invariant.{IsValid}
use atomix_go_raft.Store.Log.View.{contents, length-contents}
use atomix_go_raft.Roles.Append.{AppendError, append_entry, append_loop}
use atomix_go_raft.Roles.Append.Merge.{
  merge, place, merge-place, length-place_le, length-place_most,
}
use atomix_go_raft.Roles.Append.Rounds.{IsReady, Written, append_entry-Written}

-- What writing entries from an index on makes of a log.
pub record Merged (index : ℕ) (es : List LogEntry) (l m : Log) : Type 0 where
  pub valid : IsValid m
  pub first_index : m.first_index ≡ l.first_index
  pub readers : length m.readers ≡ length l.readers
  pub items :
      contents m.entries
      ≡ take (index - l.first_index) (contents l.entries)
        ++ merge (drop (index - l.first_index) (contents l.entries)) es

length-Written :
    {reader index : ℕ} {e : LogEntry} {l m : Log}
    → l.first_index ≤ index
    → index ≤ l.first_index + length l.entries
    → Written reader index e l m
    → (suc index ≤ l.first_index + length m.entries)
      × ((length m.entries ≤ length l.entries) ⊎ (l.first_index + length m.entries ≤ suc index))
length-Written {reader} {index} {e} {l} {m} low high w =
    let p = index - l.first_index in
    let c = contents l.entries in
    let total : length m.entries ≡ length (take p c) + length (place (drop p c) e) =
      sym (length-contents m.entries)
      ∙ ap (λ (xs : List LogEntry). length xs) w.items
      ∙ length-append (take p c) (place (drop p c) e) in
    let all : length c ≡ length (take p c) + length (drop p c) =
      ap (λ (xs : List LogEntry). length xs) (sym (take-append-drop p c))
      ∙ length-append (take p c) (drop p c) in
    (
      omega
          (arith, total, length-take p c, length-contents l.entries, length-place_le (drop p c) e),
      elim (length-place_most (drop p c) e) [
        | inl most ↦ inl (omega (arith, total, all, most, length-contents l.entries))
        | inr one ↦ inr (omega (arith, total, one, length-take p c))
      ],
    )

after-IsReady :
    {reader index count : ℕ} {e : LogEntry} {l m : Log}
    → IsReady reader index (suc count) l
    → Written reader index e l m
    → IsReady reader (suc index) count m
after-IsReady {l = l} {m} h w =
    let (reached, most) = length-Written h.low h.high w in
    record {
      valid = w.valid;
      known = rw w.readers h.known;
      low = omega (arith, w.first_index, h.low);
      high = omega (arith, w.first_index, reached);
      room = omega (arith, w.first_index, most, h.room, h.room');
      room' = omega (arith, h.room');
    }

merge-Written :
    (reader index : ℕ) (e : LogEntry) (es : List LogEntry) {l m n : Log}
    → l.first_index ≤ index
    → index ≤ l.first_index + length l.entries
    → Written reader index e l m
    → Merged (suc index) es m n
    → Merged index (e ∷ es) l n
merge-Written reader index e es {l} {m} {n} low high w h =
    let p = index - l.first_index in
    let c = contents l.entries in
    let front : length (take p c) ≡ p = omega (arith, length-take p c, length-contents l.entries) in
    let next : suc index - m.first_index ≡ suc (length (take p c)) =
      omega (arith, front, w.first_index) in
    record {
      valid = h.valid;
      first_index = h.first_index ∙ w.first_index;
      readers = h.readers ∙ w.readers;
      items =
          h.items
          ∙ ap (λ k. take k (contents m.entries) ++ merge (drop k (contents m.entries)) es) next
          ∙ ap
              (λ xs.
                take (suc (length (take p c))) xs ++ merge (drop (suc (length (take p c))) xs) es)
              w.items
          ∙ merge-place (take p c) (drop p c) e es;
    }

-- The rest of the loop after a round.
abbrev loop_on :
    ℕ → ℕ → List LogEntry → Log × Option AppendError → Option (ℕ × Log × Option AppendError)
loop_on reader index es o = elim o.1 [
  | some err ↦ some (index, o.0, some err)
  | none ↦ append_loop reader index es o.0
]

append_loop-step :
    (reader index : ℕ) (e : LogEntry) (es : List LogEntry) (l : Log) {m : Log}
    → add64 index 1 ≡ suc index
    → append_entry reader (suc index) e l ≡ some (m, none)
    → append_loop reader index (e ∷ es) l ≡ append_loop reader (suc index) es m
unfolding append_loop
append_loop-step reader index e es l {m} at ran =
    ap (λ i. append_entry reader i e l >>= λ o. loop_on reader i es o) at
    ∙ ap (λ x. x >>= λ o. loop_on reader (suc index) es o) ran

-- From a valid log that reaches the request's previous index, and whose new indexes stay within uint64, the
-- loop ends without a panic or an error at the index of the last entry. What the log had before the
-- entries stays; behind it the log is the merge of what it had there and the entries: entries with the
-- same term stay, and the first one with another term gives way to the rest of the request.
pub append_loop-Merged :
    (reader index : ℕ) (es : List LogEntry) (l : Log)
    → IsReady reader (suc index) (length es) l
    → (m : Log) × (append_loop reader index es l ≡ some (index + length es, m, none))
      × Merged (suc index) es l m
unfolding append_loop merge
append_loop-Merged reader index [] l h = (
  l,
  ap (λ i. some (i, l, none)) (omega arith),
  record {
    valid = h.valid;
    first_index = refl;
    readers = refl;
    items = sym (take-append-drop (suc index - l.first_index) (contents l.entries));
  },
)
append_loop-Merged reader index (e ∷ es) l h =
    let (m, ran, w) =
      append_entry-Written reader (suc index) (length (e ∷ es)) e l h (omega arith) in
    let (n, rest, merged) = append_loop-Merged reader (suc index) es m (after-IsReady h w) in
    let at : add64 index 1 ≡ suc index = omega (arith, h.room') in
    (
      n,
      append_loop-step reader index e es l at ran
          ∙ rest
          ∙ ap (λ i. some (i, n, none)) (omega arith),
      merge-Written reader (suc index) e es h.low h.high w merged,
    )
