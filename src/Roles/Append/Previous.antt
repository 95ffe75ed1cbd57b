-- ===== src/Roles/Append/Previous.antt =====
-- `checkPreviousEntry` against a description of it on the stored entries alone.
use atomix_go_raft.Base.{
  ℕ, ◌+◌, ◌-◌, ◌≤◌, ◌<◌, ◌≡◌, refl, ap, subst, ◌∙◌, Bool, true, false, not, ◌⊎◌, inl, inr, Option,
  none, some, List, arith, lt→ltb, ge→ltb, if◌then◌else◌, ◌==◌, Bool-cases, length, get_elem?,
  get_elem?-none, u64_mod, sub64,
}
use atomix_go_raft.Store.Log.{Log, Entry}
use atomix_go_raft.Store.Log.Invariant.{IsValid, last_entry-Last}
use atomix_go_raft.Store.Log.View.{
  View, view, read, read_lem, contents, length-contents, get_elem?-contents, read_at-Reads,
}
use atomix_go_raft.Protocol.Messages.{AppendRequest}
use atomix_go_raft.Roles.Append.{check_earlier_entry, check_previous_entry}

-- The log has an entry of the previous term at the previous index.
unfoldable pub agrees : AppendRequest → View → Bool
agrees request v = elim (read request.prev_log_index v) [
  | none ↦ false
  | some e ↦ request.prev_log_term == e.term
]

-- What the check may do: it accepts where the logs agree, and otherwise answers an index below the
-- previous one. The log keeps its entries.
pub record Checked (reader : ℕ) (request : AppendRequest) (l : Log) (o : Option ℕ × Log)
    : Type 0 where
  pub valid : IsValid o.1
  pub entries : o.1.entries ≡ l.entries
  pub first_index : o.1.first_index ≡ l.first_index
  pub readers : length o.1.readers ≡ length l.readers
  pub verdict :
      ((o.0 ≡ none) × (agrees request (view l) ≡ true))
      ⊎ ((i : ℕ) × (o.0 ≡ some i)
          × (i < request.prev_log_index)
          × (agrees request (view l) ≡ false))

ℕ-order : (a b : ℕ) → (a < b) ⊎ ((a ≡ b) ⊎ (b < a))
ℕ-order a b = omega arith

if-pair :
    (b : Bool) (i : ℕ) (l : Log)
    → if◌then◌else◌ {A = Option (Option ℕ × Log)} b (some (some i, l)) (some (none, l))
      ≡ some (if b then some i else none, l)
if-pair true i l = refl
if-pair false i l = refl

pub agrees-past :
    (request : AppendRequest) (l : Log)
    → l.first_index ≤ request.prev_log_index
    → l.first_index + length l.entries ≤ request.prev_log_index
    → agrees request (view l) ≡ false
unfolding agrees
agrees-past request l low past =
    rw
      (
        agrees,
        read_lem request.prev_log_index (view l) low,
        get_elem?-none (contents l.entries) (request.prev_log_index - l.first_index)
            (omega (arith, past, length-contents l.entries)),
      )
      refl

module _ (reader : ℕ) (request : AppendRequest) (l : Log) (v : IsValid l)
    (low : l.first_index ≤ request.prev_log_index) (fits : request.prev_log_index < u64_mod) where
  abbrev same_log :
      (o : Option ℕ)
      → ((o ≡ none) × (agrees request (view l) ≡ true))
        ⊎ ((i : ℕ) × (o ≡ some i)
            × (i < request.prev_log_index)
            × (agrees request (view l) ≡ false))
      → Checked reader request l (o, l)
  same_log o verdict = record {
    valid = v;
    entries = refl;
    first_index = refl;
    readers = refl;
    verdict = verdict;
  }

  agrees-stored :
      (e : Entry)
      → get_elem? l.entries (request.prev_log_index - l.first_index) ≡ some e
      → agrees request (view l) ≡ (request.prev_log_term == e.entry.term)
  unfolding agrees
  agrees-stored e stored =
      rw
        (
          agrees,
          read_lem request.prev_log_index (view l) low,
          get_elem?-contents l.entries _ stored,
        )
        refl

  -- The verdict on the entry found, by the code's test.
  verdict_on :
      (e : Entry)
      → get_elem? l.entries (request.prev_log_index - l.first_index) ≡ some e
      → (o : Option ℕ)
      → o ≡ (
          if not (request.prev_log_term == e.entry.term)
          then some (sub64 request.prev_log_index 1)
          else none)
      → ((o ≡ none) × (agrees request (view l) ≡ true))
        ⊎ ((i : ℕ) × (o ≡ some i)
            × (i < request.prev_log_index)
            × (agrees request (view l) ≡ false))
  verdict_on e stored o is = elim (Bool-cases (request.prev_log_term == e.entry.term)) [
    | inl same ↦ inl (is ∙ rw same refl, agrees-stored e stored ∙ same)
    | inr other ↦ inr (
      sub64 request.prev_log_index 1,
      is ∙ rw other refl,
      omega (arith, v.positive, low, fits),
      agrees-stored e stored ∙ other,
    )
  ]

  earlier-Checked :
      (last : Entry)
      → request.prev_log_index < l.first_index + length l.entries
      → l.first_index + length l.entries < u64_mod
      → reader < length l.readers
      → (o : Option ℕ × Log) × (check_earlier_entry request last reader l ≡ some o)
        × Checked reader request l o
  unfolding check_earlier_entry
  earlier-Checked last inside room known =
      let (o, ran, reads) =
        read_at-Reads reader request.prev_log_index l v room (low, inside) known in
      let answer =
        if not (request.prev_log_term == reads.entry.entry.term)
        then some (sub64 request.prev_log_index 1)
        else none in
      (
        (answer, o.1),
        rw (ran, check_earlier_entry) (rw reads.found refl),
        record {
          valid = reads.valid;
          entries = reads.entries;
          first_index = reads.first_index;
          readers = reads.readers;
          verdict = verdict_on reads.entry reads.stored answer refl;
        },
      )

  pub check_previous_entry-Checked :
      1 ≤ request.prev_log_term
      → l.first_index + length l.entries < u64_mod
      → reader < length l.readers
      → (o : Option ℕ × Log) × (check_previous_entry request reader l ≡ some o)
        × Checked reader request l o
  unfolding check_previous_entry
  check_previous_entry-Checked set room known =
      let some_term : (request.prev_log_term == 0) ≡ false = ground arith in
      let positive : 0 < request.prev_log_index = omega (arith, v.positive, low) in
      elim (last_entry-Last l v) [
        | inl (empty, at) ↦ (
          (some 0, l),
          rw (some_term, at, lt→ltb 0 _ positive) refl,
          same_log (some 0) (
              inr (
                0,
                refl,
                positive,
                agrees-past request l low
                    (omega (arith, low, ap (λ (xs : List Entry). length xs) empty)),
              )),
        )
        | inr (last, at, stored, filled, end) ↦ elim (ℕ-order last.index request.prev_log_index) [
          | inl past ↦ (
            (some last.index, l),
            rw (some_term, at, lt→ltb _ _ past) refl,
            same_log _ (
                inr (last.index, refl, past, agrees-past request l low (omega (arith, past, end)))),
          )
          | inr (inl same) ↦ (
            (
              if not (request.prev_log_term == last.entry.term)
                  then some (sub64 request.prev_log_index 1)
                  else none,
              l,
            ),
            rw
                (
                  some_term,
                  at,
                  ge→ltb last.index request.prev_log_index (omega (arith, same)),
                  ge→ltb request.prev_log_index last.index (omega (arith, same)),
                )
                (if-pair (not (request.prev_log_term == last.entry.term))
                  (sub64 request.prev_log_index 1) l),
            same_log _ (
                verdict_on last
                  (subst (λ i. get_elem? l.entries i ≡ some last) (omega (arith, same, end)) stored)
                  _ refl),
          )
          | inr (inr before) ↦
              let (o, ran, checked) =
                earlier-Checked last (omega (arith, before, end)) room known in
              (
                o,
                rw
                    (
                      some_term,
                      at,
                      ge→ltb last.index request.prev_log_index (omega (arith, before)),
                      lt→ltb _ _ before,
                    )
                    ran,
                checked,
              )
        ]
      ]
