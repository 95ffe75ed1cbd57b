-- ===== src/Roles/Appender/Signals.antt =====
-- Who waits for an entry's commit, and who has been told of it.
use mathlib.Core.Option.{some-injective}
use mathlib.Core.List.{append_assoc, append-nil}
use atomix_go_raft.Base.{
  ℕ, zero, suc, ◌-◌, ◌≤◌, ◌<◌, ◌≡◌, refl, sym, ap, ◌∙◌, ◌+◌, if◌then◌else◌, true, false, inl, inr,
  some, List, [], ◌∷◌, ◌++◌, arith, ltb, ◌==◌, Bool-cases, subst, length, Option, >>=-eq-some,
  ◌>>=◌, sort, get_elem?, ◌/◌,
}
use atomix_go_raft.Protocol.Cluster.{MemberId}
use atomix_go_raft.Protocol.Raft.{Raft}
use atomix_go_raft.Roles.Appender.{
  Appender, fill, indexes, Signal, sent, called, has, without, signal_index, commit_one,
  commit_loop, commit_up_to, commit_member_index, reported, report,
}
use atomix_go_raft.Roles.Appender.Quorum.{commit_loop-index}
use atomix_go_raft.Roles.Appender.Waiting.{IsWaiting, commit_up_to-IsWaiting}

-- The signals for so many entries from an index on: for each, its channel first, and then its future.
abbrev pub due : List ℕ → List ℕ → ℕ → ℕ → List Signal
due channels futures index zero = []
due channels futures index (suc count) =
    (if has index channels then sent index ∷ [] else [])
    ++ (if has index futures then called index ∷ [] else [])
    ++ due channels futures (suc index) count

-- What happened to those who wait on the way from a state to another, between which so many entries were
-- committed: who waited for one of these was told, in their order, and nobody else, and whoever waits for a
-- later entry still does.
pub record IsTold (s t : Appender × Raft) : Type 0 where
  pub count : ℕ
  pub reached : t.1.commit_index ≡ s.1.commit_index + count
  pub signals :
      t.0.signals
      ≡ s.0.signals ++ due s.0.commit_channels s.0.commit_futures (suc s.1.commit_index) count
  pub channels :
      (i : ℕ) → t.1.commit_index < i → has i t.0.commit_channels ≡ has i s.0.commit_channels
  pub futures : (i : ℕ) → t.1.commit_index < i → has i t.0.commit_futures ≡ has i s.0.commit_futures

has-without : (i j : ℕ) (xs : List ℕ) → j < i → has i (without j xs) ≡ has i xs
unfolding has without
has-without i j [] h = refl
has-without i j (x ∷ xs) h = elim (Bool-cases (x == j)) [
  | inl same ↦
      let other : (x == i) ≡ false = ground (arith, h, same) in
      rw (same, other) (has-without i j xs h)
  | inr different ↦
      rw (different, has) (ap (λ rest. if x == i then true else rest) (has-without i j xs h))
]

due-same :
    (xs xs' ys ys' : List ℕ) (index count : ℕ)
    → ((i : ℕ) → index ≤ i → has i xs' ≡ has i xs)
    → ((i : ℕ) → index ≤ i → has i ys' ≡ has i ys)
    → due xs' ys' index count ≡ due xs ys index count
due-same xs xs' ys ys' index zero h k = refl
due-same xs xs' ys ys' index (suc count) h k =
    rw (h index (omega arith), k index (omega arith))
      (ap
        (λ rest.
          (if has index xs then sent index ∷ [] else [])
          ++ (if has index ys then called index ∷ [] else [])
          ++ rest)
        (due-same xs xs' ys ys' (suc index) count (λ i le. h i (omega (arith, le)))
          (λ i le. k i (omega (arith, le)))))

-- The step of one entry.
record Told (index : ℕ) (a b : Appender) : Type 0 where
  signals :
      b.signals
      ≡ a.signals
        ++ (if has index a.commit_channels then sent index ∷ [] else [])
        ++ (if has index a.commit_futures then called index ∷ [] else [])
  channels : (i : ℕ) → index < i → has i b.commit_channels ≡ has i a.commit_channels
  futures : (i : ℕ) → index < i → has i b.commit_futures ≡ has i a.commit_futures

signal_index-Told : (index : ℕ) (a : Appender) → Told index a (signal_index index a)
unfolding signal_index
signal_index-Told index a = elim (Bool-cases (has index a.commit_channels)) [
  | inl some_channel ↦ elim (Bool-cases (has index a.commit_futures)) [
    | inl some_future ↦
        rw (some_channel, some_future)
          (record {
            signals = rw (some_channel, some_future) refl;
            channels = λ i h. has-without i index a.commit_channels h;
            futures = λ i h. has-without i index a.commit_futures h;
          })
    | inr no_future ↦
        rw (some_channel, no_future)
          (record {
            signals =
                rw (some_channel, no_future) (sym (append-nil (a.signals ++ sent index ∷ [])));
            channels = λ i h. has-without i index a.commit_channels h;
            futures = λ i h. refl;
          })
  ]
  | inr no_channel ↦ elim (Bool-cases (has index a.commit_futures)) [
    | inl some_future ↦
        rw (no_channel, some_future)
          (record {
            signals =
                rw (no_channel, some_future)
                  (ap (λ xs. xs ++ called index ∷ []) (sym (append-nil a.signals)));
            channels = λ i h. refl;
            futures = λ i h. has-without i index a.commit_futures h;
          })
    | inr no_future ↦
        rw (no_channel, no_future)
          (record {
            signals =
                rw (no_channel, no_future)
                  (sym (append-nil (a.signals ++ []) ∙ append-nil a.signals));
            channels = λ i h. refl;
            futures = λ i h. refl;
          })
  ]
]

-- The steps of so many entries from an index on.
record Tells (index count : ℕ) (a b : Appender) : Type 0 where
  signals : b.signals ≡ a.signals ++ due a.commit_channels a.commit_futures index count
  channels : (i : ℕ) → index + count ≤ i → has i b.commit_channels ≡ has i a.commit_channels
  futures : (i : ℕ) → index + count ≤ i → has i b.commit_futures ≡ has i a.commit_futures

commit_loop-Tells :
    (count index : ℕ) (s : Appender × Raft) → Tells index count s.0 (commit_loop count index s).0
unfolding commit_loop commit_one
commit_loop-Tells zero index s = record {
  signals = sym (append-nil s.0.signals);
  channels = λ i k. refl;
  futures = λ i k. refl;
}
commit_loop-Tells (suc count) index s =
    let a = s.0 in
    let b = (commit_one index s).0 in
    let step : Told index a b = signal_index-Told index a in
    let rest = commit_loop-Tells count (suc index) (commit_one index s) in
    let sends = if has index a.commit_channels then sent index ∷ [] else [] in
    let calls = if has index a.commit_futures then called index ∷ [] else [] in
    let later = due a.commit_channels a.commit_futures (suc index) count in
    record {
      signals =
          rest.signals
          ∙ ap (◌++◌ b.signals) (
              due-same a.commit_channels b.commit_channels a.commit_futures b.commit_futures
                (suc index) count (λ i k. step.channels i (omega (arith, k)))
                (λ i k. step.futures i (omega (arith, k))))
          ∙ ap (λ xs. xs ++ later) step.signals
          ∙ ap (λ xs. xs ++ later) (append_assoc a.signals sends calls)
          ∙ append_assoc a.signals (sends ++ calls) later;
      channels = λ i k. rest.channels i (omega (arith, k)) ∙ step.channels i (omega (arith, k));
      futures = λ i k. rest.futures i (omega (arith, k)) ∙ step.futures i (omega (arith, k));
    }

commit_up_to-IsTold : (index : ℕ) (s : Appender × Raft) → IsTold s (commit_up_to index s)
unfolding commit_up_to
commit_up_to-IsTold index s = elim (Bool-cases (ltb s.1.commit_index index)) [
  | inl above ↦
      let count = index - s.1.commit_index in
      let at = commit_loop-index count (suc s.1.commit_index) s refl in
      let tells = commit_loop-Tells count (suc s.1.commit_index) s in
      rw (above, commit_up_to)
        (record {
          count = count;
          reached = at;
          signals = tells.signals;
          channels = λ i k. tells.channels i (omega (arith, at, k));
          futures = λ i k. tells.futures i (omega (arith, at, k));
        })
  | inr within ↦
      rw (within, commit_up_to)
        (record {
          count = 0;
          reached = omega arith;
          signals = sym (append-nil s.0.signals);
          channels = λ i k. refl;
          futures = λ i k. refl;
        })
]

-- If callers wait for entries behind the commit index alone and were told of entries up to it alone, it is
-- so after a follower's report that is handled without a panic. The report tells exactly those who waited
-- for an entry that it commits: for each of these entries in turn, its channel gets its value if there is
-- one, and then its function is called if there is one; who waits for a later entry goes on waiting.
pub commit_member_index-IsWaiting :
    (id : MemberId) (index : ℕ) (s t : Appender × Raft)
    → IsWaiting s
    → commit_member_index id index s ≡ some t
    → IsWaiting t × IsTold s t
unfolding commit_member_index
commit_member_index-IsWaiting id index s t w ran =
    let P : Appender × Raft → Type 0 = λ x. IsWaiting x × IsTold s x in
    let reports = report id index s.0.commit_indexes in
    elim (Bool-cases (ltb (reported id s.0.commit_indexes) index)) [
      | inl above ↦
          let s₁ : Appender × Raft = (record (s.0) { commit_indexes = reports }, s.1) in
          let next : ℕ → Appender × Raft = λ n. commit_up_to n s₁ in
          let pick : List ℕ → Option ℕ =
            λ filled. get_elem? (sort filled) (length s.0.members / 2) in
          let (filled, _, more) =
            >>=-eq-some (fill (length s.0.members) (indexes reports))
              (λ filled. pick filled >>= λ n. some (next n)) (rw above at ran) in
          let (commit_index, _, is) = >>=-eq-some (pick filled) (λ n. some (next n)) more in
          let told = commit_up_to-IsTold commit_index s₁ in
          subst P (some-injective _ _ is) (
            commit_up_to-IsWaiting commit_index s₁
                (record { channels = w.channels; futures = w.futures; signals = w.signals }),
            record {
              count = told.count;
              reached = told.reached;
              signals = told.signals;
              channels = told.channels;
              futures = told.futures;
            },
          )
      | inr within ↦ subst P (some-injective _ _ (rw within at ran)) (
        w,
        record {
          count = 0;
          reached = omega arith;
          signals = sym (append-nil s.0.signals);
          channels = λ i k. refl;
          futures = λ i k. refl;
        },
      )
    ]
