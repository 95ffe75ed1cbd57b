-- ===== src/Roles/Appender/Waiting.antt =====
-- Who waits for an entry's commit: what `commitIndex` and its loop leave waiting.
use atomix_go_raft.Base.{
  ℕ, zero, suc, ◌-◌, ◌≤◌, ◌<◌, ◌≡◌, refl, true, false, inl, inr, List, [], ◌∷◌, ◌++◌, arith, ltb,
  ◌==◌, Bool-cases, All, All-append,
}
use atomix_go_raft.Protocol.Raft.{Raft}
use atomix_go_raft.Roles.Appender.{
  Appender, Signal, sent, called, has, without, signal_index, commit_one, commit_loop, commit_up_to,
}
use atomix_go_raft.Roles.Appender.Quorum.{commit_one-index}

abbrev pub index_of : Signal → ℕ
index_of (sent i) = i
index_of (called i) = i

-- Whoever waits, waits for an entry behind the commit index, and whoever was told waited for one up to it.
pub record IsWaiting (s : Appender × Raft) : Type 0 where
  pub channels : All (λ i. s.1.commit_index < i) s.0.commit_channels
  pub futures : All (λ i. s.1.commit_index < i) s.0.commit_futures
  pub signals : All (λ x. index_of x ≤ s.1.commit_index) s.0.signals

without-All :
    (c : ℕ) (xs : List ℕ) → All (λ i. c < i) xs → All (λ i. suc c < i) (without (suc c) xs)
unfolding without
without-All c [] h = tt
without-All c (x ∷ xs) h = elim (Bool-cases (x == suc c)) [
  | inl same ↦ rw same (without-All c xs h.1)
  | inr other ↦
      let beyond : suc c < x = ground (arith, h.0, other) in
      rw other ((beyond, without-All c xs h.1))
]

has-All :
    (c : ℕ) (xs : List ℕ) → has (suc c) xs ≡ false → All (λ i. c < i) xs → All (λ i. suc c < i) xs
unfolding has
has-All c [] f h = tt
has-All c (x ∷ xs) f h = elim (Bool-cases (x == suc c)) [
  | inl same ↦ absurd (let no : true ≡ false = rw same at f in ground arith)
  | inr other ↦
      let beyond : suc c < x = ground (arith, h.0, other) in
      (beyond, has-All c xs (rw other at f) h.1)
]

signals_mono :
    (c : ℕ) (xs : List Signal) → All (λ x. index_of x ≤ c) xs → All (λ x. index_of x ≤ suc c) xs
signals_mono c [] h = tt
signals_mono c (x ∷ xs) h = (omega (arith, h.0), signals_mono c xs h.1)

add_signal :
    (c : ℕ) (x : Signal) (xs : List Signal)
    → index_of x ≡ c
    → All (λ y. index_of y ≤ c) xs
    → All (λ y. index_of y ≤ c) (xs ++ x ∷ [])
add_signal c x xs h k = All-append _ xs (x ∷ []) k (omega (arith, h), tt)

-- An appender's part of the invariant, at a commit index.
record Waits (c : ℕ) (a : Appender) : Type 0 where
  channels : All (λ i. c < i) a.commit_channels
  futures : All (λ i. c < i) a.commit_futures
  signals : All (λ x. index_of x ≤ c) a.signals

signal_index-Waits : (c : ℕ) (a : Appender) → Waits c a → Waits (suc c) (signal_index (suc c) a)
unfolding signal_index
signal_index-Waits c a w =
    let told = signals_mono c a.signals w.signals in
    elim (Bool-cases (has (suc c) a.commit_channels)) [
      | inl some_channel ↦ elim (Bool-cases (has (suc c) a.commit_futures)) [
        | inl some_future ↦
            rw (some_channel, some_future)
              (record {
                channels = without-All c a.commit_channels w.channels;
                futures = without-All c a.commit_futures w.futures;
                signals =
                    add_signal (suc c) (called (suc c)) _ refl
                      (add_signal (suc c) (sent (suc c)) a.signals refl told);
              })
        | inr no_future ↦
            rw (some_channel, no_future)
              (record {
                channels = without-All c a.commit_channels w.channels;
                futures = has-All c a.commit_futures no_future w.futures;
                signals = add_signal (suc c) (sent (suc c)) a.signals refl told;
              })
      ]
      | inr no_channel ↦ elim (Bool-cases (has (suc c) a.commit_futures)) [
        | inl some_future ↦
            rw (no_channel, some_future)
              (record {
                channels = has-All c a.commit_channels no_channel w.channels;
                futures = without-All c a.commit_futures w.futures;
                signals = add_signal (suc c) (called (suc c)) a.signals refl told;
              })
        | inr no_future ↦
            rw (no_channel, no_future)
              (record {
                channels = has-All c a.commit_channels no_channel w.channels;
                futures = has-All c a.commit_futures no_future w.futures;
                signals = told;
              })
      ]
    ]

commit_one-IsWaiting :
    (s : Appender × Raft) → IsWaiting s → IsWaiting (commit_one (suc s.1.commit_index) s)
unfolding commit_one
commit_one-IsWaiting s w =
    let next : (commit_one (suc s.1.commit_index) s).1.commit_index ≡ suc s.1.commit_index =
      omega (arith, commit_one-index (suc s.1.commit_index) s) in
    let now =
      signal_index-Waits s.1.commit_index s.0
        (record { channels = w.channels; futures = w.futures; signals = w.signals }) in
    record {
      channels = rw next now.channels;
      futures = rw next now.futures;
      signals = rw next now.signals;
    }

commit_loop-IsWaiting :
    (count index : ℕ) (s : Appender × Raft)
    → index ≡ suc s.1.commit_index
    → IsWaiting s
    → IsWaiting (commit_loop count index s)
unfolding commit_loop
commit_loop-IsWaiting zero index s h w = w
commit_loop-IsWaiting (suc count) index s h w =
    let next = commit_one-index index s in
    commit_loop-IsWaiting count (suc index) (commit_one index s) (omega (arith, h, next))
      (rw h (commit_one-IsWaiting s w))

-- Committing up to an index tells everyone who waits for an entry up to it, and nobody else.
pub commit_up_to-IsWaiting :
    (index : ℕ) (s : Appender × Raft) → IsWaiting s → IsWaiting (commit_up_to index s)
unfolding commit_up_to
commit_up_to-IsWaiting index s w = elim (Bool-cases (ltb s.1.commit_index index)) [
  | inl above ↦
      rw (above, commit_up_to)
        (commit_loop-IsWaiting (index - s.1.commit_index) (suc s.1.commit_index) s refl w)
  | inr within ↦ rw (within, commit_up_to) w
]
