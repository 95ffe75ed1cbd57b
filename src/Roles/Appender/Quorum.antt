-- ===== src/Roles/Appender/Quorum.antt =====
-- `commitMemberIndex`: what the sorted indexes say of a majority.
use atomix_go_raft.Base.{
  ℕ, zero, suc, ◌+◌, ◌-◌, ◌*◌, ◌/◌, ◌≤◌, ◌<◌, ◌≡◌, refl, ap, ◌∙◌, ◌⊎◌, inl, inr, some, List, [],
  ◌∷◌, arith, ltb, Bool-cases, length, get_elem?, get_elem?-some, max, sort, count_from,
  count_from-position, length-sort, length-map, ltb→lt, ltb→ge,
}
use atomix_go_raft.Protocol.Cluster.{MemberId}
use atomix_go_raft.Protocol.Raft.{Raft, set_commit_index, commit}
use atomix_go_raft.Roles.Appender.{
  Appender, reported, report, indexes, fill, has, signal_index, commit_one, commit_loop,
  commit_up_to, commit_member_index,
}

-- The array has a place for each member, and zeros count for no bound above zero.
record Filled (n : ℕ) (xs : List ℕ) : Type 0 where
  ys : List ℕ
  made : fill n xs ≡ some ys
  size : length ys ≡ n
  counts : (v : ℕ) → 1 ≤ v → count_from v ys ≡ count_from v xs

fill-Filled : (n : ℕ) (xs : List ℕ) → length xs ≤ n → Filled n xs
unfolding fill count_from
fill-Filled zero [] h = record { ys = []; made = refl; size = refl; counts = λ v k. refl }
fill-Filled zero (x ∷ xs) h = absurd (omega arith)
fill-Filled (suc n) [] h =
    let f = fill-Filled n [] (omega arith) in
    record {
      ys = 0 ∷ f.ys;
      made = rw f.made refl;
      size = ap suc f.size;
      counts = λ v k. ground (arith, f.counts v k);
    }
fill-Filled (suc n) (x ∷ xs) h =
    let f = fill-Filled n xs (omega arith) in
    record {
      ys = x ∷ f.ys;
      made = rw f.made refl;
      size = ap suc f.size;
      counts = λ v k. ground (arith, f.counts v k);
    }

pub commit_one-index :
    (index : ℕ) (s : Appender × Raft)
    → (commit_one index s).1.commit_index ≡ max s.1.commit_index index
unfolding commit_one commit set_commit_index
commit_one-index index s = ground arith

pub commit_loop-index :
    (count index : ℕ) (s : Appender × Raft)
    → index ≡ suc s.1.commit_index
    → (commit_loop count index s).1.commit_index ≡ s.1.commit_index + count
unfolding commit_loop
commit_loop-index zero index s h = omega arith
commit_loop-index (suc count) index s h = omega (
  arith,
  commit_loop-index count (suc index) (commit_one index s)
      (omega (arith, h, commit_one-index index s)),
  commit_one-index index s,
  h,
)

commit_up_to-index :
    (index : ℕ) (s : Appender × Raft)
    → (commit_up_to index s).1.commit_index ≡ max s.1.commit_index index
unfolding commit_up_to
commit_up_to-index index s = elim (Bool-cases (ltb s.1.commit_index index)) [
  | inl above ↦
      rw (above, commit_up_to)
        (commit_loop-index (index - s.1.commit_index) (suc s.1.commit_index) s refl
          ∙ omega (arith, ltb→lt _ _ above))
  | inr within ↦ rw (within, commit_up_to) (omega (arith, ltb→ge _ _ within))
]

signal_index-reports :
    (index : ℕ) (a : Appender) → (signal_index index a).commit_indexes ≡ a.commit_indexes
unfolding signal_index
signal_index-reports index a = elim (Bool-cases (has index a.commit_channels)) [
  | inl c ↦ elim (Bool-cases (has index a.commit_futures)) [
    | inl f ↦ rw (c, f) refl
    | inr f ↦ rw (c, f) refl
  ]
  | inr c ↦ elim (Bool-cases (has index a.commit_futures)) [
    | inl f ↦ rw (c, f) refl
    | inr f ↦ rw (c, f) refl
  ]
]

commit_loop-reports :
    (count index : ℕ) (s : Appender × Raft)
    → (commit_loop count index s).0.commit_indexes ≡ s.0.commit_indexes
unfolding commit_loop commit_one
commit_loop-reports zero index s = refl
commit_loop-reports (suc count) index s =
    commit_loop-reports count (suc index) (commit_one index s) ∙ signal_index-reports index s.0

pub commit_up_to-reports :
    (index : ℕ) (s : Appender × Raft) → (commit_up_to index s).0.commit_indexes ≡ s.0.commit_indexes
unfolding commit_up_to
commit_up_to-reports index s = elim (Bool-cases (ltb s.1.commit_index index)) [
  | inl above ↦
      rw (above, commit_up_to)
        (commit_loop-reports (index - s.1.commit_index) (suc s.1.commit_index) s)
  | inr within ↦ rw (within, commit_up_to) refl
]

-- More than half of the cluster, which is the leader and so many others, has an index or more.
abbrev pub IsMajority : ℕ → ℕ → List ℕ → Type 0
IsMajority others index stored = suc others < 2 * suc (count_from index stored)

majority_lem :
    (members : List MemberId) (xs : List ℕ) {index : ℕ} (f : Filled (length members) xs)
    → get_elem? (sort f.ys) (length members / 2) ≡ some index
    → 1 ≤ index
    → IsMajority (length members) index xs
majority_lem members xs {index} f at positive =
    omega (arith, count_from-position f.ys (length members / 2) at, f.size, f.counts index positive)

-- What a report comes to.
pub record Counted (members : List MemberId) (r : Raft) (t : Appender × Raft) : Type 0 where
  pub grows : r.commit_index ≤ t.1.commit_index
  pub backed :
      (t.1.commit_index ≡ r.commit_index)
      ⊎ IsMajority (length members) t.1.commit_index (indexes t.0.commit_indexes)

up_to-Counted :
    (a : Appender) (r : Raft) {index : ℕ} (f : Filled (length a.members) (indexes a.commit_indexes))
    → get_elem? (sort f.ys) (length a.members / 2) ≡ some index
    → Counted a.members r (commit_up_to index (a, r))
up_to-Counted a r {index} f at =
    let is = commit_up_to-index index (a, r) in
    let reports = commit_up_to-reports index (a, r) in
    record {
      grows = omega (arith, is);
      backed = elim (Bool-cases (ltb r.commit_index index)) [
        | inl above ↦
            let now : (commit_up_to index (a, r)).1.commit_index ≡ index =
              omega (arith, is, ltb→lt _ _ above) in
            inr (
              rw (now, reports)
                (majority_lem a.members (indexes a.commit_indexes) f at
                  (omega (arith, ltb→lt _ _ above))))
        | inr within ↦ inl (omega (arith, is, ltb→ge _ _ within))
      ];
    }

-- A follower's report is handled without a panic, if there are other members and the map has no more
-- keys than they are. The leader's commit index does not go down, and where it goes up, a majority of
-- the cluster, the leader included, has the entry at the new commit index.
pub commit_member_index-Counted :
    (id : MemberId) (index : ℕ) (a : Appender) (r : Raft)
    → 1 ≤ length a.members
    → length (report id index a.commit_indexes) ≤ length a.members
    → (t : Appender × Raft) × (commit_member_index id index (a, r) ≡ some t) × Counted a.members r t
unfolding commit_member_index
commit_member_index-Counted id index a r others keys =
    elim (Bool-cases (ltb (reported id a.commit_indexes) index)) [
      | inl above ↦
          let reports = report id index a.commit_indexes in
          let b : Appender = record a { commit_indexes = reports } in
          let f =
            fill-Filled (length a.members) (indexes reports)
              (omega (arith, length-map (λ (m : MemberId × ℕ). m.1) reports, keys)) in
          let (commit_index, at) =
            get_elem?-some (sort f.ys) (length a.members / 2)
              (omega (arith, length-sort f.ys, f.size, others)) in
          (
            commit_up_to commit_index (b, r),
            rw (above, commit_member_index) (rw f.made (rw at refl)),
            up_to-Counted b r f at,
          )
      | inr within ↦ (
        (a, r),
        rw (within, commit_member_index) refl,
        record { grows = omega arith; backed = inl refl },
      )
    ]
