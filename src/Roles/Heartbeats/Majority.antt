-- ===== src/Roles/Heartbeats/Majority.antt =====
-- The majority behind an answered heartbeat.
use mathlib.Core.List.{append-nil}
use atomix_go_raft.Base.{
  ℕ, zero, suc, ◌/◌, ◌≤◌, ◌<◌, ◌≡◌, refl, sym, ap, inl, inr, some, List, [], ◌∷◌, ◌++◌, arith, ltb,
  ltb→lt, length, get_elem?-some, sort, count_from, count_from-position, length-sort, length-map,
  All, Bool-cases,
}
use atomix_go_raft.Store.Log.{Time}
use atomix_go_raft.Protocol.Cluster.{MemberId}
use atomix_go_raft.Roles.Appender.{report, indexes}
use atomix_go_raft.Roles.Appender.Quorum.{IsMajority}
use atomix_go_raft.Roles.Heartbeats.{
  Heartbeats, unset_time, time_of, fill_times, answer_before, commit_member_time,
}

-- The array has a place for each member, and unset ones count for no later time.
record Filled (n : ℕ) (xs : List Time) : Type 0 where
  ys : List Time
  made : fill_times n xs ≡ some ys
  size : length ys ≡ n
  counts : (v : ℕ) → unset_time < v → count_from v ys ≡ count_from v xs

fill_times-Filled : (n : ℕ) (xs : List Time) → length xs ≤ n → Filled n xs
unfolding fill_times count_from
fill_times-Filled zero [] h = record { ys = []; made = refl; size = refl; counts = λ v k. refl }
fill_times-Filled zero (x ∷ xs) h = absurd (omega arith)
fill_times-Filled (suc n) [] h =
    let f = fill_times-Filled n [] (omega arith) in
    record {
      ys = unset_time ∷ f.ys;
      made = rw f.made refl;
      size = ap suc f.size;
      counts = λ v k. ground (arith, f.counts v k, k);
    }
fill_times-Filled (suc n) (x ∷ xs) h =
    let f = fill_times-Filled n xs (omega arith) in
    record {
      ys = x ∷ f.ys;
      made = rw f.made refl;
      size = ap suc f.size;
      counts = λ v k. ground (arith, f.counts v k);
    }

count_from_mono : (v w : ℕ) (xs : List ℕ) → v ≤ w → count_from w xs ≤ count_from v xs
unfolding count_from
count_from_mono v w [] h = omega arith
count_from_mono v w (x ∷ xs) h = ground (arith, h, count_from_mono v w xs h)

-- A heartbeat that was asked for at a time has a majority of members with later times.
abbrev pub IsBacked : List MemberId → List (MemberId × Time) → Time → Type 0
IsBacked members times t = IsMajority (length members) (suc t) (indexes times)

answer_before-IsBacked :
    (members : List MemberId) (times : List (MemberId × Time)) (time : Time) (ts : List Time)
    → ((t : Time) → unset_time ≤ t → t < time → IsBacked members times t)
    → All (λ t. unset_time ≤ t) ts
    → All (IsBacked members times) (answer_before time ts).0
unfolding answer_before
answer_before-IsBacked members times time [] backed h = tt
answer_before-IsBacked members times time (t ∷ ts) backed h = elim (Bool-cases (ltb t time)) [
  | inl before ↦
      rw (answer_before, before)
        (
          backed t h.0 (ltb→lt t time before),
          answer_before-IsBacked members times time ts backed h.1,
        )
  | inr after ↦ rw (answer_before, after) tt
]

answer_before-append :
    (time : Time) (ts : List Time) → (answer_before time ts).0 ++ (answer_before time ts).1 ≡ ts
unfolding answer_before
answer_before-append time [] = refl
answer_before-append time (t ∷ ts) = elim (Bool-cases (ltb t time)) [
  | inl before ↦ rw (answer_before, before) (ap (◌∷◌ t) (answer_before-append time ts))
  | inr after ↦ rw (answer_before, after) refl
]

-- What an answer of a member comes to.
pub record Answered (h : Heartbeats) (t : Heartbeats) : Type 0 where
  pub now : List Time
  pub answered : t.answered ≡ h.answered ++ now
  pub in_order : now ++ t.futures ≡ h.futures
  pub backed : All (IsBacked h.members t.commit_times) now

-- An answer of a member is handled without a panic, if there are other members and the map has no more keys
-- than they are, and if no heartbeat that waits was asked for before 1970. It answers the oldest heartbeats
-- that wait, in order, and each of them only if a majority of the cluster, the leader included, has
-- answered requests that were sent after it.
pub commit_member_time-Answered :
    (id : MemberId) (time : Time) (h : Heartbeats)
    → 1 ≤ length h.members
    → length (report id time h.commit_times) ≤ length h.members
    → All (λ t. unset_time ≤ t) h.futures
    → (t : Heartbeats) × (commit_member_time id time h ≡ some t) × Answered h t
unfolding commit_member_time
commit_member_time-Answered id time h others keys asked =
    elim (Bool-cases (ltb (time_of id h.commit_times) time)) [
      | inr old ↦ (
        h,
        rw (commit_member_time, old) refl,
        record { now = []; answered = sym (append-nil h.answered); in_order = refl; backed = tt },
      )
      | inl newer ↦
          let times = report id time h.commit_times in
          let f =
            fill_times-Filled (length h.members) (indexes times)
              (omega (arith, length-map (λ (m : MemberId × ℕ). m.1) times, keys)) in
          let (commit_time, at) =
            get_elem?-some (sort f.ys) (length h.members / 2)
              (omega (arith, length-sort f.ys, f.size, others)) in
          let o = answer_before commit_time h.futures in
          let backed : (t : Time) → unset_time ≤ t → t < commit_time → IsBacked h.members times t =
            λ t after before. omega (
              arith,
              count_from-position f.ys (length h.members / 2) at,
              f.size,
              f.counts (suc t) (omega (arith, after)),
              count_from_mono (suc t) commit_time f.ys (omega (arith, before)),
            ) in
          (
            record h {
              commit_times = times;
              answered = h.answered ++ o.0;
              futures = o.1;
              last_quorum_time = time;
            },
            rw (newer, commit_member_time) (rw f.made (rw at refl)),
            record {
              now = o.0;
              answered = refl;
              in_order = answer_before-append commit_time h.futures;
              backed = answer_before-IsBacked h.members times commit_time h.futures backed asked;
            },
          )
    ]
