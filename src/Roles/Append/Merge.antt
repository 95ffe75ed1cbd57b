-- ===== src/Roles/Append/Merge.antt =====
-- What an append request should make of a log's entries: an entry with the term of the one in its place is
-- kept, the first one with another term replaces the rest, and entries past the end are added.
use atomix_go_raft.Base.{
  ℕ, suc, ◌≤◌, ◌≡◌, refl, ap, inl, inr, List, [], ◌∷◌, ◌++◌, arith, if◌then◌else◌, ◌==◌, Bool-cases,
  length, take, drop, take-length, ==_iff, get_or, ◌⊎◌, map,
}
use atomix_go_raft.Store.Log.{LogEntry}

unfoldable pub merge : List LogEntry → List LogEntry → List LogEntry
merge old [] = old
merge [] (e ∷ es) = e ∷ es
merge (o ∷ os) (e ∷ es) = let rest = merge os es in if o.term == e.term then o ∷ rest else e ∷ es

-- One entry's part of it.
unfoldable pub place : List LogEntry → LogEntry → List LogEntry
place [] e = e ∷ []
place (o ∷ os) e = if o.term == e.term then o ∷ os else e ∷ []

pub merge-nil : (es : List LogEntry) → merge [] es ≡ es
unfolding merge
merge-nil [] = refl
merge-nil (e ∷ es) = refl

-- Placing an entry after some others and merging the rest behind it.
pub merge-place :
    (front old : List LogEntry) (e : LogEntry) (es : List LogEntry)
    → take (suc (length front)) (front ++ place old e)
        ++ merge (drop (suc (length front)) (front ++ place old e)) es
      ≡ front ++ merge old (e ∷ es)
unfolding place merge
merge-place [] [] e es = ap (◌∷◌ e) (merge-nil es)
merge-place [] (o ∷ os) e es = elim (Bool-cases (o.term == e.term)) [
  | inl same ↦ rw same refl
  | inr other ↦ rw other (ap (◌∷◌ e) (merge-nil es))
]
merge-place (x ∷ xs) old e es = ap (◌∷◌ x) (merge-place xs old e es)

pub length-place_le : (old : List LogEntry) (e : LogEntry) → 1 ≤ length (place old e)
unfolding place
length-place_le [] e = omega arith
length-place_le (o ∷ os) e = ground arith

pub length-place_most :
    (old : List LogEntry) (e : LogEntry)
    → (length (place old e) ≤ length old) ⊎ (length (place old e) ≤ 1)
unfolding place
length-place_most [] e = inr (omega arith)
length-place_most (o ∷ os) e = elim (Bool-cases (o.term == e.term)) [
  | inl same ↦ rw same (inl (omega arith))
  | inr other ↦ rw other (inr (omega arith))
]

abbrev pub terms : List LogEntry → List ℕ
terms = map λ e. e.term

-- Where the merged entries reach, they have the terms of the new ones.
pub terms-merge : (old es : List LogEntry) → terms (take (length es) (merge old es)) ≡ terms es
unfolding merge
terms-merge old [] = refl
terms-merge [] (e ∷ es) = ap terms (take-length (e ∷ es))
terms-merge (o ∷ os) (e ∷ es) = elim (Bool-cases (o.term == e.term)) [
  | inl same ↦ rw same (λ i. (==_iff o.term e.term).0 same i ∷ terms-merge os es i)
  | inr other ↦ rw other (ap terms (take-length (e ∷ es)))
]

-- Entries that are there already change nothing: what is behind them stays.
pub merge-again :
    (old es : List LogEntry) → terms (take (length es) old) ≡ terms es → merge old es ≡ old
unfolding merge
merge-again old [] h = refl
merge-again [] (e ∷ es) h = absurd (omega (arith, ap (λ (xs : List ℕ). length xs) h))
merge-again (o ∷ os) (e ∷ es) h =
    let same : o.term ≡ e.term = ap (λ (xs : List ℕ). get_or xs 0 0) h in
    rw ((==_iff o.term e.term).1 same) (ap (◌∷◌ o) (merge-again os es (ap (drop 1) h)))

pub length-merge_le : (old es : List LogEntry) → length es ≤ length (merge old es)
unfolding merge
length-merge_le old [] = omega arith
length-merge_le [] (e ∷ es) = omega arith
length-merge_le (o ∷ os) (e ∷ es) = ground (arith, length-merge_le os es)

pub length-merge_most :
    (old es : List LogEntry)
    → (length (merge old es) ≤ length old) ⊎ (length (merge old es) ≤ length es)
unfolding merge
length-merge_most old [] = inl (omega arith)
length-merge_most [] (e ∷ es) = inr (omega arith)
length-merge_most (o ∷ os) (e ∷ es) = ground (arith, length-merge_most os es)
