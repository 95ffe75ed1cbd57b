-- ===== src/Base/Sorting.antt =====
-- Sorting numbers, and counting those that reach a bound.
use Prim.Native.Nat.{ℕ, zero, suc, ◌+◌, ◌≤◌}
use mathlib.Core.Path.{◌≡◌, refl}
use mathlib.Core.Logic.{inl, inr}
use mathlib.Core.List.{List, [], ◌∷◌}
use mathlib.Core.Option.{some}
use native.Mathlib.Omega.{arith}
use atomix_go_raft.Base.Tests.{leb, if◌then◌else◌, Bool-cases, leb→le}
use atomix_go_raft.Base.Lists.{length, get_elem?, All}

unfoldable pub insert : ℕ → List ℕ → List ℕ
insert x [] = x ∷ []
insert x (y ∷ ys) = let rest = insert x ys in if leb x y then x ∷ y ∷ ys else y ∷ rest

-- `sort.Slice` with `<`: the ascending order, which numbers have only one of.
unfoldable pub sort : List ℕ → List ℕ
unfolding insert
sort [] = []
sort (x ∷ xs) = insert x (sort xs)

-- How many reach a bound.
unfoldable pub count_from : ℕ → List ℕ → ℕ
count_from v [] = 0
count_from v (x ∷ xs) = let rest = count_from v xs in if leb v x then suc rest else rest

abbrev IsSorted : List ℕ → Type 0
IsSorted [] = Unit {0}
IsSorted (x ∷ xs) = All (λ y. x ≤ y) xs × IsSorted xs

All-mono : (x y : ℕ) (ys : List ℕ) → x ≤ y → All (λ z. y ≤ z) ys → All (λ z. x ≤ z) ys
All-mono x y [] h k = tt
All-mono x y (z ∷ zs) h k = (omega (arith, h, k.0), All-mono x y zs h k.1)

All-insert : (b x : ℕ) (ys : List ℕ) → b ≤ x → All (λ z. b ≤ z) ys → All (λ z. b ≤ z) (insert x ys)
unfolding insert
All-insert b x [] h k = (h, tt)
All-insert b x (y ∷ ys) h k = elim (Bool-cases (leb x y)) [
  | inl before ↦ rw before (h, k)
  | inr after ↦ rw after (k.0, All-insert b x ys h k.1)
]

insert-IsSorted : (x : ℕ) (ys : List ℕ) → IsSorted ys → IsSorted (insert x ys)
unfolding insert
insert-IsSorted x [] s = (tt, tt)
insert-IsSorted x (y ∷ ys) s = elim (Bool-cases (leb x y)) [
  | inl before ↦ rw before ((leb→le x y before, All-mono x y ys (leb→le x y before) s.0), s)
  | inr after ↦
      rw after (All-insert y x ys (let h : y ≤ x = ground arith in h) s.0, insert-IsSorted x ys s.1)
]

sort-IsSorted : (xs : List ℕ) → IsSorted (sort xs)
unfolding sort
sort-IsSorted [] = tt
sort-IsSorted (x ∷ xs) = insert-IsSorted x (sort xs) (sort-IsSorted xs)

count_from-insert : (v x : ℕ) (ys : List ℕ) → count_from v (insert x ys) ≡ count_from v (x ∷ ys)
unfolding insert count_from
count_from-insert v x [] = refl
count_from-insert v x (y ∷ ys) = ground (arith, count_from-insert v x ys)

pub count_from-sort : (v : ℕ) (xs : List ℕ) → count_from v (sort xs) ≡ count_from v xs
unfolding sort count_from
count_from-sort v [] = refl
count_from-sort v (x ∷ xs) = ground (arith, count_from-insert v x (sort xs), count_from-sort v xs)

length-insert : (x : ℕ) (ys : List ℕ) → length (insert x ys) ≡ suc (length ys)
unfolding insert
length-insert x [] = refl
length-insert x (y ∷ ys) = ground (arith, length-insert x ys)

pub length-sort : (xs : List ℕ) → length (sort xs) ≡ length xs
unfolding sort
length-sort [] = refl
length-sort (x ∷ xs) = omega (arith, length-insert x (sort xs), length-sort xs)

count_from-All : (v : ℕ) (xs : List ℕ) → All (λ y. v ≤ y) xs → count_from v xs ≡ length xs
unfolding count_from
count_from-All v [] h = refl
count_from-All v (x ∷ xs) h = ground (arith, h.0, count_from-All v xs h.1)

-- In ascending order, what stands behind a position reaches what stands there.
count_from-sorted :
    (xs : List ℕ) (i : ℕ) {v : ℕ}
    → IsSorted xs
    → get_elem? xs i ≡ some v
    → length xs ≤ i + count_from v xs
unfolding count_from
count_from-sorted [] i s h = ground arith
count_from-sorted (x ∷ xs) zero {v} s h =
    let same : x ≡ v = ground arith in
    ground (arith, same, count_from-All v xs (All-mono v x xs (omega (arith, same)) s.0))
count_from-sorted (x ∷ xs) (suc i) {v} s h = ground (arith, count_from-sorted xs i s.1 h)

pub count_from-position :
    (xs : List ℕ) (i : ℕ) {v : ℕ} → get_elem? (sort xs) i ≡ some v → length xs ≤ i + count_from v xs
count_from-position xs i {v} h = omega (
  arith,
  count_from-sorted (sort xs) i (sort-IsSorted xs) h,
  count_from-sort v xs,
  length-sort xs,
)
