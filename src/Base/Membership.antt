-- ===== src/Base/Membership.antt =====
-- Which elements a list has, lists without repetition, and the pigeonhole principle.
use Prim.Native.Nat.{◌+◌, ◌≤◌, ◌<◌}
use mathlib.Core.Path.{◌≡◌, refl, sym, subst, ap}
use mathlib.Core.Logic.{◌⊎◌, inl, inr, ◌≢◌}
use mathlib.Core.List.{List, [], ◌∷◌, ◌++◌}
use Prim.Native.String.{String}
use text.Mathlib.Text.{◌==◌ as str_eq}
use text.Mathlib.TextEquality.{eq_iff}
use native.Mathlib.Omega.{arith}
use atomix_go_raft.Base.Tests.{Bool-cases}
use atomix_go_raft.Base.Lists.{length, length-append}

module _ {A : Type 0} where
  abbrev pub Elem : A → List A → Type 0
  Elem x [] = ⊥
  Elem x (y ∷ ys) = (x ≡ y) ⊎ Elem x ys

  -- No element stands in two places.
  abbrev pub IsDistinct : List A → Type 0
  IsDistinct [] = Unit {0}
  IsDistinct (x ∷ xs) = (Elem x xs → ⊥) × IsDistinct xs

  abbrev pub IsWithin : List A → List A → Type 0
  IsWithin xs ys = (x : A) → Elem x xs → Elem x ys

module _ {A : Type 0} where
  pub Elem-append_left : (x : A) (xs ys : List A) → Elem x xs → Elem x (xs ++ ys)
  Elem-append_left x [] ys h = absurd h
  Elem-append_left x (z ∷ xs) ys (inl e) = inl e
  Elem-append_left x (z ∷ xs) ys (inr h) = inr (Elem-append_left x xs ys h)

  pub Elem-append_right : (x : A) (xs ys : List A) → Elem x ys → Elem x (xs ++ ys)
  Elem-append_right x [] ys h = h
  Elem-append_right x (z ∷ xs) ys h = inr (Elem-append_right x xs ys h)

  pub Elem-append : (x : A) (xs ys : List A) → Elem x (xs ++ ys) → Elem x xs ⊎ Elem x ys
  Elem-append x [] ys h = inr h
  Elem-append x (z ∷ xs) ys (inl e) = inl (inl e)
  Elem-append x (z ∷ xs) ys (inr h) = elim (Elem-append x xs ys h) [
    | inl a ↦ inl (inr a)
    | inr b ↦ inr b
  ]

  -- An element splits the list.
  pub Elem-split :
      (x : A) (xs : List A) → Elem x xs → (front back : List A) × (xs ≡ front ++ x ∷ back)
  Elem-split x [] h = absurd h
  Elem-split x (z ∷ xs) (inl e) = ([], xs, ap (λ w. w ∷ xs) (sym e))
  Elem-split x (z ∷ xs) (inr h) =
      let (front, back, e) = Elem-split x xs h in (z ∷ front, back, ap (◌∷◌ z) e)

  pub Elem-≡ : (x y : A) (xs : List A) → x ≡ y → Elem x xs → Elem y xs
  Elem-≡ x y xs e h = subst (λ z. Elem z xs) e h

  pub Elem-middle :
      (x y : A) (front back : List A)
      → Elem x (front ++ y ∷ back)
      → (x ≡ y) ⊎ Elem x (front ++ back)
  Elem-middle x y front back h = elim (Elem-append x front (y ∷ back) h) [
    | inl a ↦ inr (Elem-append_left x front back a)
    | inr (inl e) ↦ inl e
    | inr (inr b) ↦ inr (Elem-append_right x front back b)
  ]

  pub Elem-middle_rest :
      (x y : A) (front back : List A) → Elem x (front ++ back) → Elem x (front ++ y ∷ back)
  Elem-middle_rest x y front back h = elim (Elem-append x front back h) [
    | inl a ↦ Elem-append_left x front (y ∷ back) a
    | inr b ↦ Elem-append_right x front (y ∷ back) (inr b)
  ]

  -- A list without repetition is no longer than one that has its elements.
  pub length-IsWithin : (xs ys : List A) → IsDistinct xs → IsWithin xs ys → length xs ≤ length ys
  length-IsWithin [] ys d w = omega arith
  length-IsWithin (x ∷ xs) ys d w =
      let (front, back, e) = Elem-split x ys (w x (inl refl)) in
      let rest : IsWithin xs (front ++ back) = λ y h.
        elim (Elem-middle y x front back (subst (Elem y) e (w y (inr h)))) [
          | inl same ↦ absurd (d.0 (Elem-≡ y x xs same h))
          | inr there ↦ there
        ] in
      omega (
        arith,
        length-IsWithin xs (front ++ back) d.1 rest,
        length-append front back,
        length-append front (x ∷ back),
        ap (λ (zs : List A). length zs) e,
      )

  IsDistinct-append :
      (xs ys : List A)
      → IsDistinct xs
      → IsDistinct ys
      → ((x : A) → Elem x xs → Elem x ys → ⊥)
      → IsDistinct (xs ++ ys)
  IsDistinct-append [] ys dx dy apart = dy
  IsDistinct-append (x ∷ xs) ys dx dy apart = (
    λ h. elim (Elem-append x xs ys h) [ inl a ↦ dx.0 a | inr b ↦ apart x (inl refl) b ],
    IsDistinct-append xs ys dx.1 dy (λ y h k. apart y (inr h) k),
  )

module _ {A : Type 0} (decide : (x y : A) → (x ≡ y) ⊎ (x ≢ y)) where
  pub Elem-decide : (x : A) (ys : List A) → Elem x ys ⊎ (Elem x ys → ⊥)
  Elem-decide x [] = inr (λ h. h)
  Elem-decide x (y ∷ ys) = elim (decide x y) [
    | inl e ↦ inl (inl e)
    | inr other ↦ elim (Elem-decide x ys) [
      | inl h ↦ inl (inr h)
      | inr out ↦ inr (λ h. elim h [ inl e ↦ other e | inr k ↦ out k ])
    ]
  ]

  common :
      (xs ys : List A) → ((x : A) × Elem x xs × Elem x ys) ⊎ ((x : A) → Elem x xs → Elem x ys → ⊥)
  common [] ys = inr (λ x h k. h)
  common (z ∷ xs) ys = elim (Elem-decide z ys) [
    | inl h ↦ inl (z, inl refl, h)
    | inr out ↦ elim (common xs ys) [
      | inl (x, h, k) ↦ inl (x, inr h, k)
      | inr apart ↦
          inr (λ x h k. elim h [ inl e ↦ out (Elem-≡ x z ys e k) | inr there ↦ apart x there k ])
    ]
  ]

  -- Two lists without repetition over one list, longer than it together, have an element in common.
  pub overlap :
      (xs ys zs : List A)
      → IsDistinct xs
      → IsDistinct ys
      → IsWithin xs zs
      → IsWithin ys zs
      → length zs < length xs + length ys
      → (x : A) × Elem x xs × Elem x ys
  overlap xs ys zs dx dy wx wy many = elim (common xs ys) [
    | inl found ↦ found
    | inr apart ↦
        let all : IsWithin (xs ++ ys) zs =
          λ x h. elim (Elem-append x xs ys h) [ inl a ↦ wx x a | inr b ↦ wy x b ] in
        absurd (
          omega (
            arith,
            many,
            length-append xs ys,
            length-IsWithin (xs ++ ys) zs (IsDistinct-append xs ys dx dy apart) all,
          ))
  ]

pub str_decide : (x y : String) → (x ≡ y) ⊎ (x ≢ y)
str_decide x y = elim (Bool-cases (str_eq x y)) [
  | inl same ↦ inl ((eq_iff x y).0 same)
  | inr other ↦ inr (λ e. let yes' = (eq_iff x y).1 e in cc)
]
