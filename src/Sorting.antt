-- ===== src/Sorting.antt =====
-- slices.SortFunc and slices.SortStableFunc, as the insertion sort that keeps equal elements in
-- order. `before a b` says that `b` may stand after `a`.
use mecone.Prelude.{
  ◌≡◌, ◌↔◌, ◌⊎◌, inl, inr, Bool, true, false, List, [], ◌∷◌, if◌then◌else◌, Bool-cases, All,
  All-imp, arith, Any,
}
use mathlib.Core.List.{Perm}
use mathlib.Core.List.Perm

module _ {A : Type 0} (before : A → A → Bool) where
  unfoldable pub place : A → List A → List A
  place x [] = x ∷ []
  place x (y ∷ ys) = if before x y then x ∷ y ∷ ys else y ∷ place x ys

  unfoldable pub sort : List A → List A
  unfolding place
  sort [] = []
  sort (x ∷ xs) = place x (sort xs)

  abbrev pub IsSorted : List A → Type 0
  IsSorted [] = Unit
  IsSorted (x ∷ xs) = All (λ y. before x y ≡ true) xs × IsSorted xs

  place-Any : (P : A → Type 0) (x : A) (ys : List A) → Any P (place x ys) ↔ (P x ⊎ Any P ys)
  unfolding place
  place-Any P x [] = (λ h. h, λ h. h)
  place-Any P x (y ∷ ys) = ground (arith, place-Any P x ys)

  -- Sorting keeps what occurs.
  pub sort-Any : (P : A → Type 0) (xs : List A) → Any P (sort xs) ↔ Any P xs
  unfolding sort
  sort-Any P [] = (λ h. h, λ h. h)
  sort-Any P (x ∷ xs) = ground (arith, place-Any P x (sort xs), sort-Any P xs)

  place-Perm : (x : A) (ys : List A) → Perm (place x ys) (x ∷ ys)
  unfolding place
  place-Perm x [] = Perm.rfl
  place-Perm x (y ∷ ys) =
      elim (Bool-cases (before x y)) as (λ _. Perm (place x (y ∷ ys)) (x ∷ y ∷ ys)) [
        | inl e ↦ rw e Perm.rfl
        | inr e ↦ rw e (Perm.trans (Perm.cons y (place-Perm x ys)) (Perm.swap x y ys))
      ]

  pub sort-Perm : (xs : List A) → Perm (sort xs) xs
  unfolding sort
  sort-Perm [] = Perm.rfl
  sort-Perm (x ∷ xs) = Perm.trans (place-Perm x (sort xs)) (Perm.cons x (sort-Perm xs))

  place-All : (P : A → Type 0) (x : A) (ys : List A) → P x → All P ys → All P (place x ys)
  unfolding place
  place-All P x [] p h = (p, h)
  place-All P x (y ∷ ys) p h = ground (arith, place-All P x ys p h.1)

  module _ (total : (a b : A) → before a b ≡ false → before b a ≡ true)
      (trans : (a b c : A) → before a b ≡ true → before b c ≡ true → before a c ≡ true) where
    place-IsSorted : (x : A) (ys : List A) → IsSorted ys → IsSorted (place x ys)
    unfolding place
    place-IsSorted x [] h = (tt, tt)
    place-IsSorted x (y ∷ ys) (h, s) =
        elim (Bool-cases (before x y)) as (λ _. IsSorted (place x (y ∷ ys))) [
          | inl e ↦ rw e (
            (
              e,
              All-imp (λ z. before y z ≡ true) (λ z. before x z ≡ true) ys (λ z. trans x y z e) h,
            ),
            (h, s),
          )
          | inr e ↦
              rw e (place-All (λ z. before y z ≡ true) x ys (total x y e) h, place-IsSorted x ys s)
        ]

    pub sort-IsSorted : (xs : List A) → IsSorted (sort xs)
    unfolding sort
    sort-IsSorted [] = tt
    sort-IsSorted (x ∷ xs) = place-IsSorted x (sort xs) (sort-IsSorted xs)
