-- ===== src/Prelude/Lists.antt =====
-- Lists measured and indexed by native numbers, and predicates on their elements.
use Prim.Native.Nat.{ℕ, zero, suc, ◌+◌, ◌<◌}
use mathlib.Core.Path.{◌≡◌, refl, ap}
use mathlib.Core.Logic.{◌⊎◌, inl, inr, ◌↔◌}
use mathlib.Core.Bool.{Bool, true, false, ◌&&◌, ◌||◌}
use mathlib.Core.List.{List, [], ◌∷◌, ◌++◌}
use mathlib.Core.Option.{Option, none, some}
use native.Mathlib.Omega.{arith}
use mecone.Prelude.Tests.{◌==◌, if◌then◌else◌}

module _ {ℓ} {A : Type ℓ} where
  abbrev pub length : List A → ℕ
  length [] = 0
  length (x ∷ xs) = suc (length xs)

  abbrev pub get_elem? : List A → ℕ → Option A
  get_elem? [] i = none
  get_elem? (x ∷ xs) zero = some x
  get_elem? (x ∷ xs) (suc i) = get_elem? xs i

  abbrev pub all : (A → Bool) → List A → Bool
  all p [] = true
  all p (x ∷ xs) = p x && all p xs

  abbrev pub any : (A → Bool) → List A → Bool
  any p [] = false
  any p (x ∷ xs) = p x || any p xs

  abbrev pub filter : (A → Bool) → List A → List A
  filter p [] = []
  filter p (x ∷ xs) = let rest = filter p xs in if p x then x ∷ rest else rest

  pub list_cases : (xs : List A) → (xs ≡ []) ⊎ ((x : A) × (ys : List A) × (xs ≡ x ∷ ys))
  list_cases [] = inl refl
  list_cases (x ∷ xs) = inr (x, xs, refl)

  pub length-append : (xs ys : List A) → length (xs ++ ys) ≡ length xs + length ys
  length-append [] ys = omega arith
  length-append (x ∷ xs) ys = omega (arith, length-append xs ys)

module _ {ℓ} {A : Type ℓ} (P : A → Type 0) where
  abbrev pub All : List A → Type 0
  All [] = Unit
  All (x ∷ xs) = P x × All xs

  -- Some element satisfies `P`.
  abbrev pub Any : List A → Type 0
  Any [] = ⊥
  Any (x ∷ xs) = P x ⊎ Any xs

  pub All-append : (xs ys : List A) → All xs → All ys → All (xs ++ ys)
  All-append [] ys h k = k
  All-append (x ∷ xs) ys (p, h) k = (p, All-append xs ys h k)

module _ {ℓ} {A : Type ℓ} where
  pub append_eq_nil : (xs ys : List A) → (xs ++ ys ≡ []) ↔ ((xs ≡ []) × (ys ≡ []))
  append_eq_nil [] ys = (λ h. (refl, h), λ h. h.1)
  append_eq_nil (x ∷ xs) ys = (λ h. absurd (cc), λ h. absurd (cc))

module _ {ℓ} {A : Type ℓ} where
  -- A write out of bounds changes nothing.
  abbrev pub set : List A → ℕ → A → List A
  set [] i v = []
  set (x ∷ xs) zero v = v ∷ xs
  set (x ∷ xs) (suc i) v = x ∷ set xs i v

  pub length-set : (xs : List A) (i : ℕ) (v : A) → length (set xs i v) ≡ length xs
  length-set [] i v = refl
  length-set (x ∷ xs) zero v = refl
  length-set (x ∷ xs) (suc i) v = ap suc (length-set xs i v)

  pub get_elem?-set :
      (xs : List A) (i j : ℕ) (v : A)
      → i < length xs
      → get_elem? (set xs i v) j ≡ (if i == j then some v else get_elem? xs j)
  get_elem?-set [] i j v h = absurd (omega arith)
  get_elem?-set (x ∷ xs) zero zero v h = ground arith
  get_elem?-set (x ∷ xs) zero (suc j) v h = ground arith
  get_elem?-set (x ∷ xs) (suc i) zero v h = ground arith
  get_elem?-set (x ∷ xs) (suc i) (suc j) v h = ground (arith, get_elem?-set xs i j v)

  pub get_elem?-append :
      (xs : List A) (v : A) (j : ℕ)
      → get_elem? (xs ++ v ∷ []) j ≡ (if j == length xs then some v else get_elem? xs j)
  get_elem?-append [] v zero = ground arith
  get_elem?-append [] v (suc j) = ground arith
  get_elem?-append (x ∷ xs) v zero = ground arith
  get_elem?-append (x ∷ xs) v (suc j) = ground (arith, get_elem?-append xs v j)

  pub get_elem?-lt : (xs : List A) (i : ℕ) (v : A) → get_elem? xs i ≡ some v → i < length xs
  get_elem?-lt [] i v h = absurd (cc)
  get_elem?-lt (x ∷ xs) zero v h = omega arith
  get_elem?-lt (x ∷ xs) (suc i) v h = omega (arith, get_elem?-lt xs i v h)

module _ {ℓ} {A : Type ℓ} (P : A → Type 0) where
  pub All-set : (xs : List A) (i : ℕ) (v : A) → All P xs → P v → All P (set xs i v)
  All-set [] i v h p = tt
  All-set (x ∷ xs) zero v h p = (p, h.1)
  All-set (x ∷ xs) (suc i) v h p = (h.0, All-set xs i v h.1 p)

  pub All-get_elem? : (xs : List A) (i : ℕ) (v : A) → get_elem? xs i ≡ some v → All P xs → P v
  All-get_elem? [] i v e h = absurd (cc)
  All-get_elem? (x ∷ xs) zero v e h = let same : x ≡ v = cc in rw same at (h.0)
  All-get_elem? (x ∷ xs) (suc i) v e h = All-get_elem? xs i v e h.1

module _ {ℓ} {A : Type ℓ} (P Q : A → Type 0) where
  pub All-imp : (xs : List A) → ((x : A) → P x → Q x) → All P xs → All Q xs
  All-imp [] f h = tt
  All-imp (x ∷ xs) f h = (f x h.0, All-imp xs f h.1)

module _ {A : Type 0} (P : A → Type 0) where
  pub All-Any : (xs : List A) (x : A) → All P xs → Any (λ y. y ≡ x) xs → P x
  All-Any [] x h m = absurd m
  All-Any (y ∷ xs) x (p, h) (inl e) = rw (← e) p
  All-Any (y ∷ xs) x (p, h) (inr m) = All-Any xs x h m

  pub All-members : (xs : List A) → ((x : A) → Any (λ y. y ≡ x) xs → P x) → All P xs
  All-members [] f = tt
  All-members (x ∷ xs) f = (f x (inl refl), All-members xs (λ y m. f y (inr m)))

module _ {ℓ} {A : Type ℓ} where
  pub get_elem?_of_lt : (xs : List A) (i : ℕ) → i < length xs → (v : A) × (get_elem? xs i ≡ some v)
  get_elem?_of_lt [] i h = absurd (omega arith)
  get_elem?_of_lt (x ∷ xs) zero h = (x, refl)
  get_elem?_of_lt (x ∷ xs) (suc i) h = get_elem?_of_lt xs i (omega arith)
