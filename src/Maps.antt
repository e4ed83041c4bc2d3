-- ===== src/Maps.antt =====
-- Go maps as association lists, first entry first. A key type is an instance of `Key`.
use mecone.Prelude.{
  ◌≡◌, refl, Bool, true, ◌↔◌, Option, none, some, List, [], ◌∷◌, Str, eq_str, eq_str_iff, ℤ, eq_ℤ,
  eq_ℤ_iff, arith, if◌then◌else◌,
}

pub record Key (K : Type 0) : Type 0 where
  pub beq : K → K → Bool
  pub beq_iff : (a b : K) → (beq a b ≡ true) ↔ (a ≡ b)

instance abbrev pub str_key : Key Str
str_key = record { beq = eq_str; beq_iff = eq_str_iff }

instance abbrev pub int_key : Key ℤ
int_key = record { beq = eq_ℤ; beq_iff = eq_ℤ_iff }

abbrev pub Map : Type 0 → Type 0 → Type 0
Map K V = List (K × V)

module _ {K V : Type 0} ⦃e : Key K⦄ where
  -- v, ok := m[k]
  unfoldable pub lookup : K → Map K V → Option V
  lookup k [] = none
  lookup k ((j, v) ∷ m) = if e.beq j k then some v else lookup k m

  -- m[k] = v
  unfoldable pub insert : K → V → Map K V → Map K V
  insert k v [] = (k, v) ∷ []
  insert k v ((j, w) ∷ m) = if e.beq j k then (k, v) ∷ m else (j, w) ∷ insert k v m

  -- delete(m, k)
  unfoldable pub delete : K → Map K V → Map K V
  delete k [] = []
  delete k ((j, w) ∷ m) = if e.beq j k then delete k m else (j, w) ∷ delete k m

  pub lookup-insert :
      (k j : K) (v : V) (m : Map K V)
      → lookup j (insert k v m) ≡ (if e.beq k j then some v else lookup j m)
  unfolding lookup insert
  lookup-insert k j v [] = refl
  lookup-insert k j v ((i, w) ∷ m) =
      ground (arith, e.beq_iff k j, e.beq_iff i k, e.beq_iff i j, lookup-insert k j v m)

  pub lookup-delete :
      (k j : K) (m : Map K V) → lookup j (delete k m) ≡ (if e.beq k j then none else lookup j m)
  unfolding lookup delete
  lookup-delete k j [] = ground arith
  lookup-delete k j ((i, w) ∷ m) =
      ground (arith, e.beq_iff k j, e.beq_iff i k, e.beq_iff i j, lookup-delete k j m)

module _ {K V : Type 0} ⦃e : Key K⦄ where
  -- No key stands twice, as in a Go map.
  abbrev pub Unique : Map K V → Type 0
  Unique [] = Unit
  Unique ((k, v) ∷ m) = (lookup k m ≡ none) × Unique m

  pub insert-Unique : (k : K) (v : V) (m : Map K V) → Unique m → Unique (insert k v m)
  unfolding lookup insert
  insert-Unique k v [] h = (refl, tt)
  insert-Unique k v ((j, w) ∷ m) (n, h) =
      ground (arith, insert-Unique k v m h, lookup-insert k j v m, e.beq_iff k j, e.beq_iff j k)

  pub delete-Unique : (k : K) (m : Map K V) → Unique m → Unique (delete k m)
  unfolding lookup delete
  delete-Unique k [] h = tt
  delete-Unique k ((j, w) ∷ m) (n, h) = ground (arith, delete-Unique k m h, lookup-delete k j m)
