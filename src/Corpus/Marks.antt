-- ===== src/Corpus/Marks.antt =====
-- pkg/corpus/corpus.go: what a test requires, as a graph on the IDs, and the IDs that a search has
-- not marked yet.
use mecone.Prelude.{
  ℕ, ◌+◌, ◌≤◌, ◌<◌, ◌≡◌, refl, inl, inr, Option, none, some, List, [], ◌∷◌, Str, eq_str, eq_str_iff,
  Bool-cases, arith, length, All, Any,
}
use mecone.Maps
use mecone.Maps.{Map, str_key}
use mecone.TestDef.{Decoded}

-- The element occurs in the list.
abbrev pub In : Str → List Str → Type 0
In x = Any (λ y. y ≡ x)

pub All-self : (P : Str → Type 0) (xs : List Str) → ((x : Str) → In x xs → P x) → All P xs
All-self P [] f = tt
All-self P (x ∷ xs) f = (f x (inl refl), All-self P xs (λ y m. f y (inr m)))

pub All-In : (P : Str → Type 0) (xs : List Str) (x : Str) → All P xs → In x xs → P x
All-In P [] x h m = absurd m
All-In P (y ∷ xs) x (p, h) (inl e) = rw (← e) p
All-In P (y ∷ xs) x (p, h) (inr m) = All-In P xs x h m

-- The test `a` requires the test `b`.
abbrev pub Edge : Map Str Decoded → Str → Str → Type 0
Edge by_id a b = (t : Decoded) × (Maps.lookup a by_id ≡ some t) × In b t.requires

-- Directly or through others.
pub data Chain (by_id : Map Str Decoded) : Str → Str → Type 0 where
  one : {a b : Str} → Edge by_id a b → Chain by_id a b
  more : {a b c : Str} → Chain by_id a b → Edge by_id b c → Chain by_id a c

-- A test, and everything that it requires, is known, and no chain of requirements goes on for ever.
pub data Grounded (by_id : Map Str Decoded) : Str → Type 0 where
  above :
      {id : Str} (t : Decoded)
      → Maps.lookup id by_id ≡ some t
      → ((dep : Str) → In dep t.requires → Grounded by_id dep)
      → Grounded by_id id

-- The IDs of a map of tests.
abbrev pub keys : Map Str Decoded → List Str
keys [] = []
keys ((id, t) ∷ m) = id ∷ keys m

pub In-keys :
    (by_id : Map Str Decoded) (id : Str) (t : Decoded)
    → Maps.lookup id by_id ≡ some t
    → In id (keys by_id)
unfolding Maps.lookup
In-keys [] id t e = absurd (cc)
In-keys ((j, u) ∷ m) id t e = elim (Bool-cases (eq_str j id)) [
  | inl same ↦ inl ((eq_str_iff j id).0 same)
  | inr other ↦ inr (In-keys m id t (ground arith))
]

module _ {V : Type 0} where
  abbrev bit : Option V → ℕ
  bit none = 1
  bit (some _) = 0

  -- How many of the IDs are not marked.
  abbrev pub unmarked : Map Str V → List Str → ℕ
  unmarked st [] = 0
  unmarked st (k ∷ ks) = bit (Maps.lookup k st) + unmarked st ks

  -- A mark stays, whatever becomes of it.
  abbrev pub Keeps : Map Str V → Map Str V → Type 0
  Keeps st st' = (id : Str) → Maps.lookup id st' ≡ none → Maps.lookup id st ≡ none

  pub unmarked-le :
      (st st' : Map Str V) (ks : List Str) → Keeps st st' → unmarked st' ks ≤ unmarked st ks
  unmarked-le st st' [] h = omega arith
  unmarked-le st st' (k ∷ ks) h = ground (arith, h k, unmarked-le st st' ks h)

  pub Keeps-insert : (k : Str) (v : V) (st : Map Str V) → Keeps st (Maps.insert k v st)
  Keeps-insert k v st id e = ground (arith, Maps.lookup-insert k id v st)

  pub unmarked-lt :
      (k : Str) (v : V) (st : Map Str V) (ks : List Str)
      → In k ks
      → Maps.lookup k st ≡ none
      → unmarked (Maps.insert k v st) ks < unmarked st ks
  unmarked-lt k v st [] m e = absurd m
  unmarked-lt k v st (j ∷ ks) (inl same) e = ground (
    arith,
    same,
    Maps.lookup-insert k j v st,
    eq_str_iff k j,
    unmarked-le st (Maps.insert k v st) ks (Keeps-insert k v st),
  )
  unmarked-lt k v st (j ∷ ks) (inr m) e =
      ground (arith, Keeps-insert k v st j, unmarked-lt k v st ks m e)

  pub unmarked_le_length :
      (st : Map Str V) (by_id : Map Str Decoded) → unmarked st (keys by_id) ≤ length by_id
  unmarked_le_length st [] = omega arith
  unmarked_le_length st ((id, t) ∷ m) = ground (arith, unmarked_le_length st m)
