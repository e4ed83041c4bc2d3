-- ===== src/Proto/Lists.antt =====
-- pkg/proto/proto.go: theorems about `ParseList`.
use mecone.Prelude.{
  ◌≡◌, ◌≢◌, refl, true, false, List, [], ◌∷◌, ◌++◌, Str, eq_str, eq_str_iff, ok, Result-cases, inl,
  inr, All, All-append, arith, ◌||◌,
}
use mecone.Strings.{split}
use mecone.Proto.{all_protos, contains, parse, append_unique, parse_parts, parse_list}

-- No name stands twice.
abbrev pub Distinct : List Str → Type 0
Distinct [] = Unit
Distinct (p ∷ ps) = (contains ps p ≡ false) × Distinct ps

abbrev pub IsKnown : Str → Type 0
IsKnown p = contains all_protos p ≡ true

parse-IsKnown : (s p : Str) → parse s ≡ ok p → IsKnown p
unfolding parse
parse-IsKnown s p h = ground arith

contains-concat :
    (ps : List Str) (q p : Str) → contains (ps ++ q ∷ []) p ≡ (contains ps p || eq_str q p)
unfolding contains
contains-concat [] q p = ground arith
contains-concat (x ∷ ps) q p = ground (arith, contains-concat ps q p)

Distinct-concat :
    (ps : List Str) (q : Str) → Distinct ps → contains ps q ≡ false → Distinct (ps ++ q ∷ [])
unfolding contains
Distinct-concat [] q h e = (refl, tt)
Distinct-concat (x ∷ ps) q (k, h) e = (
  ground (arith, contains-concat ps q x, eq_str_iff q x, eq_str_iff x q),
  Distinct-concat ps q h (ground arith),
)

append_unique-Distinct : (ps : List Str) (q : Str) → Distinct ps → Distinct (append_unique ps q)
unfolding append_unique
append_unique-Distinct ps q h = ground (arith, Distinct-concat ps q h)

append_unique-IsKnown :
    (ps : List Str) (q : Str) → All IsKnown ps → IsKnown q → All IsKnown (append_unique ps q)
unfolding append_unique
append_unique-IsKnown ps q h k = ground (arith, All-append IsKnown ps (q ∷ []) h (k, tt))

parse_parts-IsKnown :
    (out parts result : List Str)
    → All IsKnown out
    → Distinct out
    → parse_parts out parts ≡ ok result
    → All IsKnown result × Distinct result × (result ≢ [])
unfolding parse_parts
parse_parts-IsKnown [] [] result a d h = cc
parse_parts-IsKnown (p ∷ out) [] result a d h = ground arith
parse_parts-IsKnown out (part ∷ parts) result a d h = elim (Result-cases (parse part)) [
  | inl (p, e) ↦ ground (
    arith,
    parse_parts-IsKnown out parts result a d,
    parse_parts-IsKnown (append_unique out p) parts result
        (append_unique-IsKnown out p a (parse-IsKnown part p e)) (append_unique-Distinct out p d),
  )
  | inr (x, e) ↦ ground (arith, parse_parts-IsKnown out parts result a d)
]

-- A list that parses is not empty, and holds only protocols that the program knows, each once.
pub parse_list-IsKnown :
    (s : Str) (result : List Str)
    → parse_list s ≡ ok result
    → All IsKnown result × Distinct result × (result ≢ [])
unfolding parse_list
parse_list-IsKnown s result h = parse_parts-IsKnown [] (split b',' s) result tt tt h
