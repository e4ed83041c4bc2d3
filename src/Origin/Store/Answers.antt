-- ===== src/Origin/Store/Answers.antt =====
-- pkg/origin/store.go: what the store holds under each test ID after each operation, against a
-- plain map of entries.
use mecone.Prelude.{
  ℕ, ◌+◌, ◌<◌, ◌≡◌, refl, inl, inr, Bool, ◌&&◌, Option, none, some, [], ◌∷◌, ◌++◌, Str, eq_str,
  eq_str_iff, Bool-cases, Option-cases, arith, ltb, if◌then◌else◌, length, get_elem?, length-append,
  get_elem?-append,
}
use mecone.Maps
use mecone.Maps.{Map, str_key, Unique}
use mecone.Protocol.{Script}
use mecone.Origin.Store.{Store, Entry, since, expired, sweep, maybe_sweep, put, remove, fresh}

-- The entry that the store holds under an ID.
abbrev pub view : Store → Str → Option Entry
view s id = elim (Maps.lookup id s.tests) [ none ↦ none | some ref ↦ get_elem? s.heap ref ]

-- Every address in the map is one of the heap's, and no ID stands twice.
pub record IsValid (s : Store) : Type 0 where
  pub unique : Unique s.tests
  pub in_heap : (id : Str) (ref : ℕ) → Maps.lookup id s.tests ≡ some ref → ref < length s.heap

lookup-sweep :
    (s : Store) (now : ℕ) (id : Str) (tests : Map Str ℕ)
    → Unique tests
    → Maps.lookup id (sweep s now tests) ≡ elim (Maps.lookup id tests) [
      | none ↦ none
      | some ref ↦ (if expired s now ref then none else some ref)
    ]
unfolding sweep Maps.lookup
lookup-sweep s now id [] h = refl
lookup-sweep s now id ((j, ref) ∷ tests) (n, h) =
    ground (arith, lookup-sweep s now id tests h, eq_str_iff j id)

sweep-Unique : (s : Store) (now : ℕ) (tests : Map Str ℕ) → Unique tests → Unique (sweep s now tests)
unfolding sweep
sweep-Unique s now [] h = tt
sweep-Unique s now ((j, ref) ∷ tests) (n, h) =
    ground (arith, sweep-Unique s now tests h, lookup-sweep s now j tests h)

maybe_sweep-IsValid : (s : Store) (now : ℕ) → IsValid s → IsValid (maybe_sweep s now)
unfolding maybe_sweep
maybe_sweep-IsValid s now v = elim (Bool-cases (ltb s.ttl (since now s.last_sweep))) [
  | inr still ↦ rw still v
  | inl due ↦ rw due (record {
    unique = sweep-Unique s now s.tests v.unique;
    in_heap = λ id ref h. ground (arith, lookup-sweep s now id s.tests v.unique, v.in_heap id ref);
  })
]

-- What a sweep leaves of an entry.
abbrev kept : Bool → ℕ → ℕ → Option Entry → Option Entry
kept due ttl now none = none
kept due ttl now (some e) = if due && ltb ttl (since now e.created) then none else some e

view-maybe_sweep :
    (s : Store) (now : ℕ) (id : Str)
    → IsValid s
    → view (maybe_sweep s now) id ≡ kept (ltb s.ttl (since now s.last_sweep)) s.ttl now (view s id)
unfolding maybe_sweep expired
view-maybe_sweep s now id v = elim (Option-cases (Maps.lookup id s.tests)) [
  | inl e ↦ ground (arith, lookup-sweep s now id s.tests v.unique)
  | inr (ref, e) ↦ ground (arith, lookup-sweep s now id s.tests v.unique)
]

pub put-IsValid :
    (id : Str) (sc : Script) (now : ℕ) (s : Store) → IsValid s → IsValid (put id sc now s)
unfolding put
put-IsValid id sc now s v =
    let s' = maybe_sweep s now in
    let v' = maybe_sweep-IsValid s now v in
    let grown : length (s'.heap ++ fresh sc now ∷ []) ≡ length s'.heap + 1 =
      omega (arith, length-append s'.heap (fresh sc now ∷ [])) in
    record {
      unique = Maps.insert-Unique id (length s'.heap) s'.tests v'.unique;
      in_heap = λ j ref h.
          ground
            (arith, Maps.lookup-insert id j (length s'.heap) s'.tests, v'.in_heap j ref, grown);
    }

-- After an upload to a valid store the ID stands for a fresh entry with an empty log. Every other ID stands for what
-- it did, unless a sweep was due and its entry had outlived the TTL, which drops it.
pub view-put :
    (id j : Str) (sc : Script) (now : ℕ) (s : Store)
    → IsValid s
    → view (put id sc now s) j ≡ (
        if eq_str id j
        then some (fresh sc now)
        else kept (ltb s.ttl (since now s.last_sweep)) s.ttl now (view s j))
unfolding put
view-put id j sc now s v =
    let s' = maybe_sweep s now in
    let v' = maybe_sweep-IsValid s now v in
    rw (← view-maybe_sweep s now j v) (elim (Option-cases (Maps.lookup j s'.tests)) [
      | inl e ↦ ground (
        arith,
        Maps.lookup-insert id j (length s'.heap) s'.tests,
        get_elem?-append s'.heap (fresh sc now) (length s'.heap),
      )
      | inr (ref, e) ↦ ground (
        arith,
        Maps.lookup-insert id j (length s'.heap) s'.tests,
        get_elem?-append s'.heap (fresh sc now) (length s'.heap),
        get_elem?-append s'.heap (fresh sc now) ref,
        v'.in_heap j ref,
      )
    ])

pub remove-IsValid : (id : Str) (s : Store) → IsValid s → IsValid (remove id s)
unfolding remove
remove-IsValid id s v = record {
  unique = Maps.delete-Unique id s.tests v.unique;
  in_heap = λ j ref h. ground (arith, Maps.lookup-delete id j s.tests, v.in_heap j ref);
}

-- After a removal the ID stands for nothing, and every other ID for what it did.
pub view-remove :
    (id j : Str) (s : Store) → view (remove id s) j ≡ (if eq_str id j then none else view s j)
unfolding remove
view-remove id j s = ground (arith, Maps.lookup-delete id j s.tests)

pub heap-maybe_sweep : (s : Store) (now : ℕ) → (maybe_sweep s now).heap ≡ s.heap
unfolding maybe_sweep
heap-maybe_sweep s now = ground arith
