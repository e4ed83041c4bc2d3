-- ===== src/Corpus/Requires/Cycles.antt =====
-- pkg/corpus/corpus.go: theorems about which corpora `checkRequires` accepts.
use mecone.Prelude.{
  ◌+◌, ◌<◌, ◌≡◌, ◌≢◌, refl, ◌↔◌, ◌⊎◌, inl, inr, none, some, List, [], ◌∷◌, Str, Result-cases,
  Option-cases, arith, length, All, append_eq_nil, All-Any, list_cases,
}
use mecone.Maps
use mecone.Maps.{Map, str_key}
use mecone.TestDef.{Decoded}
use mecone.Corpus.{
  Corpus, CorpusError, bad_suite_id, bad_group_id, no_group_title, empty_test, bad_group_ref,
  invalid_test, no_refs, already_used, unknown_required, in_cycle, nil_test, exhausted,
  unknown_requires, unknown_deps,
}
use mecone.Corpus.Marks.{
  In, All-self, Edge, Chain, one, more, Grounded, above, keys, unmarked, unmarked_le_length,
}
use mecone.Corpus.Requires.{visiting, States, visit, visit_all, check_requires}
use mecone.Corpus.Requires.Search.{AllGrounded, Failure, visit-Moves, visit-Grounded, visit-Failure}
use mecone.Corpus.Loaded.{IsLoaded}
use mecone.Protocol.Lines.{Times}
use mecone.Check.{Patterns}

module _ (by_id : Map Str Decoded) where
  pub Grounded-Edge : {a b : Str} → Grounded by_id a → Edge by_id a b → Grounded by_id b
  Grounded-Edge (above t k deps) (u, l, m) = let same : t ≡ u = cc in deps _ (rw same m)

  -- A chain of requirements begins with one.
  first-Edge :
      {a b : Str} → Chain by_id a b → (d : Str) × Edge by_id a d × ((d ≡ b) ⊎ Chain by_id d b)
  first-Edge {b} (one e) = (b, e, inl refl)
  first-Edge (more p e) =
      let (d, f, rest) = first-Edge p in
      elim rest [ inl same ↦ (d, f, inr (one (rw same e))) | inr q ↦ (d, f, inr (more q e)) ]

  pub Grounded-known : {a : Str} → Grounded by_id a → Maps.lookup a by_id ≢ none
  Grounded-known (above t k deps) n = cc

  -- A grounded test is on no cycle.
  not-Chain : {a : Str} → Grounded by_id a → ¬ Chain by_id a a
  not-Chain {a} (above t k deps) p =
      let (d, (u, l, m), q) = first-Edge p in
      let same : t ≡ u = cc in
      let below : In d t.requires = rw same m in
      elim q [
        | inl loop ↦ not-Chain (deps d below) (rw loop p)
        | inr rest ↦ not-Chain (deps d below) (more rest (u, l, m))
      ]

  unknown_deps_iff :
      (id : Str) (deps : List Str)
      → (unknown_deps by_id id deps ≡ []) ↔ All (λ d. Maps.lookup d by_id ≢ none) deps
  unfolding unknown_deps
  unknown_deps_iff id [] = (λ _. tt, λ _. refl)
  unknown_deps_iff id (d ∷ deps) = elim (Option-cases (Maps.lookup d by_id)) [
    | inl n ↦ (λ h. absurd (ground arith), λ h. absurd (h.0 n))
    | inr (t, k) ↦
        let rest = unknown_deps_iff id deps in
        (λ h. (λ n. cc, rest.0 (ground arith)), λ h. ground (arith, rest.1 h.1))
  ]

  unknown_requires_iff :
      (tests : List Decoded)
      → (unknown_requires by_id tests ≡ [])
        ↔ All (λ t. All (λ d. Maps.lookup d by_id ≢ none) t.requires) tests
  unfolding unknown_requires
  unknown_requires_iff [] = (λ _. tt, λ _. refl)
  unknown_requires_iff (t ∷ tests) =
      let split =
        append_eq_nil (unknown_deps by_id t.id t.requires) (unknown_requires by_id tests) in
      let here = unknown_deps_iff t.id t.requires in
      let rest = unknown_requires_iff tests in
      (λ h. (here.0 (split.0 h).0, rest.0 (split.0 h).1), λ (a, b). split.1 (here.1 a, rest.1 b))

  -- The errors of the search say that a test which can be found is not grounded.
  Failure-absurd :
      (named : (id : Str) (t : Decoded) → Maps.lookup id by_id ≡ some t → t.id ≡ id)
      → ((id : Str) (t : Decoded) → Maps.lookup id by_id ≡ some t → Grounded by_id id)
      → (e : CorpusError) → ¬ Failure by_id named e
  Failure-absurd named known (in_cycle id) p =
      let (d, (t, k, m), q) = first-Edge p in not-Chain (known id t k) p
  Failure-absurd named known nil_test (a, b, (t, k, m), n) =
      Grounded-known (Grounded-Edge (known a t k) (t, k, m)) n
  Failure-absurd named known (bad_suite_id at) p = p
  Failure-absurd named known (bad_group_id at) p = p
  Failure-absurd named known (no_group_title at) p = p
  Failure-absurd named known (empty_test at) p = p
  Failure-absurd named known (bad_group_ref at ref) p = p
  Failure-absurd named known (invalid_test at ps) p = p
  Failure-absurd named known (no_refs id at) p = p
  Failure-absurd named known (already_used id at) p = p
  Failure-absurd named known (unknown_required id at) p = p
  Failure-absurd named known exhausted p = p

  module _ (named : (id : Str) (t : Decoded) → Maps.lookup id by_id ≡ some t → t.id ≡ id) where
    visit_all-Grounded :
        (tests : List Decoded) (st : States)
        → All (λ t. Maps.lookup t.id by_id ≡ some t) tests
        → AllGrounded by_id st
        → visit_all by_id tests st ≡ []
        → All (λ t. Grounded by_id t.id) tests
    unfolding visit_all
    visit_all-Grounded [] st k a h = tt
    visit_all-Grounded (t ∷ tests) st (k, ks) a h =
        elim (Result-cases (visit by_id (length by_id + 1) t st)) [
          | inr (e, g) ↦ absurd (ground arith)
          | inl (mid, g) ↦
              let (a', seen) = visit-Grounded by_id named (length by_id + 1) t st mid k a g in
              (a' t.id seen, visit_all-Grounded tests mid ks a' (ground arith))
        ]

    visit_all_eq_nil :
        ((id : Str) (t : Decoded) → Maps.lookup id by_id ≡ some t → Grounded by_id id)
        → (tests : List Decoded) (st : States) → All (λ t. Maps.lookup t.id by_id ≡ some t) tests
        → ((id : Str) → Maps.lookup id st ≢ some visiting)
        → visit_all by_id tests st ≡ []
    unfolding visit_all
    visit_all_eq_nil known [] st k idle = refl
    visit_all_eq_nil known (t ∷ tests) st (k, ks) idle =
        elim (Result-cases (visit by_id (length by_id + 1) t st)) [
          | inl (mid, g) ↦
              let moves = visit-Moves by_id (length by_id + 1) t st mid g in
              let rest = visit_all_eq_nil known tests mid ks (λ id v. idle id ((moves id).1.1 v)) in
              ground arith
          | inr (e, g) ↦
              let few = unmarked_le_length st by_id in
              let small : unmarked st (keys by_id) < length by_id + 1 = omega arith in
              absurd (
                Failure-absurd named known e (
                  visit-Failure by_id named (length by_id + 1) t st e k small
                    (λ id v. absurd (idle id v)) g))
        ]

  -- A grounded test requires only what is known.
  Grounded-requires :
      (t : Decoded)
      → Maps.lookup t.id by_id ≡ some t
      → Grounded by_id t.id
      → All (λ d. Maps.lookup d by_id ≢ none) t.requires
  Grounded-requires t k g =
      All-self (λ d. Maps.lookup d by_id ≢ none) t.requires
        (λ d m. Grounded-known (Grounded-Edge g (t, k, m)))

  Grounded-requires_all :
      (tests : List Decoded)
      → All (λ t. Maps.lookup t.id by_id ≡ some t) tests
      → All (λ t. Grounded by_id t.id) tests
      → All (λ t. All (λ d. Maps.lookup d by_id ≢ none) t.requires) tests
  Grounded-requires_all [] k g = tt
  Grounded-requires_all (t ∷ tests) (k, ks) (g, gs) =
      (Grounded-requires t k g, Grounded-requires_all tests ks gs)

-- A loaded corpus is accepted exactly if each of its tests is grounded: everything that it requires,
-- directly or through others, is a test of the corpus, and no chain of requirements comes back to a
-- test it went through.
module _ (times : Times) (patterns : Patterns) where
  pub check_requires_iff :
      (c : Corpus)
      → IsLoaded times patterns c
      → (check_requires c ≡ []) ↔ All (λ t. Grounded c.by_id t.id) c.tests
  unfolding check_requires Maps.lookup
  check_requires_iff c v =
      let named : (id : Str) (t : Decoded) → Maps.lookup id c.by_id ≡ some t → t.id ≡ id =
        λ id t k. (v.named id t k).0 in
      elim (list_cases (unknown_requires c.by_id c.tests)) [
        | inl none_unknown ↦
            rw (none_unknown, check_requires)
              (
                λ h. visit_all-Grounded c.by_id named c.tests [] v.indexed (λ id q. absurd (cc)) h,
                λ g.
                    visit_all_eq_nil c.by_id named
                      (λ id t k.
                        rw (← named id t k)
                          (All-Any (λ u. Grounded c.by_id u.id) c.tests t g (v.named id t k).1))
                      c.tests [] v.indexed (λ id q. cc),
              )
        | inr (e, es, u) ↦ (
          λ h. absurd (ground arith),
          λ g. absurd (
              let n =
                (unknown_requires_iff c.by_id c.tests).1
                  (Grounded-requires_all c.by_id c.tests v.indexed g) in
              cc),
        )
      ]
