-- ===== src/Corpus/Loaded.antt =====
-- pkg/corpus/corpus.go: what is in a corpus to which suites were added.
use mecone.Prelude.{
  ℕ, ◌≡◌, ◌≢◌, sym, ap, ◌∙◌, inl, inr, not, Option, none, some, List, [], ◌∷◌, ◌++◌, Str, str,
  eq_str_iff, eq_str_refl, Bool-cases, Option-cases, arith, ◌==◌, if◌then◌else◌, length, get_elem?,
  list_cases, All, Any, eq_str, All-append, get_elem?-append, All-get_elem?, All-imp,
}
use mecone.Maps
use mecone.Maps.{Map, str_key}
use mecone.Protocol.Lines.{Times}
use mecone.TestDef.{Decoded, valid_id}
use mecone.TestDef.Validate.{validate}
use mecone.Check.{Patterns}
use mecone.Corpus.{
  Group, Suite, Corpus, CorpusError, bad_suite_id, check_group, placed, referenced, index_test,
  add_test, add_tests, add_group, add_groups, add,
}

Any_append :
    {A : Type 0} (xs : List A) (x y : A) → Any (λ w. w ≡ y) xs → Any (λ w. w ≡ y) (xs ++ x ∷ [])
Any_append [] x y m = absurd m
Any_append (z ∷ xs) x y (inl e) = inl e
Any_append (z ∷ xs) x y (inr m) = inr (Any_append xs x y m)

Any_last : {A : Type 0} (xs : List A) (x y : A) → x ≡ y → Any (λ w. w ≡ y) (xs ++ x ∷ [])
Any_last [] x y e = inl e
Any_last (z ∷ xs) x y e = inr (Any_last xs x y e)

module _ (times : Times) (patterns : Patterns) where
  -- Every test cites something and stands under its ID, and each ID is one test's.
  pub record IsLoaded (c : Corpus) : Type 0 where
    pub cited : All (λ t. t.refs ≢ []) c.tests
    pub indexed : All (λ t. Maps.lookup t.id c.by_id ≡ some t) c.tests
    pub distinct :
        (i j : ℕ) (t u : Decoded)
        → get_elem? c.tests i ≡ some t
        → get_elem? c.tests j ≡ some u
        → t.id ≡ u.id
        → i ≡ j
    pub named :
        (id : Str) (t : Decoded)
        → Maps.lookup id c.by_id ≡ some t
        → (t.id ≡ id) × Any (λ u. u ≡ t) c.tests

  -- A test of the corpus has another ID than one whose ID is not found.
  other_id :
      (t : Decoded) (c : Corpus) (i : ℕ) (u : Decoded)
      → IsLoaded c
      → Maps.lookup t.id c.by_id ≡ none
      → get_elem? c.tests i ≡ some u
      → u.id ≢ t.id
  other_id t c i u v e a same =
      let found = All-get_elem? (λ x. Maps.lookup x.id c.by_id ≡ some x) c.tests i u a v.indexed in
      cc

  index_test-distinct :
      (t : Decoded) (c : Corpus)
      → IsLoaded c
      → Maps.lookup t.id c.by_id ≡ none
      → (i j : ℕ) (u w : Decoded) → get_elem? (c.tests ++ t ∷ []) i ≡ some u
      → get_elem? (c.tests ++ t ∷ []) j ≡ some w
      → u.id ≡ w.id
      → i ≡ j
  index_test-distinct t c v e i j u w a b same =
      let at_i = sym (get_elem?-append c.tests t i) ∙ a in
      let at_j = sym (get_elem?-append c.tests t j) ∙ b in
      elim (Bool-cases (i == length c.tests)) [
        | inl p ↦ elim (Bool-cases (j == length c.tests)) [
          | inl q ↦ ground arith
          | inr q ↦
              let old : get_elem? c.tests j ≡ some w = ground arith in
              let new : some t ≡ some u = ground arith in
              let it : t ≡ u = cc in
              absurd (other_id t c j w v e old (sym same ∙ ap (λ x. x.id) (sym it)))
        ]
        | inr p ↦
            let old : get_elem? c.tests i ≡ some u = ground arith in
            elim (Bool-cases (j == length c.tests)) [
              | inl q ↦
                  let new : some t ≡ some w = ground arith in
                  let it : t ≡ w = cc in
                  absurd (other_id t c i u v e old (same ∙ ap (λ x. x.id) (sym it)))
              | inr q ↦ v.distinct i j u w old (ground arith) same
            ]
      ]

  index_test-named :
      (t : Decoded) (c : Corpus)
      → IsLoaded c
      → (id : Str) (u : Decoded) → Maps.lookup id (Maps.insert t.id t c.by_id) ≡ some u
      → (u.id ≡ id) × Any (λ w. w ≡ u) (c.tests ++ t ∷ [])
  index_test-named t c v id u k = elim (Bool-cases (eq_str t.id id)) [
    | inl same ↦
        let it : t ≡ u = ground (arith, Maps.lookup-insert t.id id t c.by_id) in
        (ap (λ x. x.id) (sym it) ∙ (eq_str_iff t.id id).0 same, Any_last c.tests t u it)
    | inr other ↦
        let (n, m) = v.named id u (ground (arith, Maps.lookup-insert t.id id t c.by_id)) in
        (n, Any_append c.tests t u m)
  ]

  pub index_test-IsLoaded :
      (at : Str) (t : Decoded) (c : Corpus)
      → t.refs ≢ []
      → IsLoaded c
      → IsLoaded (index_test times patterns at t c).0
  unfolding index_test
  index_test-IsLoaded at t c cites v = elim (Option-cases (Maps.lookup t.id c.by_id)) [
    | inr (prev, e) ↦ rw (e, index_test) v
    | inl e ↦
        rw (e, index_test)
          (record {
            cited = All-append _ c.tests (t ∷ []) v.cited (cites, tt);
            indexed =
                All-append _ c.tests (t ∷ [])
                  (All-imp _ _ c.tests
                    (λ x h.
                      ground (arith, Maps.lookup-insert t.id x.id t c.by_id, eq_str_iff t.id x.id))
                    v.indexed)
                  (ground (arith, Maps.lookup-insert t.id t.id t c.by_id, eq_str_refl t.id), tt);
            distinct = λ i j u w a b same. index_test-distinct t c v e i j u w a b same;
            named = λ id u k. index_test-named t c v id u k;
          })
  ]

  add_test-IsLoaded :
      (at : Str) (s : Suite) (g : Group) (t : Option Decoded) (c : Corpus)
      → IsLoaded c
      → IsLoaded (add_test times patterns at s g t c).0
  unfolding add_test
  add_test-IsLoaded at s g none c v = v
  add_test-IsLoaded at s g (some t) c v =
      let t' = referenced times patterns g (placed times patterns s g t) in
      elim (list_cases (validate times patterns (placed times patterns s g t))) [
        | inr (p, ps, e) ↦ rw (e, add_test) v
        | inl e ↦ elim (list_cases t'.refs) [
          | inl n ↦ rw (e, add_test, n) v
          | inr (r, rs, n) ↦
              let cites : t'.refs ≢ [] = λ m. cc in
              rw (e, add_test, n) (index_test-IsLoaded at t' c cites v)
        ]
      ]

  add_tests-IsLoaded :
      (at : Str) (s : Suite) (g : Group) (tests : List (Option Decoded)) (c : Corpus)
      (errs : List CorpusError)
      → IsLoaded c
      → IsLoaded (add_tests times patterns at s g tests (c, errs)).0
  unfolding add_tests
  add_tests-IsLoaded at s g [] c errs v = v
  add_tests-IsLoaded at s g (t ∷ tests) c errs v =
      let (c', more) = add_test times patterns at s g t c in
      add_tests-IsLoaded at s g tests c' (errs ++ more) (add_test-IsLoaded at s g t c v)

  add_groups-IsLoaded :
      (s : Suite) (groups : List Group) (c : Corpus) (errs : List CorpusError)
      → IsLoaded c
      → IsLoaded (add_groups times patterns s groups (c, errs)).0
  unfolding add_groups add_group
  add_groups-IsLoaded s [] c errs v = v
  add_groups-IsLoaded s (g ∷ groups) c errs v =
      let (c', more) = add_group times patterns s g c in
      add_groups-IsLoaded s groups c' (errs ++ more) (
        add_tests-IsLoaded (s.id ++ (str "/" ++ g.id)) s g g.tests c
          (check_group (s.id ++ (str "/" ++ g.id)) g) v)

  -- Adding a suite keeps the corpus in order: whatever its files hold, every test of the corpus cites
  -- something and is found under its ID, and no two tests have the same ID.
  pub add-IsLoaded : (s : Suite) (c : Corpus) → IsLoaded c → IsLoaded (add times patterns s c).0
  unfolding add
  add-IsLoaded s c v =
      let w =
        add_groups-IsLoaded s s.groups c
          (if not (valid_id s.id) then bad_suite_id s.id ∷ [] else []) v in
      record { cited = w.cited; indexed = w.indexed; distinct = w.distinct; named = w.named }
