-- ===== src/Corpus/Selection/Closure.antt =====
-- pkg/corpus/corpus.go: theorems about `Select` and the closure of what tests require.
use mecone.Prelude.{
  ℕ, zero, suc, ◌+◌, ◌<◌, ◌≡◌, ◌≢◌, refl, sym, ap, ◌∙◌, ◌↔◌, inl, inr, Bool, true, false, Option,
  none, some, List, [], ◌∷◌, Str, eq_str, eq_str_iff, eq_str_refl, Result, ok, Bool-cases,
  Option-cases, arith, if◌then◌else◌, length, All, Any, filter, All-Any, All-members,
}
use mecone.Maps
use mecone.Maps.{Map, str_key}
use mecone.TestDef.{Decoded}
use mecone.Protocol.Lines.{Times}
use mecone.Check.{Patterns}
use mecone.Corpus.{Corpus, Filter, matches}
use mecone.Corpus.Loaded.{IsLoaded}
use mecone.Corpus.Requires.{check_requires}
use mecone.Corpus.Requires.Cycles.{check_requires_iff, Grounded-known, Grounded-Edge}
use mecone.Corpus.Marks.{
  All-self, All-In, Edge, Grounded, keys, In-keys, unmarked, Keeps, unmarked-le, Keeps-insert,
  unmarked-lt, unmarked_le_length,
}
use mecone.Corpus.Selection.{
  SelectError, Chosen, include_deps, include, choose_from, choose, check_filter, kept, unless_empty,
  select,
}

abbrev Has : Chosen → Str → Type 0
Has chosen id = Maps.lookup id chosen ≢ none

-- The IDs of the tests that match.
abbrev matching : (Str → Str → Option Bool) → Filter → List Decoded → List Str
matching path_match f [] = []
matching path_match f (t ∷ ts) =
    let rest = matching path_match f ts in if matches path_match f t then t.id ∷ rest else rest

module _ (path_match : Str → Str → Option Bool) (by_id : Map Str Decoded) (f : Filter) where
  -- A test that matches the filter, or that a needed test requires.
  pub data Needed (tests : List Decoded) : Str → Type 0 where
    asked :
        (t : Decoded) → Any (λ u. u ≡ t) tests → matches path_match f t ≡ true → Needed tests t.id
    required : {a b : Str} → Needed tests a → Edge by_id a b → Needed tests b

  lookup_own : (id : Str) (ch : Chosen) → Maps.lookup id (Maps.insert id tt ch) ≡ some tt
  lookup_own id ch = ground (arith, Maps.lookup-insert id id tt ch, eq_str_refl id)

  lookup_other :
      (id j : Str) (ch : Chosen)
      → eq_str id j ≡ false
      → Maps.lookup j (Maps.insert id tt ch) ≡ Maps.lookup j ch
  lookup_other id j ch e = ground (arith, Maps.lookup-insert id j tt ch)

  module _ (tests : List Decoded) where
    -- What including tests with these IDs does to the set: what it adds is needed, and brings what it
    -- requires.
    record Includes (ids : List Str) (chosen chosen' : Chosen) : Type 0 where
      grows : Keeps chosen chosen'
      rooted : All (Has chosen') ids
      closed :
          (a b : Str) → Maps.lookup a chosen ≡ none → Has chosen' a → Edge by_id a b → Has chosen' b
      sound : (id : Str) → Maps.lookup id chosen ≡ none → Has chosen' id → Needed tests id

    Keeps-Has : (ch ch' : Chosen) (id : Str) → Keeps ch ch' → Has ch id → Has ch' id
    Keeps-Has ch ch' id k h n = h (k id n)

    Includes-nil : (ch : Chosen) → Includes [] ch ch
    Includes-nil ch = record {
      grows = λ id n. n;
      rooted = tt;
      closed = λ a b n h e. absurd (h n);
      sound = λ id n h. absurd (h n);
    }

    Includes-cons :
        (id : Str) (ids : List Str) (ch mid ch' : Chosen)
        → Includes (id ∷ []) ch mid
        → Includes ids mid ch'
        → Includes (id ∷ ids) ch ch'
    Includes-cons id ids ch mid ch' p q = record {
      grows = λ k n. p.grows k (q.grows k n);
      rooted = (Keeps-Has mid ch' id q.grows p.rooted.0, q.rooted);
      closed = λ a b n h e. elim (Option-cases (Maps.lookup a mid)) [
        | inl m ↦ q.closed a b m h e
        | inr (u, s) ↦ Keeps-Has mid ch' b q.grows (p.closed a b n (λ m. cc) e)
      ];
      sound = λ k n h. elim (Option-cases (Maps.lookup k mid)) [
        | inl m ↦ q.sound k m h
        | inr (u, s) ↦ p.sound k n (λ m. cc)
      ];
    }

    -- A test that is marked before what it requires is included.
    Includes-above :
        (t : Decoded) (ch ch' : Chosen)
        → Maps.lookup t.id by_id ≡ some t
        → Maps.lookup t.id ch ≡ none
        → Needed tests t.id
        → Includes t.requires (Maps.insert t.id tt ch) ch'
        → Includes (t.id ∷ []) ch ch'
    Includes-above t ch ch' k n need p = record {
      grows = λ id m. Keeps-insert t.id tt ch id (p.grows id m);
      rooted = (λ m. let q = p.grows t.id m in let own = lookup_own t.id ch in cc, tt);
      closed = λ a b m h (u, l, i). elim (Bool-cases (eq_str t.id a)) [
        | inl same ↦
            let it : t.id ≡ a = (eq_str_iff t.id a).0 same in
            let un : some t ≡ some u = sym k ∙ (ap (λ d. Maps.lookup d by_id) it ∙ l) in
            let u' : t ≡ u = cc in All-In (Has ch') t.requires b p.rooted (rw u' i)
        | inr other ↦ p.closed a b (lookup_other t.id a ch other ∙ m) h (u, l, i)
      ];
      sound = λ id m h. elim (Bool-cases (eq_str t.id id)) [
        | inl same ↦ let it : t.id ≡ id = (eq_str_iff t.id id).0 same in rw (← it) need
        | inr other ↦ p.sound id (lookup_other t.id id ch other ∙ m) h
      ];
    }

    -- Each test stands under its ID, and requires tests that are known.
    module _ (named : (id : Str) (t : Decoded) → Maps.lookup id by_id ≡ some t → t.id ≡ id)
        (complete : (a b : Str) → Edge by_id a b → Maps.lookup b by_id ≢ none) where
      -- With fuel for the tests that are not marked yet, including tests succeeds.
      include_deps-Includes :
          (go : Decoded → Chosen → Result SelectError Chosen) (fuel : ℕ) (from : Str)
          → ((t : Decoded) (ch : Chosen)
              → Maps.lookup t.id by_id ≡ some t
              → unmarked ch (keys by_id) < fuel
              → Needed tests t.id
              → (ch' : Chosen) × (go t ch ≡ ok ch') × Includes (t.id ∷ []) ch ch')
          → (deps : List Str) (ch : Chosen) → All (Edge by_id from) deps
          → unmarked ch (keys by_id) < fuel
          → Needed tests from
          → (ch' : Chosen) × (include_deps go by_id deps ch ≡ ok ch') × Includes deps ch ch'
      unfolding include_deps
      include_deps-Includes go fuel from h [] ch edges small need = (ch, refl, Includes-nil ch)
      include_deps-Includes go fuel from h (d ∷ deps) ch (edge, edges) small need =
          elim (Option-cases (Maps.lookup d by_id)) [
            | inl n ↦ absurd (complete from d edge n)
            | inr (t, k) ↦
                let it = named d t k in
                let (mid, g, p) =
                  h t ch (ap (λ x. Maps.lookup x by_id) it ∙ k) small
                    (rw it (required need edge)) in
                let less = unmarked-le ch mid (keys by_id) p.grows in
                let (ch', g', q) =
                  include_deps-Includes go fuel from h deps mid edges (omega arith) need in
                (ch', ground arith, Includes-cons d deps ch mid ch' (rw (← it) p) q)
          ]

      include-Includes :
          (fuel : ℕ) (t : Decoded) (ch : Chosen)
          → Maps.lookup t.id by_id ≡ some t
          → unmarked ch (keys by_id) < fuel
          → Needed tests t.id
          → (ch' : Chosen) × (include by_id fuel t ch ≡ ok ch') × Includes (t.id ∷ []) ch ch'
      unfolding include
      include-Includes zero t ch k small need = absurd (omega arith)
      include-Includes (suc fuel) t ch k small need = elim (Option-cases (Maps.lookup t.id ch)) [
        | inr (u, s) ↦ (
          ch,
          ground arith,
          record {
            grows = λ id n. n;
            rooted = (λ n. cc, tt);
            closed = λ a b n h e. absurd (h n);
            sound = λ id n h. absurd (h n);
          },
        )
        | inl n ↦
            let less = unmarked-lt t.id tt ch (keys by_id) (In-keys by_id t.id t k) n in
            let (ch', g, p) =
              include_deps-Includes (include by_id fuel) fuel t.id (include-Includes fuel)
                t.requires (Maps.insert t.id tt ch)
                (All-self (Edge by_id t.id) t.requires (λ d m. (t, k, m))) (omega arith) need in
            (ch', ground arith, Includes-above t ch ch' k n need p)
      ]

      choose_from-Includes :
          (ts : List Decoded) (ch : Chosen)
          → All (λ t. Maps.lookup t.id by_id ≡ some t) ts
          → All (λ t. Any (λ u. u ≡ t) tests) ts
          → (ch' : Chosen) × (choose_from path_match by_id f ts ch ≡ ok ch')
            × Includes (matching path_match f ts) ch ch'
      unfolding choose_from
      choose_from-Includes [] ch k m = (ch, refl, Includes-nil ch)
      choose_from-Includes (t ∷ ts) ch (k, ks) (m, ms) =
          elim (Bool-cases (matches path_match f t)) [
            | inr other ↦
                let (ch', g, p) = choose_from-Includes ts ch ks ms in
                (ch', ground arith, rw (other, matching) p)
            | inl match ↦
                let few = unmarked_le_length ch by_id in
                let (mid, g, p) =
                  include-Includes (length by_id + 1) t ch k (omega arith) (asked t m match) in
                let (ch', g', q) = choose_from-Includes ts mid ks ms in
                (
                  ch',
                  ground arith,
                  rw (match, matching)
                      (Includes-cons t.id (matching path_match f ts) ch mid ch' p q),
                )
          ]

has : Chosen → Decoded → Bool
has chosen t = elim (Maps.lookup t.id chosen) [ some _ ↦ true | none ↦ false ]

kept-filter :
    (chosen : Chosen) (tests : List Decoded) → kept chosen tests ≡ filter (has chosen) tests
unfolding has
kept-filter chosen [] = refl
kept-filter chosen (t ∷ tests) = elim (Option-cases (Maps.lookup t.id chosen)) [
  | inl n ↦ ground (arith, kept-filter chosen tests)
  | inr (u, s) ↦ ground (arith, kept-filter chosen tests)
]

module _ (path_match : Str → Str → Option Bool) where
  All-if :
      (P : Str → Type 0) (b : Bool) (x : Str) (xs : List Str)
      → All P (if b then x ∷ xs else xs)
      → (b ≡ true → P x) × All P xs
  All-if P true x xs h = (λ _. h.0, h.1)
  All-if P false x xs h = (λ e. absurd (cc), h)

  matching-In :
      (f : Filter) (P : Str → Type 0) (ts : List Decoded) (t : Decoded)
      → All P (matching path_match f ts)
      → Any (λ u. u ≡ t) ts
      → matches path_match f t ≡ true
      → P t.id
  matching-In f P [] t h m e = absurd m
  matching-In f P (u ∷ ts) t h m e =
      let (p, h') = All-if P (matches path_match f u) u.id (matching path_match f ts) h in
      elim m [
        | inl same ↦ rw (← same) (p (ap (matches path_match f) same ∙ e))
        | inr m' ↦ matching-In f P ts t h' m' e
      ]

  has-Has : (ch : Chosen) (t : Decoded) → (has ch t ≡ true) ↔ Has ch t.id
  unfolding has
  has-Has ch t = elim (Option-cases (Maps.lookup t.id ch)) [
    | inl n ↦ (λ h. absurd (ground arith), λ h. absurd (h n))
    | inr (u, s) ↦ (λ h n. absurd (cc), λ h. ground arith)
  ]

  -- What the loop chose holds every needed test.
  Needed-Has :
      (by_id : Map Str Decoded) (f : Filter) (tests : List Decoded) (ch : Chosen)
      → Includes path_match by_id f tests (matching path_match f tests) [] ch
      → {id : Str} → Needed path_match by_id f tests id
      → Has ch id
  unfolding Maps.lookup
  Needed-Has by_id f tests ch p (asked t m e) = matching-In f (Has ch) tests t p.rooted m e
  Needed-Has by_id f tests ch p (required {a} {b} n edge) =
      p.closed a b refl (Needed-Has by_id f tests ch p n) edge

  select_of_chosen :
      (c : Corpus) (f : Filter) (chosen : Chosen)
      → check_filter path_match c f ≡ none
      → choose_from path_match c.by_id f c.tests [] ≡ ok chosen
      → select path_match c f ≡ unless_empty (filter (has chosen) c.tests)
  unfolding select choose
  select_of_chosen c f chosen n e =
      let same = kept-filter chosen c.tests in rw (n, select, e, choose, same) refl

  -- A test of a corpus that was loaded and accepted is selected exactly if the filter asks for it, or
  -- a selected test requires it. The selection keeps the order in which the tests were loaded, and is
  -- an error only if it is empty, for a filter that names known suites and has no malformed pattern.
  pub select-Needed :
      (times : Times) (patterns : Patterns) (c : Corpus) (f : Filter)
      → IsLoaded times patterns c
      → check_requires c ≡ []
      → check_filter path_match c f ≡ none
      → (keep : Decoded → Bool) × ((t : Decoded)
          → Any (λ u. u ≡ t) c.tests
          → (keep t ≡ true) ↔ Needed path_match c.by_id f c.tests t.id)
        × (select path_match c f ≡ unless_empty (filter keep c.tests))
  unfolding Maps.lookup
  select-Needed times patterns c f v ok_requires ok_filter =
      let named : (id : Str) (t : Decoded) → Maps.lookup id c.by_id ≡ some t → t.id ≡ id =
        λ id t k. (v.named id t k).0 in
      let sound = (check_requires_iff times patterns c v).0 ok_requires in
      let complete : (a b : Str) → Edge c.by_id a b → Maps.lookup b c.by_id ≢ none =
        λ a b (t, k, m).
          let it = named a t k in
          let g = All-Any (λ u. Grounded c.by_id u.id) c.tests t sound (v.named a t k).1 in
          Grounded-known c.by_id
            (Grounded-Edge c.by_id g (t, ap (λ x. Maps.lookup x c.by_id) it ∙ k, m)) in
      let (chosen, e, p) =
        choose_from-Includes path_match c.by_id f c.tests named complete c.tests [] v.indexed
          (All-members _ c.tests (λ t m. m)) in
      (
        has chosen,
        λ t m. (
          λ h. p.sound t.id refl ((has-Has chosen t).0 h),
          λ n. (has-Has chosen t).1 (Needed-Has c.by_id f c.tests chosen p n),
        ),
        select_of_chosen c f chosen ok_filter e,
      )
