-- ===== src/Client/Schedule/Progress/Plans.antt =====
-- pkg/client/runner.go: theorems about the runs of the jobs that are planned for the tests of a
-- corpus.
use mecone.Prelude.{
  ℕ, ◌<◌, ◌≡◌, refl, sym, ap, ◌∙◌, inl, inr, false, some, List, [], ◌∷◌, ◌++◌, Str, eq_str,
  eq_str_iff, Bool-cases, arith, ==_iff, length, get_elem?, All, Any, All-append, get_elem?-append,
  get_elem?-lt, All-get_elem?, All-imp, All-Any,
}
use mathlib.Core.Path.{subst}
use mecone.Maps
use mecone.Maps.{Map, str_key}
use mecone.Strings.{contains_rune}
use mecone.Check.{Patterns, Message}
use mecone.TestDef.{Test, Decoded}
use mecone.Protocol.Lines.{Times}
use mecone.Corpus.{Corpus}
use mecone.Corpus.Loaded.{IsLoaded}
use mecone.Corpus.Marks.{In, Grounded, above}
use mecone.Corpus.Requires.{check_requires}
use mecone.Corpus.Requires.Cycles.{check_requires_iff}
use mecone.Client.{Job, job_key, plan_tests, plan_from, plan}
use mecone.Client.Exercise.{Exchange}
use mecone.Client.Schedule.{State, Reach}
use mecone.Client.Schedule.Progress.{Ordered, ordered}
use mecone.Client.Schedule.Progress.Completion.{Ends, Reach-Ends}

-- No bar in the name of a protocol.
abbrev pub NoBar : Str → Type 0
NoBar p = contains_rune p b'|' ≡ false

bar-NoBar : (x y : Str) → ¬ NoBar (x ++ b'|' ∷ y)
unfolding contains_rune
bar-NoBar [] y h = ground arith
bar-NoBar (c ∷ x) y h = bar-NoBar x y (ground arith)

-- A key stands for one ID, if protocols have no bar in their names.
job_key-injective :
    (a b p q : Str) → NoBar p → NoBar q → job_key a p ≡ job_key b q → (a ≡ b) × (p ≡ q)
unfolding job_key
job_key-injective [] [] p q np nq e = (refl, cc)
job_key-injective [] (c ∷ b) p q np nq e =
    let same : p ≡ b ++ b'|' ∷ q = cc in absurd (bar-NoBar b q (rw (← same) np))
job_key-injective (c ∷ a) [] p q np nq e =
    let same : a ++ b'|' ∷ p ≡ q = cc in absurd (bar-NoBar a p (rw same nq))
job_key-injective (c ∷ a) (d ∷ b) p q np nq e =
    let head : c ≡ d = cc in
    let (k, l) = job_key-injective a b p q np nq cc in (rw (head, k) refl, l)

-- What is so of every job that is planned, and of every index that a key stands for.
module _ (Good : Test → Type 0) where
  record IsPlan (jobs : List Job) (by_key : Map Str ℕ) : Type 0 where
    good : All (λ j. Good j.test × NoBar j.proto) jobs
    keyed :
        (k : Str) (d : ℕ)
        → Maps.lookup k by_key ≡ some d
        → (j : Job) × (get_elem? jobs d ≡ some j) × (job_key j.test.id j.proto ≡ k)

  IsPlan-keyed :
      (p : Str) (t : Test) (jobs : List Job) (by_key : Map Str ℕ)
      → IsPlan jobs by_key
      → (k : Str) (d : ℕ)
      → Maps.lookup k (Maps.insert (job_key t.id p) (length jobs) by_key) ≡ some d
      → (j : Job) × (get_elem? (jobs ++ record { test = t; proto = p } ∷ []) d ≡ some j)
        × (job_key j.test.id j.proto ≡ k)
  IsPlan-keyed p t jobs by_key v k d e =
      let new : Job = record { test = t; proto = p } in
      let at = get_elem?-append jobs new d in
      let found = Maps.lookup-insert (job_key t.id p) k (length jobs) by_key in
      elim (Bool-cases (eq_str (job_key t.id p) k)) [
        | inl same ↦
            let last : length jobs ≡ d = ground arith in
            (new, ground (arith, ==_iff d (length jobs)), (eq_str_iff (job_key t.id p) k).0 same)
        | inr other ↦
            let (j, a, key) = v.keyed k d (ground arith) in
            let lt = get_elem?-lt jobs d j a in (j, ground (arith, ==_iff d (length jobs)), key)
      ]

  IsPlan-job :
      (p : Str) (t : Test) (jobs : List Job) (by_key : Map Str ℕ)
      → NoBar p
      → Good t
      → IsPlan jobs by_key
      → IsPlan
          (jobs ++ record { test = t; proto = p } ∷ [])
          (Maps.insert (job_key t.id p) (length jobs) by_key)
  IsPlan-job p t jobs by_key n g v = record {
    good = All-append _ jobs (record { test = t; proto = p } ∷ []) v.good ((g, n), tt);
    keyed = λ k d e. IsPlan-keyed p t jobs by_key v k d e;
  }

  plan_tests-IsPlan :
      (p : Str) (tests : List Test) (jobs : List Job) (by_key : Map Str ℕ)
      → NoBar p
      → All Good tests
      → IsPlan jobs by_key
      → IsPlan (plan_tests p tests (jobs, by_key)).0 (plan_tests p tests (jobs, by_key)).1
  unfolding plan_tests
  plan_tests-IsPlan p [] jobs by_key n g v = v
  plan_tests-IsPlan p (t ∷ tests) jobs by_key n (g, gs) v =
      plan_tests-IsPlan p tests _ _ n gs (IsPlan-job p t jobs by_key n g v)

  plan_from-IsPlan :
      (protocols : List Str) (tests : List Test) (jobs : List Job) (by_key : Map Str ℕ)
      → All NoBar protocols
      → All Good tests
      → IsPlan jobs by_key
      → IsPlan
          (plan_from protocols tests (jobs, by_key)).0
          (plan_from protocols tests (jobs, by_key)).1
  unfolding plan_from
  plan_from-IsPlan [] tests jobs by_key n g v = v
  plan_from-IsPlan (p ∷ protocols) tests jobs by_key (n, ns) g v =
      let (jobs', keys') = plan_tests p tests (jobs, by_key) in
      plan_from-IsPlan protocols tests jobs' keys' ns g
        (plan_tests-IsPlan p tests jobs by_key n g v)

  plan-IsPlan :
      (protocols : List Str) (tests : List Test)
      → All NoBar protocols
      → All Good tests
      → IsPlan (plan protocols tests).0 (plan protocols tests).1
  unfolding plan Maps.lookup
  plan-IsPlan protocols tests n g =
      plan_from-IsPlan protocols tests [] [] n g
        (record { good = tt; keyed = λ k d e. absurd (cc) })

-- The test is one of the corpus: it requires what the corpus has under its ID.
abbrev pub Known : Map Str Decoded → Test → Type 0
Known by_id t =
    (u : Decoded) × (Maps.lookup t.id by_id ≡ some u)
    × (u.requires ≡ t.requires)
    × Grounded by_id t.id

module _ (by_id : Map Str Decoded) (jobs : List Job) (by_key : Map Str ℕ) where
  -- What the corpus has under an ID is one test.
  requires_same :
      {id : Str} {ds : List Str} {key : Str} (u t : Decoded)
      → Maps.lookup key by_id ≡ some u
      → Maps.lookup id by_id ≡ some t
      → u.requires ≡ ds
      → key ≡ id
      → ds ≡ t.requires
  requires_same u t l k r same =
      let both_some : some u ≡ some t = sym l ∙ (ap (λ x. Maps.lookup x by_id) same ∙ k) in
      let it : u ≡ t = cc in sym r ∙ ap (λ x. x.requires) it

  Grounded-Ordered :
      IsPlan (Known by_id) jobs by_key
      → {id : Str} → Grounded by_id id
      → (i : ℕ) (j : Job) → get_elem? jobs i ≡ some j
      → j.test.id ≡ id
      → Ordered jobs by_key i
  Grounded-Ordered v {id} (above t k below) i j a same =
      let ((u, l, r, g), n) =
        All-get_elem? (λ x. Known by_id x.test × NoBar x.proto) jobs i j a v.good in
      ordered j a (λ dep d m e.
        let (j', b, key) = v.keyed (job_key dep j.proto) d e in
        let (x, n') = All-get_elem? (λ x. Known by_id x.test × NoBar x.proto) jobs d j' b v.good in
        let (it, p) = job_key-injective j'.test.id dep j'.proto j.proto n' n key in
        Grounded-Ordered v (below dep (subst (λ w. In dep w) (requires_same u t l k r same) m)) d j'
          b it)

-- The test is one of the corpus.
abbrev pub FromCorpus : Corpus → Test → Type 0
FromCorpus c t =
    (u : Decoded) × Any (λ w. w ≡ u) c.tests × (u.id ≡ t.id) × (u.requires ≡ t.requires)

module _ (times : Times) (patterns : Patterns) where
  FromCorpus-Known :
      (c : Corpus)
      → IsLoaded times patterns c
      → check_requires c ≡ []
      → (t : Test) → FromCorpus c t
      → Known c.by_id t
  FromCorpus-Known c v accepted t (u, m, same, r) =
      let stands = All-Any (λ w. Maps.lookup w.id c.by_id ≡ some w) c.tests u v.indexed m in
      let sound =
        All-Any (λ w. Grounded c.by_id w.id) c.tests u
          ((check_requires_iff times patterns c v).0 accepted) m in
      (
        u,
        ap (λ x. Maps.lookup x c.by_id) (sym same) ∙ stands,
        r,
        subst (Grounded c.by_id) same sound,
      )

  -- The jobs that are planned for tests of a loaded and accepted corpus always come to an end, whatever
  -- of them was selected: over protocols without a bar in their names, with a positive concurrency,
  -- from every state that the run can reach, each sequence of steps ends, after finitely many, and in
  -- every state on the way either every job has a result, or the goroutine of some job can go on by
  -- itself, without a cancellation of the run.
  pub plan-Ends :
      (render : Message → Str) (exchange : ℕ → Exchange) (concurrency : ℕ) (c : Corpus)
      (protocols : List Str) (tests : List Test) (st : State)
      → IsLoaded times patterns c
      → check_requires c ≡ []
      → All NoBar protocols
      → All (FromCorpus c) tests
      → 0 < concurrency
      → Reach patterns render exchange concurrency
          (plan protocols tests).1
          (plan protocols tests).0
          st
      → Ends patterns render exchange concurrency
          (plan protocols tests).1
          (plan protocols tests).0
          st
  plan-Ends render exchange concurrency c protocols tests st v accepted bars members positive r =
      let known = All-imp _ _ tests (FromCorpus-Known c v accepted) members in
      let planned = plan-IsPlan (Known c.by_id) protocols tests bars known in
      Reach-Ends patterns render exchange concurrency (plan protocols tests).1
        (plan protocols tests).0 st positive
        (λ i j a.
          let ((u, l, same, g), n) =
            All-get_elem? (λ x. Known c.by_id x.test × NoBar x.proto) (plan protocols tests).0 i j a
              planned.good in
          Grounded-Ordered c.by_id (plan protocols tests).0 (plan protocols tests).1 planned g i j a
            refl)
        r
