-- ===== src/Client/Schedule/Requirements.antt =====
-- pkg/client/runner.go: theorems about the goroutines of `execute` and the requirements of their
-- tests.
use mecone.Prelude.{
  ℕ, zero, suc, ◌≡◌, ◌≢◌, refl, sym, ap, ◌∙◌, ◌⊎◌, inl, inr, true, false, some, List, [], ◌∷◌, ◌++◌,
  Str, Bool-cases, ◌==◌, ==_iff, get_elem?, All, All-append, set, get_elem?-set, get_elem?-lt,
  All-imp,
}
use mathlib.Core.Path.{subst}
use mecone.Maps
use mecone.Maps.{Map, str_key}
use mecone.Results.{pass, skipped, TestResult}
use mecone.Check.{Patterns, Message}
use mecone.TestDef.{runs_over}
use mecone.Client.{Job, job_key}
use mecone.Client.Exercise.{Exchange}
use mecone.Client.Schedule.{
  Phase, unstarted, waiting, holding, ended, State, begin, all_unstarted, start, Reach, started,
  then_step,
}
use mecone.Client.Schedule.Slots.{some_eq}
use mecone.Client.Schedule.Changes.{
  Next, begins, awaits, takes, stops, finishes, Next-ended, Move-cases, await-cases,
}

module _ (by_key : Map Str ℕ) where
  -- The job of a test over a protocol has ended, and its test has passed.
  abbrev pub Passed : List Phase → Str → Str → Type 0
  Passed phases p dep =
      (d : ℕ) × (r : TestResult) × (Maps.lookup (job_key dep p) by_key ≡ some d)
      × (get_elem? phases d ≡ some (ended r))
      × (r.outcome ≡ pass)

  -- Everything that the test of a job requires has passed, and it runs over the protocol.
  abbrev pub Ready : List Phase → Job → Type 0
  Ready phases j = (runs_over j.test j.proto ≡ true) × All (Passed phases j.proto) j.test.requires

  -- What is so of a job in each phase.
  abbrev pub Sound : List Phase → Job → Phase → Type 0
  Sound phases j unstarted = Unit
  Sound phases j (waiting deps) =
      (runs_over j.test j.proto ≡ true)
      × ((seen : List Str) × (seen ++ deps ≡ j.test.requires) × All (Passed phases j.proto) seen)
  Sound phases j holding = Ready phases j
  Sound phases j (ended r) = (r.outcome ≡ skipped) ⊎ Ready phases j

  set_other :
      (phases : List Phase) (i j : ℕ) (old new : Phase)
      → get_elem? phases i ≡ some old
      → (i == j) ≡ false
      → get_elem? (set phases i new) j ≡ get_elem? phases j
  set_other phases i j old new g n =
      get_elem?-set phases i j new (get_elem?-lt phases i old g) ∙ rw n refl

  set_same :
      (phases : List Phase) (i j : ℕ) (old new : Phase)
      → get_elem? phases i ≡ some old
      → (i == j) ≡ true
      → get_elem? (set phases i new) j ≡ some new
  set_same phases i j old new g n =
      get_elem?-set phases i j new (get_elem?-lt phases i old g) ∙ rw n refl

  Passed-set :
      (phases : List Phase) (i : ℕ) (old new : Phase) (p dep : Str)
      → get_elem? phases i ≡ some old
      → ((r : TestResult) → old ≢ ended r)
      → Passed phases p dep
      → Passed (set phases i new) p dep
  Passed-set phases i old new p dep g n (d, r, k, e, o) = elim (Bool-cases (i == d)) [
    | inr other ↦ (d, r, k, set_other phases i d old new g other ∙ e, o)
    | inl same ↦
        let it : i ≡ d = (==_iff i d).0 same in
        absurd (n r (some_eq (sym g ∙ (ap (get_elem? phases) it ∙ e))))
  ]

  Sound-set :
      (phases : List Phase) (i : ℕ) (old new : Phase) (j : Job) (ph : Phase)
      → get_elem? phases i ≡ some old
      → ((r : TestResult) → old ≢ ended r)
      → Sound phases j ph
      → Sound (set phases i new) j ph
  Sound-set phases i old new j unstarted g n s = tt
  Sound-set phases i old new j (waiting deps) g n (o, (seen, e, a)) =
      (o, (seen, e, All-imp _ _ seen (λ dep. Passed-set phases i old new j.proto dep g n) a))
  Sound-set phases i old new j holding g n (o, a) =
      (o, All-imp _ _ j.test.requires (λ dep. Passed-set phases i old new j.proto dep g n) a)
  Sound-set phases i old new j (ended r) g n (inl skip) = inl skip
  Sound-set phases i old new j (ended r) g n (inr (o, a)) =
      inr (o, All-imp _ _ j.test.requires (λ dep. Passed-set phases i old new j.proto dep g n) a)

  append_assoc : (xs : List Str) (y : Str) (ys : List Str) → (xs ++ y ∷ []) ++ ys ≡ xs ++ y ∷ ys
  append_assoc [] y ys = refl
  append_assoc (x ∷ xs) y ys = ap (λ zs. x ∷ zs) (append_assoc xs y ys)

  append_nil : (xs : List Str) → xs ++ [] ≡ xs
  append_nil [] = refl
  append_nil (x ∷ xs) = ap (λ zs. x ∷ zs) (append_nil xs)

module _ (patterns : Patterns) (render : Message → Str) (exchange : ℕ → Exchange) (concurrency : ℕ)
    (by_key : Map Str ℕ) where
  waiting-Ready :
      (phases : List Phase) (j : Job) → Sound by_key phases j (waiting []) → Ready by_key phases j
  waiting-Ready phases j (o, (seen, e, a)) =
      let same : seen ≡ j.test.requires = sym (append_nil by_key seen) ∙ e in
      (o, subst (All (Passed by_key phases j.proto)) same a)

  -- A change of phase is sound if what it starts from is.
  Next-Sound :
      (phases : List Phase) (i : ℕ) (j : Job) (old new : Phase)
      → Next patterns render exchange concurrency by_key phases i j old new
      → Sound by_key phases j old
      → Sound by_key phases j new
  unfolding begin
  Next-Sound phases i j old new begins s = elim (Bool-cases (runs_over j.test j.proto)) [
    | inl o ↦ rw (o, begin) (o, ([], refl, tt))
    | inr o ↦ rw (o, begin) (inl refl)
  ]
  Next-Sound phases i j old new (awaits {dep} {deps} w) (o, (seen, e, a)) =
      elim (await-cases patterns render exchange concurrency by_key phases j dep deps new w) [
        | inl (why, same) ↦ rw same (inl refl)
        | inr (same, passed) ↦ rw same (
          o,
          (
            seen ++ dep ∷ [],
            append_assoc by_key seen dep deps ∙ e,
            All-append _ seen (dep ∷ []) a (passed, tt),
          ),
        )
      ]
  Next-Sound phases i j old new takes s = waiting-Ready phases j s
  Next-Sound phases i j old new stops s = inr (waiting-Ready phases j s)
  Next-Sound phases i j old new finishes s = inr s

  abbrev AllSound : List Job → List Phase → Type 0
  AllSound jobs phases =
      (i : ℕ) (j : Job) (ph : Phase)
      → get_elem? jobs i ≡ some j
      → get_elem? phases i ≡ some ph
      → Sound by_key phases j ph

  all_unstarted-unstarted :
      (jobs : List Job) (i : ℕ) (ph : Phase)
      → get_elem? (all_unstarted jobs) i ≡ some ph
      → unstarted ≡ ph
  all_unstarted-unstarted [] i ph e = absurd (cc)
  all_unstarted-unstarted (j ∷ jobs) zero ph e = cc
  all_unstarted-unstarted (j ∷ jobs) (suc i) ph e = all_unstarted-unstarted jobs i ph e

  set-AllSound :
      (jobs : List Job) (phases : List Phase) (i : ℕ) (j : Job) (old new : Phase)
      → get_elem? jobs i ≡ some j
      → get_elem? phases i ≡ some old
      → Next patterns render exchange concurrency by_key phases i j old new
      → AllSound jobs phases
      → AllSound jobs (set phases i new)
  set-AllSound jobs phases i j old new a g n s k j' ph a' g' =
      let fixed : (r : TestResult) → old ≢ ended r =
        λ r. Next-ended patterns render exchange concurrency by_key phases i j old new r n in
      elim (Bool-cases (i == k)) [
        | inl same ↦
            let it : i ≡ k = (==_iff i k).0 same in
            let job : j ≡ j' = some_eq (sym a ∙ (ap (get_elem? jobs) it ∙ a')) in
            let phase : new ≡ ph = some_eq (sym (set_same by_key phases i k old new g same) ∙ g') in
            let sound = Next-Sound phases i j old new n (s i j old a g) in
            Sound-set by_key phases i old new j' ph g fixed (
              subst (λ x. Sound by_key phases j' x) phase
                (subst (λ x. Sound by_key phases x new) job sound))
        | inr other ↦
            Sound-set by_key phases i old new j' ph g fixed
              (s k j' ph a' (sym (set_other by_key phases i k old new g other) ∙ g'))
      ]

  -- Whatever the order of the steps, when a test is exercised, and when its result is anything but a
  -- skip, the test runs over the protocol, and the jobs of all tests that it requires have ended over
  -- the same protocol and have passed.
  pub Reach-Sound :
      (jobs : List Job) (st : State)
      → Reach patterns render exchange concurrency by_key jobs st
      → (i : ℕ) (j : Job) (ph : Phase) → get_elem? jobs i ≡ some j
      → get_elem? st.phases i ≡ some ph
      → Sound by_key st.phases j ph
  unfolding start
  Reach-Sound jobs st started i j ph a g =
      subst (Sound by_key st.phases j) (all_unstarted-unstarted jobs i ph g) tt
  Reach-Sound jobs st' (then_step {st} r m) i j ph a g =
      let s = Reach-Sound jobs st r in
      elim (Move-cases patterns render exchange concurrency by_key jobs st st' m) [
        | inr (same, c, d) ↦ subst (AllSound jobs) (sym same) s i j ph a g
        | inl ((k, j', old, new, a', g', same, n), c) ↦
            subst (AllSound jobs) (sym same) (set-AllSound jobs st.phases k j' old new a' g' n s) i
              j ph a g
      ]
