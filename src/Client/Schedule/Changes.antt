-- ===== src/Client/Schedule/Changes.antt =====
-- pkg/client/runner.go: what one step of the goroutines changes.
use mecone.Prelude.{
  ℕ, ◌≡◌, ◌≢◌, refl, sym, ap, ◌⊎◌, inl, inr, true, false, some, List, [], ◌∷◌, Str, str, Bool-cases,
  Option-cases, arith, ltb, get_elem?, set,
}
use mecone.Maps
use mecone.Maps.{Map, str_key}
use mecone.Results.{pass, error, eq_outcome, eq_outcome_iff, TestResult}
use mecone.Check.{Patterns, Message}
use mecone.Client.{Job, job_key}
use mecone.Client.Exercise.{Exchange, exercise, with_outcome}
use mecone.Client.Schedule.{
  Phase, unstarted, waiting, holding, ended, State, skip, not_passed, not_selected, begin, awaited,
  await, moved, taken, new_result, advance, Move, goes, gives_up, cancels,
}
use mecone.Client.Schedule.Slots.{some_eq}

module _ (patterns : Patterns) (render : Message → Str) (exchange : ℕ → Exchange) (concurrency : ℕ)
    (by_key : Map Str ℕ) where
  -- How the phase of a job at an index changes.
  pub data Next (phases : List Phase) (i : ℕ) (j : Job) : Phase → Phase → Type 0 where
    begins : Next phases i j unstarted (begin j)
    awaits :
        {dep : Str} {deps : List Str} {ph : Phase}
        → await by_key phases j dep deps ≡ some ph
        → Next phases i j (waiting (dep ∷ deps)) ph
    takes : Next phases i j (waiting []) holding
    stops :
        Next phases i j
          (waiting [])
          (ended (with_outcome (new_result j) error (str "canceled before start" ∷ [])))
    finishes :
        Next phases i j holding
          (ended (exercise patterns render (exchange i) (new_result j) j.test).0)

  abbrev pub Changed : List Job → State → List Phase → Type 0
  Changed jobs st phases =
      (i : ℕ) × (j : Job) × (old : Phase) × (new : Phase) × (get_elem? jobs i ≡ some j)
      × (get_elem? st.phases i ≡ some old)
      × (phases ≡ set st.phases i new)
      × Next st.phases i j old new

  advance-Changed :
      (jobs : List Job) (st st' : State) (i : ℕ) (j : Job) (ph : Phase)
      → get_elem? jobs i ≡ some j
      → get_elem? st.phases i ≡ some ph
      → advance patterns render exchange concurrency by_key st i j ph ≡ some st'
      → Changed jobs st st'.phases × (st'.canceled ≡ st.canceled)
  unfolding advance
  advance-Changed jobs st st' i j unstarted a g e =
      let same = some_eq e in
      (
        (i, j, unstarted, begin j, a, g, ap (λ s. s.phases) (sym same), begins),
        ap (λ s. s.canceled) (sym same),
      )
  advance-Changed jobs st st' i j (waiting (dep ∷ deps)) a g e =
      elim (Option-cases (await by_key st.phases j dep deps)) [
        | inl n ↦ absurd (ground arith)
        | inr (ph, w) ↦
            let same : moved st i ph ≡ st' = some_eq (ground arith) in
            (
              (i, j, waiting (dep ∷ deps), ph, a, g, ap (λ s. s.phases) (sym same), awaits w),
              ap (λ s. s.canceled) (sym same),
            )
      ]
  advance-Changed jobs st st' i j (waiting []) a g e = elim (Bool-cases (ltb st.held concurrency)) [
    | inr full ↦ absurd (ground arith)
    | inl room ↦
        let same : taken st i ≡ st' = some_eq (ground arith) in
        (
          (i, j, waiting [], holding, a, g, ap (λ s. s.phases) (sym same), takes),
          ap (λ s. s.canceled) (sym same),
        )
  ]
  advance-Changed jobs st st' i j holding a g e =
      let same = some_eq e in
      (
        (i, j, holding, _, a, g, ap (λ s. s.phases) (sym same), finishes),
        ap (λ s. s.canceled) (sym same),
      )
  advance-Changed jobs st st' i j (ended r) a g e = absurd (cc)

  -- A step changes the phase of one job, or cancels the run.
  pub Move-cases :
      (jobs : List Job) (st st' : State)
      → Move patterns render exchange concurrency by_key jobs st st'
      → (Changed jobs st st'.phases × (st'.canceled ≡ st.canceled))
        ⊎ ((st'.phases ≡ st.phases) × (st.canceled ≡ false) × (st'.canceled ≡ true))
  Move-cases jobs st st' (goes i j ph a g e) = inl (advance-Changed jobs st st' i j ph a g e)
  Move-cases jobs st st' (gives_up i j a g c) = inl ((i, j, waiting [], _, a, g, refl, stops), refl)
  Move-cases jobs st st' (cancels c) = inr (refl, c, refl)

  -- Only a job that has not ended changes its phase.
  pub Next-ended :
      (phases : List Phase) (i : ℕ) (j : Job) (old new : Phase) (r : TestResult)
      → Next phases i j old new
      → old ≢ ended r
  Next-ended phases i j old new r begins e = cc
  Next-ended phases i j old new r (awaits w) e = cc
  Next-ended phases i j old new r takes e = cc
  Next-ended phases i j old new r stops e = cc
  Next-ended phases i j old new r finishes e = cc

  pub await-cases :
      (phases : List Phase) (j : Job) (dep : Str) (deps : List Str) (ph : Phase)
      → await by_key phases j dep deps ≡ some ph
      → ((why : Str) × (ph ≡ skip j why))
        ⊎ ((ph ≡ waiting deps)
            × ((d : ℕ) × (r : TestResult) × (Maps.lookup (job_key dep j.proto) by_key ≡ some d)
                × (get_elem? phases d ≡ some (ended r))
                × (r.outcome ≡ pass)))
  unfolding await awaited
  await-cases phases j dep deps ph e =
      elim (Option-cases (Maps.lookup (job_key dep j.proto) by_key)) [
        | inl n ↦ inl (not_selected dep, ground arith)
        | inr (d, k) ↦ elim (Option-cases (get_elem? phases d)) [
          | inl n ↦ absurd (ground arith)
          | inr (unstarted, g) ↦ absurd (ground arith)
          | inr (waiting w, g) ↦ absurd (ground arith)
          | inr (holding, g) ↦ absurd (ground arith)
          | inr (ended r, g) ↦ elim (Bool-cases (eq_outcome r.outcome pass)) [
            | inl p ↦ inr (ground arith, (d, r, k, g, (eq_outcome_iff r.outcome pass).0 p))
            | inr p ↦ inl (not_passed dep r, ground arith)
          ]
        ]
      ]
