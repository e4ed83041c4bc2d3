-- ===== src/Client/Schedule/Progress.antt =====
-- pkg/client/runner.go: theorems about which goroutine of `execute` can go on.
pub mod Completion
pub mod Plans
use mecone.Prelude.{
  ℕ, suc, ◌+◌, ◌-◌, ◌<◌, ◌≡◌, ◌≢◌, refl, ap, ◌∙◌, inl, inr, some, List, [], ◌∷◌, ◌++◌, Str,
  Bool-cases, Option-cases, arith, ltb, if◌then◌else◌, length, get_elem?, length-set, get_elem?-lt,
  get_elem?_of_lt,
}
use mecone.Maps
use mecone.Maps.{Map, str_key}
use mecone.Results.{pass, eq_outcome, TestResult}
use mecone.Check.{Patterns, Message}
use mecone.Corpus.Marks.{In}
use mecone.Client.{Job, job_key}
use mecone.Client.Exercise.{Exchange}
use mecone.Client.Schedule.{
  Phase, unstarted, waiting, holding, ended, State, not_selected, not_passed, skip, await, awaited,
  moved, taken, advance, Reach, all_unstarted, start, started, then_step,
}
use mecone.Client.Schedule.Slots.{exercised, Reach-Fits}
use mecone.Client.Schedule.Changes.{Move-cases}
use mecone.Client.Schedule.Requirements.{Reach-Sound}

-- What a job requires has jobs, if it was selected, and no chain of requirements goes on for ever.
pub data Ordered (jobs : List Job) (by_key : Map Str ℕ) : ℕ → Type 0 where
  ordered :
      {i : ℕ} (j : Job)
      → get_elem? jobs i ≡ some j
      → ((dep : Str) (d : ℕ)
          → In dep j.test.requires
          → Maps.lookup (job_key dep j.proto) by_key ≡ some d
          → Ordered jobs by_key d)
      → Ordered jobs by_key i

Ordered-job :
    {jobs : List Job} {by_key : Map Str ℕ} {i : ℕ}
    → Ordered jobs by_key i
    → (j : Job) × (get_elem? jobs i ≡ some j)
Ordered-job (ordered j a below) = (j, a)

In-append : (xs : List Str) (y : Str) (ys : List Str) → In y (xs ++ y ∷ ys)
In-append [] y ys = inl refl
In-append (x ∷ xs) y ys = inr (In-append xs y ys)

-- Where a slot is taken, a job is being exercised.
exercised-holding :
    (phases : List Phase) → 0 < exercised phases → (i : ℕ) × (get_elem? phases i ≡ some holding)
exercised-holding [] h = absurd (omega arith)
exercised-holding (holding ∷ phases) h = (0, refl)
exercised-holding (unstarted ∷ phases) h =
    let (i, e) = exercised-holding phases (omega arith) in (suc i, e)
exercised-holding (waiting deps ∷ phases) h =
    let (i, e) = exercised-holding phases (omega arith) in (suc i, e)
exercised-holding (ended r ∷ phases) h =
    let (i, e) = exercised-holding phases (omega arith) in (suc i, e)

module _ (patterns : Patterns) (render : Message → Str) (exchange : ℕ → Exchange) (concurrency : ℕ)
    (by_key : Map Str ℕ) (jobs : List Job) where
  -- The goroutine of some job can go on by itself: the cancellation of the run does not count.
  abbrev pub CanMove : State → Type 0
  CanMove st =
      (st' : State) × (i : ℕ) × (j : Job) × (ph : Phase) × (get_elem? jobs i ≡ some j)
      × (get_elem? st.phases i ≡ some ph)
      × (advance patterns render exchange concurrency by_key st i j ph ≡ some st')

  all_unstarted-length : (js : List Job) → length (all_unstarted js) ≡ length js
  all_unstarted-length [] = refl
  all_unstarted-length (j ∷ js) = ap suc (all_unstarted-length js)

  pub Reach-length :
      (st : State)
      → Reach patterns render exchange concurrency by_key jobs st
      → length st.phases ≡ length jobs
  unfolding start
  Reach-length st started = all_unstarted-length jobs
  Reach-length st' (then_step {st} r m) =
      elim (Move-cases patterns render exchange concurrency by_key jobs st st' m) [
        | inr (same, c, d) ↦ ap length same ∙ Reach-length st r
        | inl ((k, j, old, new, a, g, same, n), c) ↦
            ap length same ∙ (length-set st.phases k new ∙ Reach-length st r)
      ]

  goes-unstarted :
      (st : State) (i : ℕ) (j : Job)
      → get_elem? jobs i ≡ some j
      → get_elem? st.phases i ≡ some unstarted
      → CanMove st
  unfolding advance
  goes-unstarted st i j a g = (_, i, j, unstarted, a, g, refl)

  goes-holding :
      (st : State) (i : ℕ) (j : Job)
      → get_elem? jobs i ≡ some j
      → get_elem? st.phases i ≡ some holding
      → CanMove st
  unfolding advance
  goes-holding st i j a g = (_, i, j, holding, a, g, refl)

  goes-await :
      (st : State) (i : ℕ) (j : Job) (dep : Str) (deps : List Str) (ph : Phase)
      → get_elem? jobs i ≡ some j
      → get_elem? st.phases i ≡ some (waiting (dep ∷ deps))
      → await by_key st.phases j dep deps ≡ some ph
      → CanMove st
  unfolding advance
  goes-await st i j dep deps ph a g w =
      (moved st i ph, i, j, waiting (dep ∷ deps), a, g, rw (w, advance) refl)

  goes-ready :
      (st : State) (i : ℕ) (j : Job)
      → Reach patterns render exchange concurrency by_key jobs st
      → 0 < concurrency
      → get_elem? jobs i ≡ some j
      → get_elem? st.phases i ≡ some (waiting [])
      → CanMove st
  unfolding advance
  goes-ready st i j r positive a g = elim (Bool-cases (ltb st.held concurrency)) [
    | inl room ↦ (taken st i, i, j, waiting [], a, g, rw (room, advance) refl)
    | inr full ↦
        let (same, le) = Reach-Fits patterns render exchange concurrency by_key jobs st r in
        let (h, e) = exercised-holding st.phases (ground arith) in
        let len = Reach-length st r in
        let below = get_elem?-lt st.phases h holding e in
        let (k, b) = get_elem?_of_lt jobs h (omega arith) in goes-holding st h k b e
  ]

  -- A job that has not ended can go on, or waits for one that can.
  pub can_move :
      (st : State)
      → Reach patterns render exchange concurrency by_key jobs st
      → 0 < concurrency
      → {i : ℕ} → Ordered jobs by_key i
      → (ph : Phase) → get_elem? st.phases i ≡ some ph
      → ((r : TestResult) → ph ≢ ended r)
      → CanMove st
  unfolding await awaited
  can_move st r positive {i} (ordered j a below) unstarted g n = goes-unstarted st i j a g
  can_move st r positive {i} (ordered j a below) holding g n = goes-holding st i j a g
  can_move st r positive {i} (ordered j a below) (ended q) g n = absurd (n q refl)
  can_move st r positive {i} (ordered j a below) (waiting []) g n = goes-ready st i j r positive a g
  can_move st r positive {i} (ordered j a below) (waiting (dep ∷ deps)) g n =
      let (o, (seen, e, done)) =
        Reach-Sound patterns render exchange concurrency by_key jobs st r i j (waiting (dep ∷ deps))
          a g in
      let member : In dep j.test.requires = rw (← e) (In-append seen dep deps) in
      elim (Option-cases (Maps.lookup (job_key dep j.proto) by_key)) [
        | inl none_there ↦
            goes-await st i j dep deps (skip j (not_selected dep)) a g (rw (none_there, await) refl)
        | inr (d, k) ↦ elim (Option-cases (get_elem? st.phases d)) [
          | inl out ↦
              let (j', b) = Ordered-job (below dep d member k) in
              let lt = get_elem?-lt jobs d j' b in
              let len = Reach-length st r in
              let (ph, p) = get_elem?_of_lt st.phases d (omega arith) in absurd (cc)
          | inr (ended q, h) ↦
              goes-await st i j dep deps
                (if eq_outcome q.outcome pass then waiting deps else skip j (not_passed dep q)) a g
                (rw (k, await, h, awaited) refl)
          | inr (unstarted, h) ↦
              can_move st r positive (below dep d member k) unstarted h (λ q w. cc)
          | inr (holding, h) ↦ can_move st r positive (below dep d member k) holding h (λ q w. cc)
          | inr (waiting ds, h) ↦
              can_move st r positive (below dep d member k) (waiting ds) h (λ q w. cc)
        ]
      ]
