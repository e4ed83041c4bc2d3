-- ===== src/Client/Schedule/Progress/Completion.antt =====
-- pkg/client/runner.go: theorems about how runs of the goroutines of `execute` end.
use mecone.Prelude.{
  ℕ, zero, suc, ◌+◌, ◌<◌, ◌≡◌, ◌≢◌, refl, ◌⊎◌, inl, inr, some, List, [], ◌∷◌, Str, Bool-cases,
  arith, if◌then◌else◌, length, get_elem?, set, get_elem?-lt, get_elem?_of_lt,
}
use mecone.Maps.{Map}
use mecone.Check.{Patterns, Message}
use mecone.TestDef.{runs_over}
use mecone.Results.{TestResult}
use mecone.Client.{Job}
use mecone.Client.Exercise.{Exchange}
use mecone.Client.Schedule.{
  Phase, unstarted, waiting, holding, ended, State, begin, Move, Reach, then_step,
}
use mecone.Client.Schedule.Changes.{
  Next, begins, awaits, takes, stops, finishes, Move-cases, await-cases,
}
use mecone.Client.Schedule.Progress.{Ordered, CanMove, can_move, Reach-length}

-- How many steps a job may still make.
abbrev weight : Job → Phase → ℕ
weight j unstarted = length j.test.requires + 3
weight j (waiting deps) = length deps + 2
weight j holding = 1
weight j (ended r) = 0

abbrev total : List Job → List Phase → ℕ
total [] phases = 0
total (j ∷ jobs) [] = 0
total (j ∷ jobs) (ph ∷ phases) = weight j ph + total jobs phases

abbrev measure : List Job → State → ℕ
measure jobs st = total jobs st.phases + (if st.canceled then 0 else 1)

total-set :
    (jobs : List Job) (phases : List Phase) (i : ℕ) (j : Job) (old new : Phase)
    → get_elem? jobs i ≡ some j
    → get_elem? phases i ≡ some old
    → total jobs (set phases i new) + weight j old ≡ total jobs phases + weight j new
total-set [] phases i j old new a g = absurd (cc)
total-set (k ∷ jobs) [] i j old new a g = absurd (cc)
total-set (k ∷ jobs) (ph ∷ phases) zero j old new a g =
    let job : k ≡ j = cc in let phase : ph ≡ old = cc in rw (job, phase) (omega arith)
total-set (k ∷ jobs) (ph ∷ phases) (suc i) j old new a g =
    let rest = total-set jobs phases i j old new a g in omega arith

-- Every job has ended, with a result.
abbrev pub AllEnded : State → Type 0
AllEnded st =
    (i : ℕ) (ph : Phase) → get_elem? st.phases i ≡ some ph → (r : TestResult) × (ph ≡ ended r)

cons_ended :
    (q : TestResult) (phases : List Phase)
    → ((i : ℕ) (ph : Phase) → get_elem? phases i ≡ some ph → (r : TestResult) × (ph ≡ ended r))
    → (i : ℕ) (ph : Phase) → get_elem? (ended q ∷ phases) i ≡ some ph
    → (r : TestResult) × (ph ≡ ended r)
cons_ended q phases f zero ph e = (q, cc)
cons_ended q phases f (suc i) ph e = f i ph e

find_open :
    (phases : List Phase)
    → ((i : ℕ) (ph : Phase) → get_elem? phases i ≡ some ph → (r : TestResult) × (ph ≡ ended r))
      ⊎ ((i : ℕ) × (ph : Phase) × (get_elem? phases i ≡ some ph)
          × ((r : TestResult) → ph ≢ ended r))
find_open [] = inl (λ i ph e. absurd (cc))
find_open (unstarted ∷ phases) = inr (0, unstarted, refl, λ r e. cc)
find_open (waiting deps ∷ phases) = inr (0, waiting deps, refl, λ r e. cc)
find_open (holding ∷ phases) = inr (0, holding, refl, λ r e. cc)
find_open (ended q ∷ phases) = elim (find_open phases) [
  | inr (i, ph, e, n) ↦ inr (suc i, ph, e, n)
  | inl f ↦ inl (cons_ended q phases f)
]

module _ (patterns : Patterns) (render : Message → Str) (exchange : ℕ → Exchange) (concurrency : ℕ)
    (by_key : Map Str ℕ) (jobs : List Job) where
  -- Whatever step comes next, and the one after that, some goroutine can go on by itself until every job has ended, and the steps come to an end.
  pub data Ends : State → Type 0 where
    all_ended : {st : State} → AllEnded st → Ends st
    goes_on :
        {st : State}
        → CanMove patterns render exchange concurrency by_key jobs st
        → ((st' : State) → Move patterns render exchange concurrency by_key jobs st st' → Ends st')
        → Ends st

  Next-weight :
      (phases : List Phase) (i : ℕ) (j : Job) (old new : Phase)
      → Next patterns render exchange concurrency by_key phases i j old new
      → weight j new < weight j old
  unfolding begin
  Next-weight phases i j old new begins = elim (Bool-cases (runs_over j.test j.proto)) [
    | inl o ↦ rw (o, begin) (omega arith)
    | inr o ↦ rw (o, begin) (omega arith)
  ]
  Next-weight phases i j old new (awaits {dep} {deps} w) =
      elim (await-cases patterns render exchange concurrency by_key phases j dep deps new w) [
        | inl (why, same) ↦ rw same (omega arith)
        | inr (same, passed) ↦ rw same (omega arith)
      ]
  Next-weight phases i j old new takes = omega arith
  Next-weight phases i j old new stops = omega arith
  Next-weight phases i j old new finishes = omega arith

  Move-measure :
      (st st' : State)
      → Move patterns render exchange concurrency by_key jobs st st'
      → measure jobs st' < measure jobs st
  Move-measure st st' m =
      elim (Move-cases patterns render exchange concurrency by_key jobs st st' m) [
        | inr (same, c, d) ↦ rw (same, c, d) (omega arith)
        | inl ((k, j, old, new, a, g, same, n), c) ↦
            let t = total-set jobs st.phases k j old new a g in
            let w = Next-weight st.phases k j old new n in rw (same, c) (omega arith)
      ]

  Reach-job :
      (st : State)
      → Reach patterns render exchange concurrency by_key jobs st
      → (i : ℕ) (ph : Phase) → get_elem? st.phases i ≡ some ph
      → (j : Job) × (get_elem? jobs i ≡ some j)
  Reach-job st r i ph g =
      let lt = get_elem?-lt st.phases i ph g in
      let len = Reach-length patterns render exchange concurrency by_key jobs st r in
      get_elem?_of_lt jobs i (omega arith)

  Ends-measure :
      (n : ℕ) (st : State)
      → measure jobs st < n
      → 0 < concurrency
      → ((i : ℕ) (j : Job) → get_elem? jobs i ≡ some j → Ordered jobs by_key i)
      → Reach patterns render exchange concurrency by_key jobs st
      → Ends st
  Ends-measure zero st small positive ord r = absurd (omega arith)
  Ends-measure (suc n) st small positive ord r = elim (find_open st.phases) [
    | inl f ↦ all_ended f
    | inr (i, ph, g, pending) ↦
        let (j, a) = Reach-job st r i ph g in
        goes_on
          (can_move patterns render exchange concurrency by_key jobs st r positive (ord i j a) ph g
            pending)
          (λ st' m.
            let less = Move-measure st st' m in
            Ends-measure n st' (omega arith) positive ord (then_step r m))
  ]

  -- With a positive concurrency, and requirements that no chain of them follows for ever, from every
  -- state that a run can reach each sequence of steps ends, after finitely many, and in every state on
  -- the way every job has a result or some goroutine can go on by itself.
  pub Reach-Ends :
      (st : State)
      → 0 < concurrency
      → ((i : ℕ) (j : Job) → get_elem? jobs i ≡ some j → Ordered jobs by_key i)
      → Reach patterns render exchange concurrency by_key jobs st
      → Ends st
  Reach-Ends st positive ord r = Ends-measure (measure jobs st + 1) st (omega arith) positive ord r
