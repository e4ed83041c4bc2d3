-- ===== src/Client/Schedule/Slots.antt =====
-- pkg/client/runner.go: theorems about the semaphore of `execute`.
use mecone.Prelude.{
  ℕ, zero, suc, ◌+◌, ◌≤◌, ◌≡◌, refl, inl, inr, some, List, [], ◌∷◌, Str, Bool-cases, Option-cases,
  arith, ltb, get_elem?, set,
}
use mecone.Maps
use mecone.Maps.{Map, str_key}
use mathlib.Core.Path.{subst}
use mecone.Results.{TestResult}
use mecone.Check.{Patterns, Message}
use mecone.Client.{Job, job_key}
use mecone.Client.Exercise.{Exchange, exercise}
use mecone.Client.Schedule.{
  Phase, unstarted, waiting, holding, ended, State, begin, awaited, await, moved, taken, released,
  new_result, advance, goes, gives_up, cancels, all_unstarted, start, Reach, started, then_step,
}

pub some_eq : {A : Type 0} {x y : A} → some x ≡ some y → x ≡ y
some_eq e = cc

abbrev pub slot : Phase → ℕ
slot holding = 1
slot _ = 0

-- How many jobs are being exercised.
abbrev pub exercised : List Phase → ℕ
exercised [] = 0
exercised (ph ∷ phases) = slot ph + exercised phases

pub exercised-set :
    (phases : List Phase) (i : ℕ) (old new : Phase)
    → get_elem? phases i ≡ some old
    → exercised (set phases i new) + slot old ≡ exercised phases + slot new
exercised-set [] i old new e = absurd (cc)
exercised-set (ph ∷ phases) zero old new e = let same : ph ≡ old = cc in rw same (omega arith)
exercised-set (ph ∷ phases) (suc i) old new e =
    let rest = exercised-set phases i old new e in omega arith

begin-slot : (j : Job) → slot (begin j) ≡ 0
unfolding begin
begin-slot j = ground arith

await-slot :
    (by_key : Map Str ℕ) (phases : List Phase) (j : Job) (dep : Str) (deps : List Str) (ph : Phase)
    → await by_key phases j dep deps ≡ some ph
    → slot ph ≡ 0
unfolding await awaited
await-slot by_key phases j dep deps ph e =
    elim (Option-cases (Maps.lookup (job_key dep j.proto) by_key)) [
      | inl n ↦ ground arith
      | inr (d, k) ↦ elim (Option-cases (get_elem? phases d)) [
        | inl n ↦ absurd (ground arith)
        | inr (unstarted, g) ↦ absurd (ground arith)
        | inr (waiting w, g) ↦ absurd (ground arith)
        | inr (holding, g) ↦ absurd (ground arith)
        | inr (ended r, g) ↦ ground arith
      ]
    ]

all_unstarted-exercised : (jobs : List Job) → exercised (all_unstarted jobs) ≡ 0
all_unstarted-exercised [] = refl
all_unstarted-exercised (j ∷ jobs) = let rest = all_unstarted-exercised jobs in omega arith

module _ (patterns : Patterns) (render : Message → Str) (exchange : ℕ → Exchange) (concurrency : ℕ)
    (by_key : Map Str ℕ) where
  -- The tokens are those of the jobs being exercised, and fit in the channel.
  abbrev pub Fits : State → Type 0
  Fits st = (st.held ≡ exercised st.phases) × (st.held ≤ concurrency)

  Fits-moved :
      (st : State) (i : ℕ) (old new : Phase)
      → get_elem? st.phases i ≡ some old
      → slot old ≡ 0
      → slot new ≡ 0
      → Fits st
      → Fits (moved st i new)
  Fits-moved st i old new e a b (same, le) =
      let k = exercised-set st.phases i old new e in (omega arith, le)

  Fits-released :
      (st : State) (i : ℕ) (r : TestResult)
      → get_elem? st.phases i ≡ some holding
      → Fits st
      → Fits (released st i r)
  Fits-released st i r e (same, le) =
      let k = exercised-set st.phases i holding (ended r) e in (omega arith, omega arith)

  advance-Fits :
      (st st' : State) (i : ℕ) (j : Job) (ph : Phase)
      → get_elem? st.phases i ≡ some ph
      → Fits st
      → advance patterns render exchange concurrency by_key st i j ph ≡ some st'
      → Fits st'
  unfolding advance
  advance-Fits st st' i j unstarted g f e =
      subst Fits (some_eq e) (Fits-moved st i unstarted (begin j) g refl (begin-slot j) f)
  advance-Fits st st' i j (waiting (dep ∷ deps)) g f e =
      elim (Option-cases (await by_key st.phases j dep deps)) [
        | inl n ↦ absurd (ground arith)
        | inr (ph, a) ↦
            let same : moved st i ph ≡ st' = some_eq (ground arith) in
            subst Fits same (
              Fits-moved st i (waiting (dep ∷ deps)) ph g refl
                (await-slot by_key st.phases j dep deps ph a) f)
      ]
  advance-Fits st st' i j (waiting []) g (same, le) e =
      elim (Bool-cases (ltb st.held concurrency)) [
        | inr full ↦ absurd (ground arith)
        | inl room ↦
            let k = exercised-set st.phases i (waiting []) holding g in
            let it : taken st i ≡ st' = some_eq (ground arith) in
            subst Fits it (omega arith, ground arith)
      ]
  advance-Fits st st' i j holding g f e =
      subst Fits (some_eq e)
        (Fits-released st i (exercise patterns render (exchange i) (new_result j) j.test).0 g f)
  advance-Fits st st' i j (ended r) g f e = absurd (cc)

  Fits-Reach :
      (jobs : List Job) (st : State)
      → Reach patterns render exchange concurrency by_key jobs st
      → Fits st
  unfolding start
  Fits-Reach jobs st started = let z = all_unstarted-exercised jobs in (omega arith, omega arith)
  Fits-Reach jobs st' (then_step {st} r (goes i j ph a g e)) =
      advance-Fits st st' i j ph g (Fits-Reach jobs st r) e
  Fits-Reach jobs st' (then_step {st} r (gives_up i j a g c)) =
      Fits-moved st i (waiting []) (ended _) g refl refl (Fits-Reach jobs st r)
  Fits-Reach jobs st' (then_step {st} r (cancels c)) = Fits-Reach jobs st r

  -- In every state that a run can reach, whatever the order of its steps, the semaphore holds one
  -- token for each job that is being exercised, and these are never more than the concurrency.
  pub Reach-Fits :
      (jobs : List Job) (st : State)
      → Reach patterns render exchange concurrency by_key jobs st
      → (st.held ≡ exercised st.phases) × (exercised st.phases ≤ concurrency)
  Reach-Fits jobs st r = let f = Fits-Reach jobs st r in (f.0, omega arith)
