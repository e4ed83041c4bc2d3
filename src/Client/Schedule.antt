-- ===== src/Client/Schedule.antt =====
-- pkg/client/runner.go: `schedule`, the goroutine of a job, and `execute`, which starts one for each
-- job and waits for them. A goroutine is where it stands in `schedule`; the semaphore is a channel that
-- holds as many tokens as jobs may be exercised at a time. Any goroutine that can go on may do so
-- next, and the run may be cancelled at any time.
pub mod Changes
pub mod Progress
pub mod Requirements
pub mod Slots
use mecone.Prelude.{
  ℕ, ◌+◌, ◌-◌, ◌≡◌, Bool, true, false, not, Option, none, some, List, [], ◌∷◌, ◌++◌, Str, str, ltb,
  if◌then◌else◌, get_elem?, set,
}
use mecone.Maps
use mecone.Maps.{Map, str_key}
use mecone.TestDef.{runs_over}
use mecone.Results.{pass, skipped, error, eq_outcome, outcome_text, TestResult}
use mecone.Check.{Patterns, Message}
use mecone.Client.{Job, job_key}
use mecone.Client.Exercise.{Exchange, with_outcome, exercise}

-- Where a goroutine stands: before `schedule`, at the loop with the requirements that are left, inside
-- `exercise`, or after it with j.done closed.
pub data Phase : Type 0 where
  unstarted : Phase
  waiting : (deps : List Str) → Phase
  holding : Phase
  ended : TestResult → Phase

-- the jobs' phases, the tokens in the semaphore, and whether the context is cancelled
pub record State : Type 0 where
  pub phases : List Phase
  pub held : ℕ
  pub canceled : Bool

-- what `schedule` starts a result with; the empty outcome of the literal has no counterpart, and every
-- path sets one
unfoldable pub new_result : Job → TestResult
new_result j = record {
  id = j.test.id;
  suite = j.test.suite;
  group = j.test.group;
  level = j.test.level;
  refs = j.test.refs;
  client_proto = j.proto;
  origin_proto = [];
  outcome = error;
  messages = [];
  steps = [];
}

abbrev pub skip : Job → Str → Phase
skip j why = ended (with_outcome (new_result j) skipped (why ∷ []))

-- !t.RunsOver(j.proto)
unfoldable pub begin : Job → Phase
begin j =
    if not (runs_over j.test j.proto)
    then skip j (str "not applicable over " ++ j.proto)
    else waiting j.test.requires

abbrev pub not_passed : Str → TestResult → Str
not_passed dep r =
    str "requires "
    ++ (dep ++ (str ", which did not pass (" ++ (outcome_text r.outcome ++ str ")")))

abbrev pub not_selected : Str → Str
not_selected dep = str "requires " ++ (dep ++ str ", which was not selected")

-- the test of d.result.Outcome, once d.done is closed; none as long as it is not
unfoldable pub awaited : Job → Str → List Str → Phase → Option Phase
awaited j dep deps (ended r) =
    some (if eq_outcome r.outcome pass then waiting deps else skip j (not_passed dep r))
awaited j dep deps _ = none

-- one round of the loop over t.Requires, where the goroutine can go on
unfoldable pub await : Map Str ℕ → List Phase → Job → Str → List Str → Option Phase
await by_key phases j dep deps = elim (Maps.lookup (job_key dep j.proto) by_key) [
  | none ↦ some (skip j (not_selected dep))
  | some d ↦ elim (get_elem? phases d) [ none ↦ none | some ph ↦ awaited j dep deps ph ]
]

abbrev pub moved : State → ℕ → Phase → State
moved st i ph = record st { phases = set st.phases i ph }

-- sem <- struct{}{}
abbrev pub taken : State → ℕ → State
taken st i = record st { phases = set st.phases i holding; held = st.held + 1 }

-- <-sem
abbrev pub released : State → ℕ → TestResult → State
released st i r = record st { phases = set st.phases i (ended r); held = st.held - 1 }

-- the state in which `execute` has started the goroutines
abbrev pub all_unstarted : List Job → List Phase
all_unstarted [] = []
all_unstarted (j ∷ jobs) = unstarted ∷ all_unstarted jobs

unfoldable pub start : List Job → State
start jobs = record { phases = all_unstarted jobs; held = 0; canceled = false }

-- `exchange i` is what the network does while the job at index `i` is exercised.
module _ (patterns : Patterns) (render : Message → Str) (exchange : ℕ → Exchange) (concurrency : ℕ)
    (by_key : Map Str ℕ) where
  -- the next step of the goroutine of a job, none while it cannot go on
  unfoldable pub advance : State → ℕ → Job → Phase → Option State
  advance st i j unstarted = some (moved st i (begin j))
  advance st i j (waiting (dep ∷ deps)) = elim (await by_key st.phases j dep deps) [
    | none ↦ none
    | some ph ↦ some (moved st i ph)
  ]
  advance st i j (waiting []) = if ltb st.held concurrency then some (taken st i) else none
  advance st i j holding =
      some (released st i (exercise patterns render (exchange i) (new_result j) j.test).0)
  advance st i j (ended r) = none

  -- One step of a run: a goroutine goes on, one that waits for a slot sees that the run is cancelled,
  -- or the run is cancelled.
  pub data Move (jobs : List Job) (st : State) : State → Type 0 where
    goes :
        {st' : State} (i : ℕ) (j : Job) (ph : Phase)
        → get_elem? jobs i ≡ some j
        → get_elem? st.phases i ≡ some ph
        → advance st i j ph ≡ some st'
        → Move jobs st st'
    gives_up :
        (i : ℕ) (j : Job)
        → get_elem? jobs i ≡ some j
        → get_elem? st.phases i ≡ some (waiting [])
        → st.canceled ≡ true
        → Move jobs st (
            moved st i
              (ended (with_outcome (new_result j) error (str "canceled before start" ∷ []))))
    cancels : st.canceled ≡ false → Move jobs st (record st { canceled = true })

  pub data Reach (jobs : List Job) : State → Type 0 where
    started : Reach jobs (start jobs)
    then_step : {st st' : State} → Reach jobs st → Move jobs st st' → Reach jobs st'

-- the results that `execute` returns, once every goroutine has ended
unfoldable pub collect : List Phase → Option (List TestResult)
collect [] = some []
collect (ended r ∷ phases) = elim (collect phases) [ none ↦ none | some rs ↦ some (r ∷ rs) ]
collect (_ ∷ phases) = none
