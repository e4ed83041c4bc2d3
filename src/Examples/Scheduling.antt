-- ===== src/Examples/Scheduling.antt =====
-- A run of two tests, one of which requires the other, of pkg/client.
use mecone.Prelude.{
  ℕ, zero, suc, ◌≤◌, ◌≡◌, ◌≢◌, refl, sym, ap, ◌∙◌, ◌↔◌, ◌⊎◌, inl, inr, Bool, true, false, none,
  some, List, [], ◌∷◌, Str, str, eq_str, ok, err, arith, get_elem?,
}
use mathlib.Core.Path.{subst}
use mecone.Maps
use mecone.Maps.{str_key}
use mecone.Proto.{h1}
use mecone.Protocol.Ids.{new_id}
use mecone.Origin.Store.{new_store, get}
use mecone.TestDef.{Test, level_must, runs_over}
use mecone.TestDef.Script.{script}
use mecone.Results.{error}
use mecone.Check.{Message}
use mecone.Client.{Job, zero_observation, plan, plan_from, plan_tests, job_key}
use mecone.Client.Exercise.{Exchange, Call, delete_script, exercise}
use mecone.Client.Exercise.Calls.{serve, exercise-serve, exercise-error_iff}
use mecone.Client.Schedule.{
  State, new_result, Reach, start, started, then_step, goes, advance, unstarted, begin, waiting,
}
use mecone.Client.Schedule.Slots.{some_eq, exercised, Reach-Fits}
use mecone.Client.Schedule.Requirements.{Sound, Reach-Sound}
use mecone.Client.Schedule.Progress.{Ordered, ordered}
use mecone.Client.Schedule.Progress.Completion.{Ends}
use mecone.Examples.Requests.{get_page, new_store-IsValid}
use mecone.Examples.Checks.{literal}
use mecone.Examples.Texts.{fixed_times}
use mecone.Examples.Definitions.{decoded_test}
use mecone.Examples.Suites.{again, chained_corpus, chained-IsLoaded, chained-accepted}
use mecone.Strings.{contains_rune}
use mecone.Corpus.{index_test}
use mecone.Client.Schedule.Progress.Plans.{NoBar, FromCorpus, plan-Ends}

abbrev page_test : Test
page_test = record {
  id = str "page";
  title = str "Page";
  level = level_must;
  refs = [];
  protocols = [];
  requires = [];
  responses = [];
  steps = get_page ∷ [];
  suite = [];
  group = [];
}

abbrev again_test : Test
again_test = record page_test { id = str "again"; requires = str "page" ∷ [] }

abbrev no_text : Message → Str
no_text m = []

-- The control plane answers, and the log of the origin is empty.
abbrev quiet : Exchange
quiet = record {
  bytes = 1 ∷ 2 ∷ [];
  put = λ id sc. none;
  send = λ id n s. zero_observation;
  sleeps = λ n. true;
  canceled = false;
  fetch = λ id. ok [];
}

abbrev page_job : Job
page_job = record { test = page_test; proto = h1 }

abbrev again_job : Job
again_job = record { test = again_test; proto = h1 }

abbrev two_jobs : List Job
two_jobs = page_job ∷ again_job ∷ []

abbrev two_keys : Maps.Map Str ℕ
two_keys = (str "page|h1", 0) ∷ (str "again|h1", 1) ∷ []

-- They are the plan of the two tests.
two_jobs-plan : plan (h1 ∷ []) (page_test ∷ again_test ∷ []) ≡ (two_jobs, two_keys)
unfolding plan plan_from plan_tests job_key Maps.insert eq_str
two_jobs-plan = refl

-- The network loses nothing.
abbrev all_arrive : Call → Bool
all_arrive c = true

exercise-serve_example :
    (get (new_id (1 ∷ 2 ∷ [])) (
        serve all_arrive
          (λ n. n)
          0
          (exercise literal no_text quiet (new_result page_job) page_test).1
          (new_store 60))
      ≡ none)
    ↔ (all_arrive (delete_script (new_id (1 ∷ 2 ∷ []))) ≡ true)
exercise-serve_example =
    exercise-serve literal no_text quiet (new_result page_job) page_test all_arrive (λ n. n)
      (new_store 60) new_store-IsValid refl refl

exercise-error_iff_example :
    ((exercise literal no_text quiet (new_result page_job) page_test).0.outcome ≡ error) ↔ (
      (quiet.put (new_id quiet.bytes) (script page_test) ≢ none)
      ⊎ (quiet.canceled ≡ true)
      ⊎ ((e : Str) × (quiet.fetch (new_id quiet.bytes) ≡ err e)))
exercise-error_iff_example =
    exercise-error_iff literal no_text quiet (new_result page_job) page_test

-- The first goroutine has begun.
abbrev begun : State
begun = record { phases = waiting [] ∷ unstarted ∷ []; held = 0; canceled = false }

begun-Reach : Reach literal no_text (λ i. quiet) 1 two_keys two_jobs begun
unfolding start advance begin runs_over
begun-Reach = then_step started (goes 0 page_job unstarted refl refl refl)

Reach-Fits_example : (begun.held ≡ exercised begun.phases) × (exercised begun.phases ≤ 1)
Reach-Fits_example = Reach-Fits literal no_text (λ i. quiet) 1 two_keys two_jobs begun begun-Reach

Reach-Sound_example : Sound two_keys begun.phases page_job (waiting [])
Reach-Sound_example =
    Reach-Sound literal no_text (λ i. quiet) 1 two_keys two_jobs begun begun-Reach 0 page_job
      (waiting []) refl refl

page-Ordered : Ordered two_jobs two_keys 0
page-Ordered = ordered page_job refl (λ dep d m k. absurd m)

again-Ordered : Ordered two_jobs two_keys 1
unfolding Maps.lookup job_key eq_str
again-Ordered = ordered again_job refl (λ dep d m k. elim m [
  | inr none_left ↦ absurd none_left
  | inl same ↦
      subst (Ordered two_jobs two_keys)
        (some_eq (sym (ap (λ x. Maps.lookup (job_key x h1) two_keys) (sym same)) ∙ k)) page-Ordered
])

two_jobs-Ordered : (i : ℕ) (j : Job) → get_elem? two_jobs i ≡ some j → Ordered two_jobs two_keys i
two_jobs-Ordered zero j e = page-Ordered
two_jobs-Ordered (suc zero) j e = again-Ordered
two_jobs-Ordered (suc (suc i)) j e = absurd (cc)

page-FromCorpus : FromCorpus chained_corpus page_test
unfolding index_test Maps.lookup Maps.insert eq_str
page-FromCorpus = (decoded_test, inl refl, refl, refl)

again-FromCorpus : FromCorpus chained_corpus again_test
unfolding index_test Maps.lookup Maps.insert eq_str
again-FromCorpus = (again, inr (inl refl), refl, refl)

h1-NoBar : NoBar h1
unfolding contains_rune
h1-NoBar = refl

abbrev both_tests : List Test
both_tests = page_test ∷ again_test ∷ []

plan-Ends_example :
    Ends literal no_text
      (λ i. quiet)
      1
      (plan (h1 ∷ []) both_tests).1
      (plan (h1 ∷ []) both_tests).0
      (start (plan (h1 ∷ []) both_tests).0)
plan-Ends_example =
    plan-Ends fixed_times literal no_text (λ i. quiet) 1 chained_corpus (h1 ∷ []) both_tests
      (start (plan (h1 ∷ []) both_tests).0) chained-IsLoaded chained-accepted (h1-NoBar, tt)
      (page-FromCorpus, (again-FromCorpus, tt)) (omega arith) started
