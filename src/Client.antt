-- ===== src/Client.antt =====
-- pkg/client/runner.go: the options, the plan of the jobs, and the steps of one test. A request is
-- package `net/http`'s: `send` gives what the client observes of it. The requests of a parallel group
-- write to their own places of the observations; they are taken in the order in which they are started.
pub mod Control
pub mod Exercise
pub mod Groups
pub mod Schedule
pub mod Steps
use mecone.Prelude.{
  ℕ, zero, suc, ◌+◌, ◌-◌, ◌/◌, Bool, false, ◌&&◌, not, none, some, List, [], ◌∷◌, ◌++◌, Str, str,
  eq_str, ℤ, pos, leb_ℤ, err, ltb, if◌then◌else◌, length, get_elem?, set,
}
use mecone.Maps
use mecone.Maps.{Map, str_key}
use mecone.Protocol.{Log, log_step}
use mecone.Proto.{h1}
use mecone.TestDef.{Step, Test, is_wait}
use mecone.Results.{StepRecord}
use mecone.Check.{Observation}

-- the part of Options that defaults apply to; a timeout is in nanoseconds
pub record Options : Type 0 where
  pub protocols : List Str
  pub concurrency : ℤ
  pub timeout : ℤ

abbrev pub default_concurrency : ℕ
default_concurrency = 8

abbrev pub default_timeout : ℕ
default_timeout = 30_000_000_000

-- func withDefaults
unfoldable pub with_defaults : Options → Options
with_defaults o = record {
  protocols = elim o.protocols [ [] ↦ h1 ∷ [] | p ∷ ps ↦ p ∷ ps ];
  concurrency = (if leb_ℤ o.concurrency (pos 0) then pos default_concurrency else o.concurrency);
  timeout = (if leb_ℤ o.timeout (pos 0) then pos default_timeout else o.timeout);
}

-- func jobKey
unfoldable pub job_key : Str → Str → Str
job_key id p = id ++ (str "|" ++ p)

-- type job struct, before it is run; the index of a job stands for its pointer
pub record Job : Type 0 where
  pub test : Test
  pub proto : Str

-- the loops of `plan`, over the tests for one protocol and over the protocols
unfoldable pub plan_tests : Str → List Test → List Job × Map Str ℕ → List Job × Map Str ℕ
unfolding job_key
plan_tests p [] acc = acc
plan_tests p (t ∷ tests) (jobs, by_key) =
    plan_tests p tests (
      jobs ++ record { test = t; proto = p } ∷ [],
      Maps.insert (job_key t.id p) (length jobs) by_key,
    )

unfoldable pub plan_from : List Str → List Test → List Job × Map Str ℕ → List Job × Map Str ℕ
unfolding plan_tests
plan_from [] tests acc = acc
plan_from (p ∷ protocols) tests acc = plan_from protocols tests (plan_tests p tests acc)

-- func (r *Runner) plan
unfoldable pub plan : List Str → List Test → List Job × Map Str ℕ
unfolding plan_from
plan protocols tests = plan_from protocols tests ([], [])

-- check.Observation{}
abbrev pub zero_observation : Observation
zero_observation = record {
  status = pos 0;
  header = [];
  trailer = [];
  interim = [];
  body = [];
  proto = [];
  err = none;
  ttfb = 0;
  total = 0;
  reused = false;
}

-- make([]check.Observation, len(steps))
abbrev pub blank : List Step → List Observation
blank [] = []
blank (s ∷ steps) = zero_observation ∷ blank steps

-- the loop of `parallelEnd`, over the steps from `start` on
unfoldable pub parallel_end_from : ℕ → List Step → ℕ
parallel_end_from end [] = end
parallel_end_from end (s ∷ steps) =
    let next = parallel_end_from (end + 1) steps in
    if not (is_wait s) && s.parallel then next else end

abbrev pub drop : {A : Type 0} → ℕ → List A → List A
drop zero xs = xs
drop (suc n) [] = []
drop (suc n) (x ∷ xs) = drop n xs

-- func parallelEnd
unfoldable pub parallel_end : List Step → ℕ → ℕ
unfolding parallel_end_from
parallel_end steps start = parallel_end_from start (drop start steps)

-- What `sendSteps` has at hand: the observations by step, and the numbers of the steps whose requests
-- were started, in their order. The goroutines of a parallel group are started in the order of its
-- steps.
pub record Sending : Type 0 where
  pub observations : List Observation
  pub requests : List ℕ

-- `send` observes the request of a step, by its number; `sleeps` says of the wait at an index whether
-- it lasts to its end, before the run is cancelled.
module _ (send : ℕ → Step → Observation) (sleeps : ℕ → Bool) where
  -- obs[n] = r.send(…, n+1, steps[n])
  abbrev pub send_one : Sending → ℕ → Step → Sending
  send_one st n s = record {
    observations = set st.observations n (send (n + 1) s);
    requests = st.requests ++ (n + 1) ∷ [];
  }

  abbrev pub send_at : List Step → Sending → ℕ → Sending
  send_at steps st n = elim (get_elem? steps n) [ none ↦ st | some s ↦ send_one st n s ]

  -- func (r *Runner) sendParallel, of the `count` steps from `start` on
  unfoldable pub send_parallel : List Step → Sending → ℕ → ℕ → Sending
  send_parallel steps st start zero = st
  send_parallel steps st start (suc count) =
      send_parallel steps (send_at steps st start) (start + 1) count

  -- func (r *Runner) sendStepGroup: what was sent, and the index to go on with
  unfoldable pub send_step_group : List Step → Sending → ℕ → Sending × ℕ
  send_step_group steps st i = elim (get_elem? steps i) [
    | none ↦ (st, length steps)
    | some s ↦
        (if is_wait s
          then (st, (if sleeps i then i + 1 else length steps))
          else if s.parallel
          then (send_parallel steps st i (parallel_end steps i - i), parallel_end steps i)
          else (send_one st i s, i + 1))
  ]

  -- the loop of `sendSteps`; the fuel is the number of steps
  unfoldable pub send_from : ℕ → List Step → Sending → ℕ → Sending
  send_from zero steps st i = st
  send_from (suc fuel) steps st i =
      let (st', j) = send_step_group steps st i in
      let rest = send_from fuel steps st' j in if ltb i (length steps) then rest else st

  -- func (r *Runner) sendSteps
  unfoldable pub send_steps : List Step → Sending
  send_steps steps =
      send_from (length steps) steps (record { observations = blank steps; requests = [] }) 0

abbrev or_get : Str → Str
or_get method = if eq_str method [] then str "GET" else method

-- func stepRecord; a timing is in microseconds
unfoldable pub step_record : ℕ → Step → Observation → Log → StepRecord
step_record n s o log = record {
  step = n;
  method = or_get s.method;
  path = s.path;
  status = o.status;
  forwarded = ltb 0 (length (log_step log (pos n)));
  reused = o.reused;
  ttfb = o.ttfb / 1000;
  total = o.total / 1000;
  bytes = length o.body;
  error = elim o.err [ none ↦ [] | some reason ↦ reason ];
}

-- the loop of `stepRecords`, from the step at index `i`
unfoldable pub step_records_from : ℕ → List Step → List Observation → Log → List StepRecord
unfolding step_record
step_records_from i [] obs log = []
step_records_from i (s ∷ steps) [] log = []
step_records_from i (s ∷ steps) (o ∷ obs) log =
    let rest = step_records_from (i + 1) steps obs log in
    if is_wait s then rest else step_record (i + 1) s o log ∷ rest

-- func stepRecords
unfoldable pub step_records : List Step → List Observation → Log → List StepRecord
unfolding step_records_from
step_records steps obs log = step_records_from 0 steps obs log
