-- ===== src/Results.antt =====
-- pkg/results/results.go: the record of a run. Start and end times and the encodings are not
-- modelled; a timing is a number of microseconds where the source has a float of milliseconds.
use mecone.Prelude.{ℕ, ◌≡◌, ◌↔◌, Bool, true, false, List, ◌++◌, Str, str, ℤ, arith}

-- type Outcome
pub data Outcome : Type 0 where
  pass fail inconclusive skipped error : Outcome

-- the strings of the constants of type Outcome
abbrev pub outcome_text : Outcome → Str
outcome_text pass = str "pass"
outcome_text fail = str "fail"
outcome_text inconclusive = str "inconclusive"
outcome_text skipped = str "skipped"
outcome_text error = str "error"

-- prev != r.Outcome, negated
unfoldable pub eq_outcome : Outcome → Outcome → Bool
eq_outcome pass pass = true
eq_outcome fail fail = true
eq_outcome inconclusive inconclusive = true
eq_outcome skipped skipped = true
eq_outcome error error = true
eq_outcome _ _ = false

pub eq_outcome_iff : (a b : Outcome) → (eq_outcome a b ≡ true) ↔ (a ≡ b)
unfolding eq_outcome
eq_outcome_iff a b = ground arith

-- type Step struct
pub record StepRecord : Type 0 where
  pub step : ℕ
  pub method : Str
  pub path : Str
  pub status : ℤ
  pub forwarded : Bool
  pub reused : Bool
  pub ttfb : ℕ
  pub total : ℕ
  pub bytes : ℕ
  pub error : Str

-- type Result struct
pub record TestResult : Type 0 where
  pub id : Str
  pub suite : Str
  pub group : Str
  pub level : Str
  pub refs : List Str
  pub client_proto : Str
  pub origin_proto : Str
  pub outcome : Outcome
  pub messages : List Str
  pub steps : List StepRecord

-- func (r Result) Key
unfoldable pub key : TestResult → Str
key r = r.id ++ (str " [" ++ (r.client_proto ++ str "]"))

-- type Run struct
pub record Run : Type 0 where
  pub name : Str
  pub target : Str
  pub protocols : List Str
  pub error : Str
  pub results : List TestResult

-- type Report struct
pub record Report : Type 0 where
  pub notice : Str
  pub runs : List Run
