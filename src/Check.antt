-- ===== src/Check.antt =====
-- pkg/check/check.go: the expectations of a test against what the client saw and the origin logged.
-- A message is the case that it reports with the values that it prints; the wording is not modelled.
pub mod Order
pub mod Meaning
pub mod Verdicts
use mecone.Prelude.{
  ℕ, ◌+◌, Bool, true, false, not, Option, none, some, List, [], ◌∷◌, ◌++◌, map, Str, str, eq_str, ℤ,
  pos, eq_ℤ, err, ◌==◌, if◌then◌else◌, length, get_elem?,
}
use mecone.Strings.{cut_prefix, join}
use mecone.Http.{Header, values}
use mecone.Protocol.{LogEntry, Log, log_step}
use mecone.Protocol.Lines.{split_line}
use mecone.Results.{Outcome, pass, fail, inconclusive}
use mecone.TestDef.{Expect, Step, Test, is_wait, status_contains}

-- regexp.Compile: the matcher of a pattern, or none for an error
pub record Patterns : Type 0 where
  pub compile : Str → Option (Str → Bool)

-- type Observation struct; times are in nanoseconds
pub record Observation : Type 0 where
  pub status : ℤ
  pub header : Header
  pub trailer : Header
  pub interim : List ℤ
  pub body : Str
  pub proto : Str
  pub err : Option Str
  pub ttfb : ℕ
  pub total : ℕ
  pub reused : Bool

-- why a field does not satisfy an expectation line
pub data FieldProblem : Type 0 where
  missing : (name : Str) → FieldProblem
  invalid_pattern : (name pattern : Str) → FieldProblem
  no_match differs : (name got want : Str) → FieldProblem

-- the field section that a message speaks of
pub data Place : Type 0 where
  response trailer forwarded : Place

pub data Message : Type 0 where
  request_failed : Str → Message
  bad_status : ℤ → List ℤ → Message
  bad_body : Str → Str → Message
  bad_interim : List ℤ → List ℤ → Message
  not_forwarded never_reached : Message
  was_forwarded : ℕ → Message
  field : Place → FieldProblem → Message
  must_be_absent : Place → Str → List Str → Message

-- type Failure struct
pub record Failure : Type 0 where
  pub step : ℕ
  pub arrange : Bool
  pub message : Message

-- func checkStatus
unfoldable pub check_status : List ℤ → ℤ → List Message
check_status [] got = []
check_status (c ∷ cs) got =
    if status_contains (c ∷ cs) got then [] else bad_status got (c ∷ cs) ∷ []

-- func checkBody
unfoldable pub check_body : Option Str → Str → List Message
check_body none got = []
check_body (some want) got = if eq_str got want then [] else bad_body got want ∷ []

-- i < len(want) && g == want[i]
abbrev expected_at : List ℤ → ℕ → ℤ → Bool
expected_at want i g = elim (get_elem? want i) [ none ↦ false | some w ↦ eq_ℤ g w ]

-- the loop of `inOrder`
unfoldable pub in_order_from : List ℤ → ℕ → List ℤ → ℕ
in_order_from want i [] = i
in_order_from want i (g ∷ got) = in_order_from want (if expected_at want i g then i + 1 else i) got

-- func inOrder
unfoldable pub in_order : List ℤ → List ℤ → Bool
in_order got want = in_order_from want 0 got == length want

-- func checkInterim
unfoldable pub check_interim : List ℤ → List ℤ → List Message
check_interim want got = if in_order got want then [] else bad_interim got want ∷ []

-- func checkForwarded
unfoldable pub check_forwarded : Option Bool → List LogEntry → List Message
check_forwarded none entries = []
check_forwarded (some true) [] = not_forwarded ∷ []
check_forwarded (some true) (_ ∷ _) = []
check_forwarded (some false) [] = []
check_forwarded (some false) (e ∷ entries) = was_forwarded (length (e ∷ entries)) ∷ []

module _ (patterns : Patterns) where
  -- func matchPattern
  unfoldable pub match_pattern : Str → Str → Str → Option FieldProblem
  match_pattern name got pattern = elim (patterns.compile pattern) [
    | none ↦ some (invalid_pattern name pattern)
    | some re ↦ (if re got then none else some (no_match name got pattern))
  ]

  -- func MatchLine
  unfoldable pub match_line : Str → Header → Option FieldProblem
  match_line line h =
      let (name, want, has_value) = split_line line in
      let vals = values h name in
      let got = join vals (str ", ") in
      elim vals [
        | [] ↦ some (missing name)
        | _ ∷ _ ↦
            (if not has_value then none else elim (cut_prefix want (str "~")) [
              | some pattern ↦ match_pattern name got pattern
              | none ↦ (if eq_str got want then none else some (differs name got want))
            ])
      ]

  -- func matchAll
  unfoldable pub match_all : Place → List Str → Header → List Message
  match_all place [] h = []
  match_all place (line ∷ lines) h =
      let rest = match_all place lines h in
      elim (match_line line h) [ none ↦ rest | some problem ↦ field place problem ∷ rest ]

  -- func absentAll
  unfoldable pub absent_all : Place → List Str → Header → List Message
  absent_all place [] h = []
  absent_all place (name ∷ names) h =
      let rest = absent_all place names h in
      elim (values h name) [ [] ↦ rest | v ∷ vs ↦ must_be_absent place name (v ∷ vs) ∷ rest ]

  -- func checkForwardedHeaders
  unfoldable pub check_forwarded_headers : Expect → List LogEntry → List Message
  check_forwarded_headers e entries =
      if length e.forwarded_headers + length e.forwarded_headers_absent == 0
      then []
      else elim entries [
        | [] ↦ never_reached ∷ []
        | first ∷ _ ↦
            match_all forwarded e.forwarded_headers first.header
            ++ absent_all forwarded e.forwarded_headers_absent first.header
      ]

  -- the expectations of a request that got a response
  unfoldable pub check_all : Expect → Observation → List LogEntry → List Message
  check_all e o entries =
      check_status e.status o.status
      ++ (match_all response e.headers o.header
          ++ (absent_all response e.headers_absent o.header
              ++ (match_all trailer e.trailers o.trailer
                  ++ (check_body e.body o.body
                      ++ (check_interim e.interim o.interim
                          ++ (check_forwarded e.forwarded entries
                              ++ check_forwarded_headers e entries))))))

  -- func evaluateStep
  unfoldable pub evaluate_step : Option Expect → Observation → List LogEntry → List Message
  evaluate_step e o entries = elim o.err [
    | some reason ↦ request_failed reason ∷ []
    | none ↦ elim e [ none ↦ [] | some e' ↦ check_all e' o entries ]
  ]

  abbrev failure : ℕ → Bool → Message → Failure
  failure n arrange message = record { step = n; arrange = arrange; message = message }

  -- the loop of `Evaluate`, from the step at index `i`
  unfoldable pub evaluate_from : ℕ → List Step → List Observation → Log → List Failure
  evaluate_from i [] obs log = []
  evaluate_from i (s ∷ steps) [] log = []
  evaluate_from i (s ∷ steps) (o ∷ obs) log =
      let rest = evaluate_from (i + 1) steps obs log in
      if is_wait s
      then rest
      else map (failure (i + 1) s.arrange) (evaluate_step s.expect o (log_step log (pos (i + 1))))
        ++ rest

  -- func Evaluate
  unfoldable pub evaluate : Test → List Observation → Log → List Failure
  evaluate t obs log = evaluate_from 0 t.steps obs log

-- the loop of `Verdict`, with the outcome so far
unfoldable pub verdict_from : Outcome → List Failure → Outcome
verdict_from outcome [] = outcome
verdict_from outcome (f ∷ fails) =
    let rest = verdict_from fail fails in if f.arrange then inconclusive else rest

-- func Verdict
unfoldable pub verdict : List Failure → Outcome
verdict fails = verdict_from pass fails
