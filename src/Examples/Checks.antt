-- ===== src/Examples/Checks.antt =====
-- Observations, failures and verdicts of pkg/check.
use mecone.Prelude.{
  ℕ, ◌+◌, ◌≡◌, ◌≢◌, ◌↔◌, true, false, none, some, List, [], ◌∷◌, str, eq_str, pos, get_elem?,
}
use mecone.TestDef.{Expect, Step}
use mecone.Protocol.{log_step}
use mecone.Results.{pass, fail, inconclusive}
use mecone.TestDef.{is_wait}
use mecone.Check.{
  Patterns, Observation, Failure, was_forwarded, never_reached, evaluate_step, evaluate, verdict,
  in_order,
}
use mecone.Check.Order.{Subsequence, in_order_iff}
use mecone.Check.Meaning.{Passes, evaluate_step_iff}
use mecone.Check.Verdicts.{FailedArrange, verdict_iff, verdict-evaluate}
use mecone.Examples.Requests.{page_test}

-- Patterns that match only themselves.
abbrev pub literal : Patterns
literal = record { compile = λ p. some (eq_str p) }

abbrev seen : Observation
seen = record {
  status = pos 200;
  header = (str "Etag", str "\"v1\"" ∷ []) ∷ [];
  trailer = [];
  interim = pos 103 ∷ [];
  body = str "hello";
  proto = str "h1";
  err = none;
  ttfb = 1;
  total = 2;
  reused = false;
}

abbrev wanted : Expect
wanted = record {
  status = pos 200 ∷ pos 304 ∷ [];
  headers = str "Etag: ~\"v1\"" ∷ [];
  headers_absent = str "Age" ∷ [];
  body = some (str "hello");
  interim = pos 103 ∷ [];
  trailers = [];
  forwarded = some false;
  forwarded_headers = [];
  forwarded_headers_absent = [];
}

in_order_iff_example :
    (in_order (pos 100 ∷ pos 103 ∷ []) (pos 103 ∷ []) ≡ true)
    ↔ Subsequence (pos 103 ∷ []) (pos 100 ∷ pos 103 ∷ [])
in_order_iff_example = in_order_iff (pos 100 ∷ pos 103 ∷ []) (pos 103 ∷ [])

evaluate_step_iff_example :
    (evaluate_step literal (some wanted) seen [] ≡ []) ↔ Passes literal (some wanted) seen []
evaluate_step_iff_example = evaluate_step_iff literal (some wanted) seen []

abbrev two_failures : List Failure
two_failures =
    record { step = 1; arrange = false; message = never_reached }
    ∷ record { step = 2; arrange = true; message = was_forwarded 1 }
    ∷ []

verdict_iff_example :
    ((verdict two_failures ≡ inconclusive) ↔ FailedArrange two_failures)
    × ((verdict two_failures ≡ pass) ↔ (two_failures ≡ []))
    × ((verdict two_failures ≡ fail) ↔ ((two_failures ≢ []) × ¬ FailedArrange two_failures))
verdict_iff_example = verdict_iff two_failures

verdict-evaluate_example : (verdict (evaluate literal page_test (seen ∷ []) []) ≡ pass) ↔ (
    (k : ℕ) (s : Step) (o : Observation)
    → get_elem? page_test.steps k ≡ some s
    → get_elem? (seen ∷ []) k ≡ some o
    → is_wait s ≡ false
    → Passes literal s.expect o (log_step [] (pos (k + 1))))
verdict-evaluate_example = verdict-evaluate literal page_test (seen ∷ []) []
