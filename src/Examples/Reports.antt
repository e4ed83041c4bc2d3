-- ===== src/Examples/Reports.antt =====
-- Summaries, scores, changes and rankings of pkg/report.
use mecone.Prelude.{
  ◌+◌, ◌≤◌, ◌≡◌, ◌≢◌, refl, ◌↔◌, true, none, some, List, [], ◌∷◌, Str, str, eq_str, arith, Any,
}
use mecone.TestDef.{level_must}
use mecone.Maps
use mecone.Results.{Outcome, pass, fail, skipped, TestResult, Run, Report, key}
use mecone.Report.{Summary, Change, empty_summary, summarize, score, scored}
use mecone.Report
use mecone.Report.Scores.{IsSound, counted, add_all, add_all-counted, score-le, score-full}
use mecone.Report.Suites.{new_suites, starts, summarize-suites}
use mecone.Report.Changes.{compare, last_outcome, compare-changed}
use mecone.Report.Ranking.{run_label, by_score_desc, last_labelled}

abbrev result : Str → Str → Outcome → TestResult
result id suite outcome = record {
  id = id;
  suite = suite;
  group = str "g";
  level = level_must;
  refs = [];
  client_proto = str "h1";
  origin_proto = str "h1";
  outcome = outcome;
  messages = [];
  steps = [];
}

abbrev base_run : Run
base_run = record {
  name = str "proxy";
  target = str "http://proxy";
  protocols = str "h1" ∷ [];
  error = [];
  results = result (str "a") (str "cache") pass ∷ result (str "b") (str "ranges") fail ∷ [];
}

abbrev new_run : Run
new_run = record base_run {
  results =
      result (str "a") (str "cache") fail
      ∷ result (str "b") (str "ranges") fail
      ∷ result (str "c") (str "cache") skipped
      ∷ [];
}

summarize-suites_example : summarize new_run ≡ (
  add_all (empty_summary (str "overall")) new_run.results,
  starts new_run.results (new_suites [] new_run.results),
)
summarize-suites_example = summarize-suites new_run

empty-IsSound : IsSound (empty_summary (str "overall"))
empty-IsSound = record { must = omega arith; should = omega arith; may = omega arith }

add_all-counted_example :
    (counted (add_all (empty_summary (str "overall")) new_run.results)
      ≡ counted (empty_summary (str "overall")) + 3)
    × IsSound (add_all (empty_summary (str "overall")) new_run.results)
add_all-counted_example =
    add_all-counted (empty_summary (str "overall")) new_run.results empty-IsSound

abbrev half : Summary
half = record (empty_summary (str "cache")) {
  must = record { passed = 1; total = 2 };
  may = record { passed = 3; total = 3 };
}

half-IsSound : IsSound half
half-IsSound = record { must = omega arith; should = omega arith; may = omega arith }

score-le_example : score half ≤ 100
score-le_example = score-le half half-IsSound

half-scored : scored half ≡ true
unfolding scored
half-scored = refl

score-full_example : (score half ≡ 100) ↔ (
    (half.must.passed ≡ half.must.total)
    × (half.should.passed ≡ half.should.total)
    × (half.may.passed ≡ half.may.total))
score-full_example = score-full half half-IsSound half-scored

abbrev turned : Change
turned = record { key = key (result (str "a") (str "cache") pass); from = pass; to = fail }

compare-changed_example :
    Any (λ d. d ≡ turned) (compare base_run new_run)
    ↔ Any
        (λ r.
          (key r ≡ turned.key)
          × (r.outcome ≡ turned.to)
          × (last_outcome none (key r) base_run.results ≡ some turned.from)
          × (turned.from ≢ turned.to))
        new_run.results
compare-changed_example = compare-changed base_run new_run turned

abbrev both_runs : List Run
both_runs = by_score_desc (new_run ∷ base_run ∷ [])

abbrev report_of : Run → Report
report_of run = record { notice = []; runs = run ∷ [] }

labelled : last_labelled none (run_label new_run) (base_run ∷ []) ≡ some base_run
unfolding run_label eq_str
labelled = refl
