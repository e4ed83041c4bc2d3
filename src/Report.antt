-- ===== src/Report.antt =====
-- pkg/report/report.go: tallies, summaries and scores. Rates in percent are floats and not modelled.
pub mod Scores
pub mod Suites
pub mod Changes
pub mod Ranking
pub mod Rows
pub mod Wrapping
use mecone.Prelude.{
  ℕ, zero, suc, ◌+◌, ◌*◌, ◌/◌, Bool, none, some, List, [], ◌∷◌, ◌++◌, Str, str, eq_str, ltb, ◌==◌,
  if◌then◌else◌, length,
}
use mecone.Maps
use mecone.Maps.{Map, str_key}
use mecone.TestDef.{level_must, level_should, level_may}
use mecone.Results.{Outcome, pass, inconclusive, skipped, error, TestResult, Run}

abbrev pub may_weight : ℕ
may_weight = 1

abbrev pub should_weight : ℕ
should_weight = 4

abbrev pub must_weight : ℕ
must_weight = 10

-- type Tally struct
pub record Tally : Type 0 where
  pub passed : ℕ
  pub total : ℕ

-- type Summary struct
pub record Summary : Type 0 where
  pub name : Str
  pub must : Tally
  pub should : Tally
  pub may : Tally
  pub info : ℕ
  pub inconclusive : ℕ
  pub skipped : ℕ
  pub errors : ℕ

abbrev no_tally : Tally
no_tally = record { passed = 0; total = 0 }

-- Summary{Name: name}
abbrev pub empty_summary : Str → Summary
empty_summary name = record {
  name = name;
  must = no_tally;
  should = no_tally;
  may = no_tally;
  info = 0;
  inconclusive = 0;
  skipped = 0;
  errors = 0;
}

-- t.Total++, and t.Passed++ for a pass
unfoldable pub count : Outcome → Tally → Tally
count pass t = record { passed = t.passed + 1; total = t.total + 1 }
count _ t = record t { total = t.total + 1 }

-- the part of `add` that counts a conclusive result at its level
unfoldable pub add_conclusive : TestResult → Summary → Summary
unfolding count
add_conclusive r s =
    if eq_str r.level level_must
    then record s { must = count r.outcome s.must }
    else if eq_str r.level level_should
    then record s { should = count r.outcome s.should }
    else if eq_str r.level level_may
    then record s { may = count r.outcome s.may }
    else record s { info = s.info + 1 }

abbrev by_outcome : Outcome → TestResult → Summary → Summary
by_outcome skipped r s = record s { skipped = s.skipped + 1 }
by_outcome error r s = record s { errors = s.errors + 1 }
by_outcome inconclusive r s = record s { inconclusive = s.inconclusive + 1 }
by_outcome _ r s = add_conclusive r s

-- func (s *Summary) add
unfoldable pub add : Summary → TestResult → Summary
unfolding add_conclusive
add s r = by_outcome r.outcome r s

-- func WeightedScore
unfoldable pub weighted_score : Tally → Tally → Tally → ℕ
weighted_score must should may =
    let passed =
      must_weight * must.passed + should_weight * should.passed + may_weight * may.passed in
    let tested = must_weight * must.total + should_weight * should.total + may_weight * may.total in
    if tested == 0 then 0 else 100 * passed / tested

-- func (s Summary) Score
unfoldable pub score : Summary → ℕ
unfolding weighted_score
score s = weighted_score s.must s.should s.may

-- func (s Summary) Scored
unfoldable pub scored : Summary → Bool
scored s = ltb 0 (s.must.total + s.should.total + s.may.total)

-- suites[i].add(r)
abbrev pub update : List Summary → ℕ → TestResult → List Summary
update [] i r = []
update (s ∷ suites) zero r = add s r ∷ suites
update (s ∷ suites) (suc i) r = s ∷ update suites i r

-- the loop of `Summarize`: the overall summary, the suites' index and their summaries
unfoldable pub summarize_from :
    Summary → Map Str ℕ → List Summary → List TestResult → Summary × List Summary
summarize_from overall index suites [] = (overall, suites)
summarize_from overall index suites (r ∷ results) = elim (Maps.lookup r.suite index) [
  | some i ↦ summarize_from (add overall r) index (update suites i r) results
  | none ↦
      summarize_from (add overall r) (Maps.insert r.suite (length suites) index)
        (suites ++ add (empty_summary r.suite) r ∷ []) results
]

-- func Summarize
unfoldable pub summarize : Run → Summary × List Summary
summarize run = summarize_from (empty_summary (str "overall")) [] [] run.results

-- type Change struct
pub record Change : Type 0 where
  pub key : Str
  pub from : Outcome
  pub to : Outcome
