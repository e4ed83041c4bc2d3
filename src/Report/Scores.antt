-- ===== src/Report/Scores.antt =====
-- pkg/report/report.go: theorems about what a summary counts, and about its score.
use mecone.Prelude.{
  ℕ, ◌+◌, ◌*◌, ◌/◌, ◌≤◌, ◌<◌, ◌≡◌, sym, ◌∙◌, ◌↔◌, true, List, [], ◌∷◌, arith, length,
}
use mecone.Results.{Outcome, TestResult}
use mecone.Report.{Tally, Summary, count, add, weighted_score, score, scored}

-- No level has more passes than results.
pub record IsSound (s : Summary) : Type 0 where
  pub must : s.must.passed ≤ s.must.total
  pub should : s.should.passed ≤ s.should.total
  pub may : s.may.passed ≤ s.may.total

-- How many results a summary has counted.
abbrev pub counted : Summary → ℕ
counted s =
    s.must.total + s.should.total + s.may.total + s.info + s.inconclusive + s.skipped + s.errors

abbrev pub add_all : Summary → List TestResult → Summary
add_all s [] = s
add_all s (r ∷ results) = add_all (add s r) results

count_passed :
    (o : Outcome) (t : Tally) → t.passed ≤ t.total → (count o t).passed ≤ (count o t).total
unfolding count
count_passed o t h = ground arith

add-IsSound : (s : Summary) (r : TestResult) → IsSound s → IsSound (add s r)
unfolding add
add-IsSound s r h = ground arith

counted-add : (s : Summary) (r : TestResult) → counted (add s r) ≡ counted s + 1
unfolding add
counted-add s r = ground arith

-- Added to a summary with no more passes than results at any level, every result is counted exactly
-- once, whatever its outcome and level, and there are still no more passes than results.
pub add_all-counted :
    (s : Summary) (results : List TestResult)
    → IsSound s
    → (counted (add_all s results) ≡ counted s + length results) × IsSound (add_all s results)
add_all-counted s [] h = (omega arith, h)
add_all-counted s (r ∷ results) h =
    let (n, sound) = add_all-counted (add s r) results (add-IsSound s r h) in
    (omega (arith, n, counted-add s r), sound)

div_le : (p t : ℕ) → p ≤ t → 100 * p / t ≤ 100
div_le p t h = grind arith

div_full : (p t : ℕ) → p ≤ t → 0 < t → 100 * p / t ≡ 100 → p ≡ t
div_full p t h k e = grind arith

-- The score of a summary with no more passes than results at any level is at most 100.
pub score-le : (s : Summary) → IsSound s → score s ≤ 100
unfolding score weighted_score
score-le s h =
    let d =
      div_le (10 * s.must.passed + 4 * s.should.passed + 1 * s.may.passed)
        (10 * s.must.total + 4 * s.should.total + 1 * s.may.total) (ground arith) in
    ground arith

div_self : (t : ℕ) → 0 < t → 100 * t / t ≡ 100
div_self t h = grind arith

-- The score, where there is something to score, is a quotient of weighted sums.
score-eq :
    (s : Summary)
    → scored s ≡ true
    → score s
      ≡ 100
        * (10 * s.must.passed + 4 * s.should.passed + 1 * s.may.passed)
        / (10 * s.must.total + 4 * s.should.total + 1 * s.may.total)
unfolding score scored weighted_score
score-eq s k = ground arith

-- A summary with something to score, and no more passes than results at any level, has the score
-- 100 exactly if all its scored results passed.
pub score-full :
    (s : Summary)
    → IsSound s
    → scored s ≡ true
    → (score s ≡ 100) ↔ (
        (s.must.passed ≡ s.must.total)
        × (s.should.passed ≡ s.should.total)
        × (s.may.passed ≡ s.may.total))
unfolding scored
score-full s h k =
    let d =
      div_full (10 * s.must.passed + 4 * s.should.passed + 1 * s.may.passed)
        (10 * s.must.total + 4 * s.should.total + 1 * s.may.total) (ground arith) (ground arith) in
    let positive : 0 < 10 * s.must.total + 4 * s.should.total + 1 * s.may.total = ground arith in
    let full = div_self (10 * s.must.total + 4 * s.should.total + 1 * s.may.total) positive in
    (
      λ e. let same = d (sym (score-eq s k) ∙ e) in ground arith,
      λ (a, b, c). score-eq s k ∙ (rw (a, b, c) full),
    )
