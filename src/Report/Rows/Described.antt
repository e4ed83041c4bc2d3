-- ===== src/Report/Rows/Described.antt =====
-- pkg/report/csv.go: the rows of the CSV report described cell by cell, in the order of the header.
use mecone.Prelude.{
  ◌≡◌, refl, inl, inr, some, List, [], ◌∷◌, ◌++◌, Str, str, ℕ, eq_str, Bool-cases, if◌then◌else◌,
  list_cases, length, All, All-append,
}
use mecone.Strconv.{itoa, itoa_int}
use mecone.Strings.{join}
use mecone.Results.{StepRecord, TestResult, Run, Report, error, outcome_text}
use mecone.Report.Ranking.{run_label}
use mecone.Report.Rows.{
  csv_header, format_bool, put_at, fill, run_row, run_error_row, result_row, stepless_row, step_row,
  step_rows, result_rows, all_result_rows, run_rows, all_run_rows, csv_rows,
}

-- The first cells of a row: the target's, and after them the result's.
abbrev target_cells : (Run → Str) → Run → List Str
target_cells started run = started run ∷ run_label run ∷ run.target ∷ []

abbrev result_cells : TestResult → List Str
result_cells r =
    r.client_proto
    ∷ r.origin_proto
    ∷ r.suite
    ∷ r.group
    ∷ r.id
    ∷ join r.refs (str "; ")
    ∷ r.level
    ∷ outcome_text r.outcome
    ∷ []

abbrev step_cells : (ℕ → Str) → StepRecord → List Str
step_cells ms s =
    itoa s.step
    ∷ s.method
    ∷ s.path
    ∷ itoa_int s.status
    ∷ format_bool s.forwarded
    ∷ format_bool s.reused
    ∷ ms s.ttfb
    ∷ ms s.total
    ∷ itoa s.bytes
    ∷ s.error
    ∷ []

-- Where no request was made, only the last cell says something.
abbrev no_step : Str → List Str
no_step reason = [] ∷ [] ∷ [] ∷ [] ∷ [] ∷ [] ∷ [] ∷ [] ∷ [] ∷ reason ∷ []

abbrev no_result : List Str
no_result = [] ∷ [] ∷ [] ∷ [] ∷ [] ∷ [] ∷ [] ∷ outcome_text error ∷ []

abbrev first_message : List Str → Str
first_message [] = []
first_message (m ∷ _) = m

-- A row with a cell for each column of the header.
abbrev pub IsRow : List Str → Type 0
IsRow row = length row ≡ length csv_header

module _ (started : Run → Str) (ms : ℕ → Str) where
  -- One row for each step of a result, or a single one without a step.
  abbrev of_steps : Run → TestResult → List StepRecord → List (List Str)
  of_steps run r [] = []
  of_steps run r (s ∷ steps) =
      (target_cells started run ++ (result_cells r ++ step_cells ms s)) ∷ of_steps run r steps

  abbrev of_result : Run → TestResult → List (List Str)
  of_result run r = elim r.steps [
    | [] ↦ (target_cells started run ++ (result_cells r ++ no_step (first_message r.messages))) ∷ []
    | s ∷ steps ↦ of_steps run r (s ∷ steps)
  ]

  abbrev of_results : Run → List TestResult → List (List Str)
  of_results run [] = []
  of_results run (r ∷ rs) = of_result run r ++ of_results run rs

  -- A target with an error has a row that says so before those of its results.
  abbrev of_error : Run → List (List Str)
  of_error run =
      if eq_str run.error []
      then []
      else (target_cells started run ++ (no_result ++ no_step run.error)) ∷ []

  abbrev pub of_runs : List Run → List (List Str)
  of_runs [] = []
  of_runs (run ∷ runs) = (of_error run ++ of_results run run.results) ++ of_runs runs

  -- The row that the rows of a run start from.
  abbrev base_row : Run → List Str
  base_row run =
      started run
      ∷ run_label run
      ∷ run.target
      ∷ []
      ∷ []
      ∷ []
      ∷ []
      ∷ []
      ∷ []
      ∷ []
      ∷ []
      ∷ []
      ∷ []
      ∷ []
      ∷ []
      ∷ []
      ∷ []
      ∷ []
      ∷ []
      ∷ []
      ∷ []
      ∷ []

  run_row_eq : (run : Run) → run_row started ms run ≡ some (base_row run)
  unfolding run_row fill put_at
  run_row_eq run = refl

  step_rows_eq :
      (run : Run) (r : TestResult) (steps : List StepRecord)
      → step_rows started ms (base_row run) r steps ≡ some (of_steps run r steps)
  unfolding step_row result_row fill put_at
  step_rows_eq run r [] = refl
  step_rows_eq run r (s ∷ steps) = rw (step_rows_eq run r steps) refl

  stepless_row_eq :
      (run : Run) (r : TestResult)
      → stepless_row started ms (base_row run) r
        ≡ some (target_cells started run ++ (result_cells r ++ no_step (first_message r.messages)))
  unfolding stepless_row result_row fill put_at
  stepless_row_eq run r = elim (list_cases r.messages) [
    | inl n ↦ rw (n, stepless_row) refl
    | inr (m, more, n) ↦ rw (n, stepless_row) refl
  ]

  result_rows_eq :
      (run : Run) (r : TestResult)
      → result_rows started ms (base_row run) r ≡ some (of_result run r)
  unfolding result_rows
  result_rows_eq run r = elim (list_cases r.steps) [
    | inl n ↦ rw (n, result_rows, stepless_row_eq run r) refl
    | inr (s, steps, e) ↦ rw (e, result_rows) (step_rows_eq run r (s ∷ steps))
  ]

  all_result_rows_eq :
      (run : Run) (rs : List TestResult)
      → all_result_rows started ms (base_row run) rs ≡ some (of_results run rs)
  all_result_rows_eq run [] = refl
  all_result_rows_eq run (r ∷ rs) = rw (result_rows_eq run r, all_result_rows_eq run rs) refl

  run_rows_eq :
      (run : Run) → run_rows started ms run ≡ some (of_error run ++ of_results run run.results)
  unfolding run_rows run_error_row fill put_at
  run_rows_eq run = elim (Bool-cases (eq_str run.error [])) [
    | inl e ↦ rw (run_row_eq run, e, run_rows, all_result_rows_eq run run.results) refl
    | inr e ↦ rw (run_row_eq run, e, run_rows, all_result_rows_eq run run.results) refl
  ]

  all_run_rows_eq : (runs : List Run) → all_run_rows started ms runs ≡ some (of_runs runs)
  all_run_rows_eq [] = refl
  all_run_rows_eq (run ∷ runs) = rw (run_rows_eq run, all_run_rows_eq runs) refl

  of_steps-IsRow :
      (run : Run) (r : TestResult) (steps : List StepRecord) → All IsRow (of_steps run r steps)
  of_steps-IsRow run r [] = tt
  of_steps-IsRow run r (s ∷ steps) = (refl, of_steps-IsRow run r steps)

  of_results-IsRow : (run : Run) (rs : List TestResult) → All IsRow (of_results run rs)
  of_results-IsRow run [] = tt
  of_results-IsRow run (r ∷ rs) =
      All-append IsRow (of_result run r) (of_results run rs)
        (elim (list_cases r.steps) [
          | inl n ↦ rw n (refl, tt)
          | inr (s, steps, e) ↦ rw e (of_steps-IsRow run r (s ∷ steps))
        ])
        (of_results-IsRow run rs)

  of_error-IsRow : (run : Run) → All IsRow (of_error run)
  of_error-IsRow run = elim (Bool-cases (eq_str run.error [])) [
    | inl e ↦ rw e tt
    | inr e ↦ rw e (refl, tt)
  ]

  of_runs-IsRow : (runs : List Run) → All IsRow (of_runs runs)
  of_runs-IsRow [] = tt
  of_runs-IsRow (run ∷ runs) =
      All-append IsRow (of_error run ++ of_results run run.results) (of_runs runs)
        (All-append IsRow (of_error run) (of_results run run.results) (of_error-IsRow run)
          (of_results-IsRow run run.results))
        (of_runs-IsRow runs)

  -- The CSV report is written without a panic. Behind its header it has, for each target, a row with
  -- the target's error if it has one, and the rows of its results: one for each step, with the cells of
  -- the target, the result and the step, and for a result without steps one with its first message.
  -- Every row has a cell for each column of the header.
  pub csv_rows-of_runs :
      (rep : Report)
      → (csv_rows started ms rep ≡ some (csv_header ∷ of_runs rep.runs))
        × All IsRow (of_runs rep.runs)
  unfolding csv_rows
  csv_rows-of_runs rep = (rw (all_run_rows_eq rep.runs, csv_rows) refl, of_runs-IsRow rep.runs)
