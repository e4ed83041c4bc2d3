-- ===== src/Report/Rows.antt =====
-- pkg/report/csv.go: the rows of the CSV report. The time and the quoting of fields are packages
-- `time`'s and `encoding/csv`'s; `started` is the start of a run as formatted, and `ms` a timing.
pub mod Described
use mecone.Prelude.{
  ℕ, zero, suc, ◌+◌, Bool, true, false, not, List, [], ◌∷◌, ◌++◌, Str, str, Option, none, some,
  eq_str, if◌then◌else◌,
}
use mecone.Strconv.{itoa, itoa_int}
use mecone.Strings.{join}
use mecone.Results.{StepRecord, TestResult, Run, Report, error, outcome_text}
use mecone.Report.Ranking.{run_label}

abbrev pub csv_header : List Str
csv_header =
    str "run_started"
    ∷ str "target"
    ∷ str "target_url"
    ∷ str "client_proto"
    ∷ str "origin_proto"
    ∷ str "suite"
    ∷ str "group"
    ∷ str "test"
    ∷ str "refs"
    ∷ str "level"
    ∷ str "outcome"
    ∷ str "step"
    ∷ str "method"
    ∷ str "path"
    ∷ str "status"
    ∷ str "forwarded"
    ∷ str "conn_reused"
    ∷ str "ttfb_ms"
    ∷ str "total_ms"
    ∷ str "bytes"
    ∷ str "error"
    ∷ []

abbrev format_bool : Bool → Str
format_bool true = str "true"
format_bool false = str "false"

-- row[col] = v, which panics where the row has no such column
unfoldable pub put_at : ℕ → Str → List Str → Option (List Str)
put_at col v [] = none
put_at zero v (cell ∷ row) = some (v ∷ row)
put_at (suc col) v (cell ∷ row) = elim (put_at col v row) [
  | none ↦ none
  | some rest ↦ some (cell ∷ rest)
]

-- A sequence of such assignments.
unfoldable pub fill : List (ℕ × Str) → List Str → Option (List Str)
fill [] row = some row
fill ((col, v) ∷ cells) row = elim (put_at col v row) [ none ↦ none | some row' ↦ fill cells row' ]

-- make([]string, colCount)
abbrev blank_row : ℕ → List Str
blank_row zero = []
blank_row (suc n) = [] ∷ blank_row n

-- The rows that were written before a panic are not kept: it ends the report.
abbrev row_and : Option (List Str) → Option (List (List Str)) → Option (List (List Str))
row_and none rows = none
row_and (some row) none = none
row_and (some row) (some rows) = some (row ∷ rows)

abbrev rows_and : Option (List (List Str)) → Option (List (List Str)) → Option (List (List Str))
rows_and none rows = none
rows_and (some first) none = none
rows_and (some first) (some rows) = some (first ++ rows)

module _ (started : Run → Str) (ms : ℕ → Str) where
  -- func runRow
  unfoldable pub run_row : Run → Option (List Str)
  run_row run = fill ((0, started run) ∷ (1, run_label run) ∷ (2, run.target) ∷ []) (blank_row 21)

  -- func runErrorRow
  unfoldable pub run_error_row : List Str → Run → Option (List Str)
  run_error_row base run = fill ((10, outcome_text error) ∷ (20, run.error) ∷ []) base

  -- func resultRow
  unfoldable pub result_row : List Str → TestResult → Option (List Str)
  result_row base r =
      fill
        ((3, r.client_proto)
          ∷ (4, r.origin_proto)
          ∷ (5, r.suite)
          ∷ (6, r.group)
          ∷ (7, r.id)
          ∷ (8, join r.refs (str "; "))
          ∷ (9, r.level)
          ∷ (10, outcome_text r.outcome)
          ∷ [])
        base

  -- func steplessRow
  unfoldable pub stepless_row : List Str → TestResult → Option (List Str)
  stepless_row base r = elim (result_row base r) [
    | none ↦ none
    | some row ↦ elim r.messages [ [] ↦ some row | m ∷ _ ↦ fill ((20, m) ∷ []) row ]
  ]

  -- func stepRow
  unfoldable pub step_row : List Str → TestResult → StepRecord → Option (List Str)
  step_row base r s = elim (result_row base r) [
    | none ↦ none
    | some row ↦
        fill
          ((11, itoa s.step)
            ∷ (12, s.method)
            ∷ (13, s.path)
            ∷ (14, itoa_int s.status)
            ∷ (15, format_bool s.forwarded)
            ∷ (16, format_bool s.reused)
            ∷ (17, ms s.ttfb)
            ∷ (18, ms s.total)
            ∷ (19, itoa s.bytes)
            ∷ (20, s.error)
            ∷ [])
          row
  ]

  -- the loop of `writeResultRows`
  abbrev pub step_rows : List Str → TestResult → List StepRecord → Option (List (List Str))
  step_rows base r [] = some []
  step_rows base r (s ∷ steps) = row_and (step_row base r s) (step_rows base r steps)

  -- func writeResultRows
  unfoldable pub result_rows : List Str → TestResult → Option (List (List Str))
  result_rows base r = elim r.steps [
    | [] ↦ row_and (stepless_row base r) (some [])
    | s ∷ steps ↦ step_rows base r (s ∷ steps)
  ]

  -- the loop of `writeRunRows`
  abbrev pub all_result_rows : List Str → List TestResult → Option (List (List Str))
  all_result_rows base [] = some []
  all_result_rows base (r ∷ rs) = rows_and (result_rows base r) (all_result_rows base rs)

  -- func writeRunRows
  unfoldable pub run_rows : Run → Option (List (List Str))
  run_rows run = elim (run_row run) [
    | none ↦ none
    | some base ↦
        (if not (eq_str run.error [])
          then row_and (run_error_row base run) (all_result_rows base run.results)
          else all_result_rows base run.results)
  ]

  -- the loop of `CSV`
  abbrev pub all_run_rows : List Run → Option (List (List Str))
  all_run_rows [] = some []
  all_run_rows (run ∷ runs) = rows_and (run_rows run) (all_run_rows runs)

  -- func CSV: the rows that are written to a writer that takes them, none where it panics
  unfoldable pub csv_rows : Report → Option (List (List Str))
  csv_rows rep = row_and (some csv_header) (all_run_rows rep.runs)
