-- ===== src/Examples/Commands.antt =====
-- The command line, of pkg/cli, and the reports of pkg/report that are written for people and tables.
use mecone.Prelude.{ℕ, ◌≡◌, refl, ◌↔◌, true, false, some, List, [], ◌∷◌, ◌++◌, Str, str, pos, All}
use mecone.Strings.{contains_rune, trim_space, trim, trim_left, trim_right, is_space, fields, join}
use mecone.Results.{TestResult, Run, Report, skipped}
use mecone.Report.Wrapping.{wrap_words, Fits, wrap_words-Fits}
use mecone.Report.Rows.{csv_header, csv_rows}
use mecone.Report.Rows.Described.{of_runs, IsRow, csv_rows-of_runs}
use mecone.Cli.{exit_ok, exit_usage, Returned, done, ClientFlags, run, apply}
use mecone.Cli.Exit.{Succeeds, Misused, run_iff}
use mecone.Cli.Settings.{Clean, Settled, apply-Settled}
use mecone.Examples.Catalogs.{rooted, catalog}

abbrev always_done : Str → List Str → Returned
always_done name args = done

run_iff_example :
    ((run always_done true (str "list" ∷ []) ≡ exit_ok)
      ↔ Succeeds always_done true (str "list" ∷ []))
    × ((run always_done true (str "list" ∷ []) ≡ exit_usage)
        ↔ Misused always_done true (str "list" ∷ []))
run_iff_example = run_iff always_done true (str "list" ∷ [])

abbrev no_flags : ClientFlags
no_flags = record {
  suites = [];
  tests = [];
  levels = [];
  suites_dir = [];
  protos = str "h1";
  notice = [];
  concurrency = pos 8;
  timeout = pos 30_000_000_000;
  insecure = false;
}

abbrev slash : Str → Str → Str
slash dir p = dir ++ (str "/" ++ p)

caching-Clean : Clean (str "caching")
unfolding contains_rune trim_space trim trim_left trim_right is_space
caching-Clean = (λ e. cc, (refl, refl))

storage-Clean : Clean (str "storage")
unfolding contains_rune trim_space trim trim_left trim_right is_space
storage-Clean = (λ e. cc, (refl, refl))

pattern-Clean : Clean (str "storage-*")
unfolding contains_rune trim_space trim trim_left trim_right is_space
pattern-Clean = (λ e. cc, (refl, refl))

apply-Settled_example :
    Settled rooted slash catalog
      (str "tests" ∷ [])
      no_flags
      (apply rooted slash catalog (str "tests" ∷ []) no_flags)
apply-Settled_example =
    apply-Settled rooted slash catalog (str "tests" ∷ []) no_flags
      (caching-Clean, (storage-Clean, tt)) (pattern-Clean, tt) tt

wrap_words-Fits_example :
    (join (wrap_words (str "every score is of one run") 12) (str " ")
      ≡ join (fields (str "every score is of one run")) (str " "))
    × All
        (Fits 12 (fields (str "every score is of one run")))
        (wrap_words (str "every score is of one run") 12)
wrap_words-Fits_example = wrap_words-Fits (str "every score is of one run") 12

abbrev skipped_result : TestResult
skipped_result = record {
  id = str "page";
  suite = str "caching";
  group = str "basics";
  level = str "must";
  refs = [];
  client_proto = str "h1";
  origin_proto = [];
  outcome = skipped;
  messages = str "not applicable" ∷ [];
  steps = [];
}

abbrev small_report : Report
small_report = record {
  notice = [];
  runs =
      record {
        name = str "proxy";
        target = str "http://localhost";
        protocols = str "h1" ∷ [];
        error = [];
        results = skipped_result ∷ [];
      }
      ∷ [];
}

abbrev no_start : Run → Str
no_start r = []

abbrev no_timing : ℕ → Str
no_timing n = []

csv_rows-of_runs_example :
    (csv_rows no_start no_timing small_report
      ≡ some (csv_header ∷ of_runs no_start no_timing small_report.runs))
    × All IsRow (of_runs no_start no_timing small_report.runs)
csv_rows-of_runs_example = csv_rows-of_runs no_start no_timing small_report
