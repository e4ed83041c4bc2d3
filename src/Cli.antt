-- ===== src/Cli.antt =====
-- pkg/cli: the command line, from the arguments to the exit code, the selection of tests from flags,
-- and the settings that a configuration file supplies for flags that were not given. Parsing flags and
-- writing files are libraries'; what a command's own work comes to is a parameter of `run`.
pub mod Exit
pub mod Settings
use mecone.Prelude.{
  ℕ, ◌+◌, ◌-◌, Bool, true, false, ◌&&◌, not, Option, none, some, List, [], ◌∷◌, ◌++◌, Str, str,
  eq_str, ℤ, pos, leb_ℤ, Result, ok, err, ltb, if◌then◌else◌, length,
}
use mecone.Strings.{split, join, trim_space}
use mecone.Proto.{contains}
use mecone.TestDef.{Decoded, levels}
use mecone.Corpus.{Corpus}
use mecone.Corpus.Selection.{SelectError, select}
use mecone.Config.{RunSettings, Config, resolve}
use mecone.Results.{Run}

-- exitOK, exitFailure and exitUsage
pub data ExitCode : Type 0 where
  exit_ok exit_failure exit_usage : ExitCode

-- What a command returns: nil, flag.ErrHelp, errUsage, or another error.
pub data Returned : Type 0 where
  done asked_help usage_error : Returned
  failed : (reason : Str) → Returned

-- the names of `commands`
abbrev pub commands : List Str
commands = str "origin" ∷ str "client" ∷ str "run" ∷ str "list" ∷ str "report" ∷ str "version" ∷ []

-- func isHelp
unfoldable pub is_help : Str → Bool
is_help arg = contains (str "help" ∷ str "-h" ∷ str "-help" ∷ str "--help" ∷ []) arg

-- func lookup
unfoldable pub lookup : Str → Bool
lookup name = contains commands name

-- func status
unfoldable pub status : ExitCode → Bool → ExitCode
status exit_ok false = exit_failure
status code written = code

-- `work name args` is what a command returns, and `written` whether the message can be written.
module _ (work : Str → List Str → Returned) (written : Bool) where
  -- the switch of `Run` on what the command returned
  unfoldable pub exit_of : Returned → ExitCode
  exit_of done = exit_ok
  exit_of asked_help = exit_ok
  exit_of usage_error = exit_usage
  exit_of (failed reason) = status exit_failure written

  -- func Run
  unfoldable pub run : List Str → ExitCode
  run [] = status exit_usage written
  run (name ∷ args) =
      if is_help name
      then status exit_ok written
      else if not (lookup name)
      then status exit_usage written
      else exit_of (work name args)

-- the part of clientFlags that the file's settings apply to; a timeout is in nanoseconds
pub record ClientFlags : Type 0 where
  pub suites : Str
  pub tests : Str
  pub levels : Str
  pub suites_dir : Str
  pub protos : Str
  pub notice : Str
  pub concurrency : ℤ
  pub timeout : ℤ
  pub insecure : Bool

-- the loop of `splitList`
unfoldable pub trimmed : List Str → List Str
trimmed [] = []
trimmed (part ∷ parts) =
    let rest = trimmed parts in let p = trim_space part in if eq_str p [] then rest else p ∷ rest

-- func splitList
unfoldable pub split_list : Str → List Str
split_list s = trimmed (split b',' s)

abbrev is_set : ℤ → Bool
is_set v = not (leb_ℤ v (pos 0))

abbrev or_joined : Bool → List Str → Str → Str
or_joined given [] old = old
or_joined given (x ∷ xs) old = if given then old else join (x ∷ xs) (str ",")

-- func (c *clientFlags) applySelectors
unfoldable pub apply_selectors : RunSettings → List Str → ClientFlags → ClientFlags
apply_selectors r given c = record c {
  tests = or_joined (contains given (str "tests")) r.tests c.tests;
  levels = or_joined (contains given (str "levels")) r.levels c.levels;
}

-- func (c *clientFlags) applyStrings
unfoldable pub apply_strings : RunSettings → List Str → ClientFlags → ClientFlags
apply_strings r given c = apply_selectors r given (record c {
  protos = or_joined (contains given (str "proto")) r.protocols c.protos;
  suites = or_joined (contains given (str "suites")) r.suites c.suites;
})

-- func (c *clientFlags) applyScalars
unfoldable pub apply_scalars : RunSettings → List Str → ClientFlags → ClientFlags
apply_scalars r given c = record c {
  concurrency =
      (if not (contains given (str "concurrency")) && is_set r.concurrency
        then r.concurrency
        else c.concurrency);
  timeout =
      (if not (contains given (str "timeout")) && is_set r.timeout then r.timeout else c.timeout);
  insecure = (if not (contains given (str "insecure")) && r.insecure then true else c.insecure);
}

-- func (c *clientFlags) apply; `is_abs` and `join_path` are filepath.IsAbs and filepath.Join
unfoldable pub apply :
    (Str → Bool) → (Str → Str → Str) → Config → List Str → ClientFlags → ClientFlags
apply is_abs join_path cfg given c =
    let c' =
      apply_scalars cfg.run given
        (apply_strings cfg.run given (record c { notice = cfg.notice })) in
    if not (contains given (str "suites-dir")) && not (eq_str cfg.run.suites_dir [])
    then record c' { suites_dir = resolve is_abs join_path cfg cfg.run.suites_dir }
    else c'

-- func hasTargets
unfoldable pub has_targets : Option Config → Bool
has_targets none = false
has_targets (some cfg) = ltb 0 (length cfg.targets)

-- What selecting tests may end in, besides the tests.
pub data TestsError : Type 0 where
  not_loaded : (reason : Str) → TestsError
  unknown_level : Str → TestsError
  not_selected : SelectError → TestsError

-- the loop of `selectTests`
unfoldable pub checked_levels : List Str → Result TestsError (List Str)
checked_levels [] = ok []
checked_levels (l ∷ ls) =
    if not (contains levels l)
    then err (unknown_level l)
    else elim (checked_levels ls) [ err e ↦ err e | ok rest ↦ ok (l ∷ rest) ]

-- func (s *selectFlags) selectTests; `load` is corpus.Load of the directory, or of the built-in suites
unfoldable pub select_tests :
    (Str → Str → Option Bool)
    → (Str → Result Str Corpus)
    → ClientFlags
    → Result TestsError (List Decoded)
select_tests path_match load c = elim (load c.suites_dir) [
  | err reason ↦ err (not_loaded reason)
  | ok corpus ↦ elim (checked_levels (split_list c.levels)) [
    | err e ↦ err e
    | ok ls ↦
        elim (select path_match corpus
          (record { suites = split_list c.suites; ids = split_list c.tests; levels = ls })) [
            | err e ↦ err (not_selected e)
            | ok tests ↦ ok tests
          ]
  ]
]

-- func checkFormat
unfoldable pub check_format : Str → Bool
check_format format = contains (str "text" ∷ str "md" ∷ str "json" ∷ []) format

-- func targetName
unfoldable pub target_name : Run → Str
target_name run = if not (eq_str run.name []) then run.name else run.target

-- the loop of `catalogError`
unfoldable pub failed_runs : List Run → List Str
failed_runs [] = []
failed_runs (run ∷ runs) =
    let rest = failed_runs runs in
    if not (eq_str run.error [])
    then (run.name ++ (str " (" ++ (run.error ++ str ")"))) ∷ rest
    else rest

-- func catalogError: how many failed and their names, or none
unfoldable pub catalog_error : List Run → Option (ℕ × Str)
catalog_error runs = elim (failed_runs runs) [
  | [] ↦ none
  | f ∷ fs ↦ some (length (f ∷ fs), join (f ∷ fs) (str "; "))
]
