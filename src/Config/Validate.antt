-- ===== src/Config/Validate.antt =====
-- pkg/config/validate.go: the problems of a configuration. A problem is the case that it reports with
-- the values that it prints.
pub mod Accepted
pub mod Kinds
use mecone.Prelude.{
  ℕ, ◌+◌, ◌-◌, Bool, true, false, ◌&&◌, ◌||◌, not, Option, none, some, List, [], ◌∷◌, ◌++◌, map,
  Str, str, eq_str, ℤ, pos, leb_ℤ, ok, err, leb, ◌==◌, if◌then◌else◌, length, demand, each,
}
use mecone.Regexp.{Re, char, seq, star, match_string}
use mecone.Proto
use mecone.Proto.{contains}
use mecone.Strings.{contains_substring}
use mecone.TestDef.{levels}
use mecone.Config.{
  File, Proxy, Docker, Process, Readiness, Target, RunSettings, Config, pull_policy,
}

pub data FileProblem : Type 0 where
  one_text no_target : FileProblem
  not_absolute not_relative : (target : Str) → FileProblem

pub data Problem : Type 0 where
  bad_protocol bad_level : Str → Problem
  negative_timeout negative_settle negative_readiness : Problem
  empty_target : (number : ℕ) → Problem
  duplicate bad_name : Str → Problem
  in_target : (name : Str) → Problem → Problem
  not_one_kind : List Str → Problem
  bad_url relative_url bad_pull : Str → Problem
  bad_origin_port bad_container_port bad_status : ℤ → Problem
  no_image no_start no_stop stop_names_pid : Problem
  bad_file : (section : Str) (index : ℕ) → FileProblem → Problem

-- net/url's URL, of what Parse gives
pub record Url : Type 0 where
  pub scheme : Str
  pub host : Str

abbrev name_start : ℕ → Bool
name_start c = (leb b'a' c && leb c b'z') || (leb b'0' c && leb c b'9')

abbrev name_char : ℕ → Bool
name_char c = name_start c || c == b'_' || c == b'.' || c == b'-'

-- namePattern: ^[a-z0-9][a-z0-9_.-]*$
abbrev pub name_pattern : Re
name_pattern = seq (char name_start) (star (char name_char))

abbrev pub is_empty : Str → Bool
is_empty s = eq_str s []

abbrev pub is_negative : ℤ → Bool
is_negative v = not (leb_ℤ (pos 0) v)

abbrev pub is_port : ℤ → Bool
is_port v = leb_ℤ (pos 0) v && leb_ℤ v (pos 65535)

-- func (r *Run) validate
unfoldable pub validate_run : RunSettings → List Problem
validate_run r =
    each (λ p. elim (Proto.parse p) [ ok _ ↦ [] | err _ ↦ bad_protocol p ∷ [] ]) r.protocols
    ++ (each (λ l. demand (contains levels l) (bad_level l)) r.levels
        ++ demand (not (is_negative r.timeout)) negative_timeout)

-- func (r *Readiness) validate
unfoldable pub validate_readiness : Readiness → List Problem
validate_readiness r =
    each (λ s. demand (leb_ℤ (pos 100) s && leb_ℤ s (pos 999)) (bad_status s)) r.status
    ++ demand (not (is_negative r.timeout || is_negative r.interval)) negative_readiness

-- the kinds that a target defines, in the order of their names
unfoldable pub defined : Target → List Str
defined t =
    (elim t.docker as (λ _. List Str) [ some _ ↦ str "docker" ∷ [] | none ↦ [] ])
    ++ ((elim t.process as (λ _. List Str) [ some _ ↦ str "process" ∷ [] | none ↦ [] ])
        ++ (elim t.proxy as (λ _. List Str) [ some _ ↦ str "proxy" ∷ [] | none ↦ [] ]))

-- `parse_url` is url.Parse, and `is_abs` filepath.IsAbs.
module _ (parse_url : Str → Option Url) (is_abs : Str → Bool) where
  -- func (p *Proxy) validate
  unfoldable pub validate_proxy : Proxy → List Problem
  validate_proxy p = elim (parse_url p.url) [
    | none ↦ bad_url p.url ∷ []
    | some u ↦
        (if (not (eq_str u.scheme (str "http")) && not (eq_str u.scheme (str "https")))
            || is_empty u.host
          then relative_url p.url ∷ []
          else demand (is_port p.origin_port) (bad_origin_port p.origin_port))
  ]

  -- func validateFileTarget
  unfoldable pub validate_file_target : Str → Bool → Option FileProblem
  validate_file_target target absolute =
      if is_empty target
      then some no_target
      else if absolute && not (is_abs target)
      then some (not_absolute target)
      else if not absolute && is_abs target
      then some (not_relative target)
      else none

  abbrev pub validate_file : Str → Bool → ℕ → File → List Problem
  validate_file at absolute i f =
      (if is_empty f.source
        then demand (not (is_empty f.content)) (bad_file at i one_text)
        else demand (is_empty f.content) (bad_file at i one_text))
      ++ (elim (validate_file_target f.target absolute) as (λ _. List Problem) [
        | some p ↦ bad_file at i p ∷ []
        | none ↦ []
      ])

  -- func validateFiles, from the index `i` on
  unfoldable pub validate_files : Str → Bool → ℕ → List File → List Problem
  validate_files at absolute i [] = []
  validate_files at absolute i (f ∷ files) =
      validate_file at absolute i f ++ validate_files at absolute (i + 1) files

  -- func (d *Docker) validate
  unfoldable pub validate_docker : Docker → List Problem
  validate_docker d =
      demand (not (is_empty d.image)) no_image
      ++ (demand (contains (str "missing" ∷ str "always" ∷ str "never" ∷ []) (pull_policy d))
            (bad_pull d.pull)
          ++ (demand (is_port d.container_port) (bad_container_port d.container_port)
              ++ validate_files (str "docker") true 0 d.files))

  -- func (p *Process) validate
  unfoldable pub validate_process : Process → List Problem
  validate_process p =
      demand (not (is_empty p.start)) no_start
      ++ (demand (not (p.background && is_empty p.stop)) no_stop
          ++ (demand (not (p.background && contains_substring p.stop (str "${PID}"))) stop_names_pid
              ++ validate_files (str "process") false 0 p.files))

  -- func (t *Target) validateKind
  unfoldable pub validate_kind : Target → List Problem
  validate_kind t = elim t.proxy [
    | some p ↦ validate_proxy p
    | none ↦ elim t.docker [
      | some d ↦ validate_docker d
      | none ↦ elim t.process [ some p ↦ validate_process p | none ↦ [] ]
    ]
  ]

  -- func (t *Target) validate
  unfoldable pub validate_target : Target → List Problem
  validate_target t =
      demand (match_string name_pattern t.name) (bad_name t.name)
      ++ (demand (length (defined t) == 1) (not_one_kind (defined t))
          ++ (validate_kind t
              ++ ((elim t.readiness as (λ _. List Problem) [
                | some r ↦ validate_readiness r
                | none ↦ []
              ])
                  ++ demand (not (is_negative t.settle)) negative_settle)))

  -- the loop of `Validate`, from the index `i` on, with the names seen so far
  unfoldable pub validate_targets : List Str → ℕ → List (Option Target) → List Problem
  validate_targets seen i [] = []
  validate_targets seen i (none ∷ targets) =
      empty_target (i + 1) ∷ validate_targets seen (i + 1) targets
  validate_targets seen i (some t ∷ targets) =
      demand (not (contains seen t.name)) (duplicate t.name)
      ++ (map (in_target t.name) (validate_target t)
          ++ validate_targets (t.name ∷ seen) (i + 1) targets)

  -- func (c *Config) Validate
  unfoldable pub validate : Config → List Problem
  validate c = validate_run c.run ++ validate_targets [] 0 c.targets
