-- ===== src/TestDef/Validate/Meaning.antt =====
-- pkg/testdef/validate.go: what the parts of a valid test definition are: lines, statuses, bodies,
-- waits and answers.
use mecone.Prelude.{
  demand_for, both, each_iff, ℕ, ◌≤◌, ◌≡◌, ◌≢◌, ◌↔◌, ◌⊎◌, inl, inr, true, false, Option, none, some,
  List, [], Str, str, eq_str_iff, ℤ, pos, ◌≤ℤ◌, eq_ℤ_iff, Option-cases, arith, length, All,
}
use mecone.Maps
use mecone.Maps.{Map, str_key}
use mecone.Strings.{cut_prefix}
use mecone.Protocol.Lines.{Times, split_line, check_templates}
use mecone.TestDef.{Response, Expect, Step}
use mecone.Check.{Patterns}
use mecone.TestDef.Validate.{
  LineKind, send_line, expect_line, name_line, max_body_size, in_range, valid_token, sends_request,
  validate_wait, validate_respond_with, validate_status, validate_body, check_pattern, check_line,
  check_lines,
}

abbrev pub Between : ℕ → ℕ → ℤ → Type 0
Between lo hi v = (pos lo ≤ℤ v) × (v ≤ℤ pos hi)

pub in_range_iff : (v : ℤ) (lo hi : ℕ) → (in_range v (pos lo) (pos hi) ≡ true) ↔ Between lo hi v
unfolding in_range
in_range_iff v lo hi = ground arith

-- Statuses that can be expected.
abbrev pub ValidStatus : Expect → Type 0
ValidStatus e = All (Between 100 999) e.status × All (Between 100 199) e.interim

pub validate_status_iff : (e : Expect) → (validate_status e ≡ []) ↔ ValidStatus e
unfolding validate_status
validate_status_iff e =
    both (each_iff _ e.status (λ c. demand_for _ _ (in_range_iff c 100 999)))
      (each_iff _ e.interim (λ c. demand_for _ _ (in_range_iff c 100 199)))

-- A wait lasts some time, and the step that waits does nothing else.
abbrev pub ValidWait : ℤ → Step → Type 0
ValidWait wait s = (pos 1 ≤ℤ wait) × (sends_request s ≡ false)

pub validate_wait_iff : (wait : ℤ) (s : Step) → (validate_wait wait s ≡ []) ↔ ValidWait wait s
unfolding validate_wait
validate_wait_iff wait s = ground arith

-- A request names a response of the test, or no response where there is no choice.
abbrev pub Answerable : Map Str (Option Response) → Step → Type 0
Answerable responses s =
    ((s.respond_with ≢ []) × (Maps.lookup s.respond_with responses ≢ none))
    ⊎ ((s.respond_with ≡ []) × (length responses ≤ 1))

pub validate_respond_with_iff :
    (responses : Map Str (Option Response)) (s : Step)
    → (validate_respond_with responses s ≡ []) ↔ Answerable responses s
unfolding validate_respond_with
validate_respond_with_iff responses s = elim (Option-cases (Maps.lookup s.respond_with responses)) [
  | inl e ↦ ground (arith, eq_str_iff s.respond_with [])
  | inr (r, e) ↦ ground (arith, eq_str_iff s.respond_with [])
]

-- A body of a size, or a literal one, or neither.
abbrev pub ValidBody : Response → Type 0
ValidBody r = ((r.body ≡ []) ⊎ (r.body_size ≡ pos 0)) × Between 0 max_body_size r.body_size

pub validate_body_iff : (r : Response) → (validate_body r ≡ []) ↔ ValidBody r
unfolding validate_body
validate_body_iff r =
    both (demand_for _ _ (ground (arith, eq_str_iff r.body [], eq_ℤ_iff r.body_size (pos 0))))
      (demand_for _ _ (in_range_iff r.body_size 0 max_body_size))

module _ (times : Times) (patterns : Patterns) where
  -- A line to send has a value with good templates, an expected one may have a value, whose pattern
  -- compiles if it is one, and the name of an absent field stands alone.
  abbrev pub LineOf : LineKind → Str → Type 0
  LineOf send_line line =
      (valid_token (split_line line).0 ≡ true)
      × ((split_line line).2 ≡ true)
      × (check_templates times (split_line line).1 ≡ none)
  LineOf expect_line line =
      (valid_token (split_line line).0 ≡ true)
      × ((pattern : Str)
          → cut_prefix (split_line line).1 (str "~") ≡ some pattern
          → patterns.compile pattern ≢ none)
  LineOf name_line line = (valid_token (split_line line).0 ≡ true) × ((split_line line).2 ≡ false)

  check_pattern_iff :
      (value : Str)
      → (check_pattern times patterns value ≡ none) ↔ (
          (pattern : Str)
          → cut_prefix value (str "~") ≡ some pattern
          → patterns.compile pattern ≢ none)
  unfolding check_pattern
  check_pattern_iff value = elim (Option-cases (cut_prefix value (str "~"))) [
    | inl e ↦ (λ h p k. absurd (cc), λ h. ground arith)
    | inr (p, e) ↦ elim (Option-cases (patterns.compile p)) [
      | inl c ↦ (λ h q k. absurd (ground arith), λ h. absurd (h p e c))
      | inr (re, c) ↦ (λ h q k. let same : p ≡ q = cc in rw (← same) (λ n. cc), λ h. ground arith)
    ]
  ]

  check_line_iff :
      (kind : LineKind) (line : Str)
      → (check_line times patterns line kind ≡ none) ↔ LineOf kind line
  unfolding check_line
  check_line_iff send_line line = elim (Option-cases (check_templates times (split_line line).1)) [
    | inl e ↦ ground arith
    | inr (p, e) ↦ ground arith
  ]
  check_line_iff expect_line line = ground (arith, check_pattern_iff (split_line line).1)
  check_line_iff name_line line = ground arith

  pub check_lines_iff :
      (lines : List Str) (kind : LineKind)
      → (check_lines times patterns lines kind ≡ []) ↔ All (LineOf kind) lines
  unfolding check_lines
  check_lines_iff lines kind = each_iff _ lines (λ line.
      elim (Option-cases (check_line times patterns line kind)) [
        | inl e ↦ ground (arith, check_line_iff kind line)
        | inr (p, e) ↦ ground (arith, check_line_iff kind line)
      ])
