-- ===== src/Check/Meaning.antt =====
-- pkg/check/check.go: what it means that an observation meets a step's expectations, and theorems
-- about `evaluateStep`.
use mecone.Prelude.{
  ◌+◌, ◌≡◌, ◌≢◌, refl, ◌↔◌, ◌⊎◌, inl, inr, Bool, true, false, Option, none, some, List, [], ◌∷◌,
  ◌++◌, Str, str, eq_str_iff, ℤ, Bool-cases, Option-cases, arith, ◌==◌, length, All, append_eq_nil,
}
use mathlib.Core.Logic.{⊎_elim}
use mecone.Strings.{cut_prefix, join}
use mecone.Http.{Header, values}
use mecone.Protocol.{LogEntry}
use mecone.Protocol.Lines.{split_line}
use mecone.TestDef.{Expect, status_contains}
use mecone.Check.Order.{Subsequence, in_order_iff}
use mecone.Check.{
  Patterns, Observation, Place, response, trailer, forwarded, check_status, check_body,
  check_interim, check_forwarded, match_pattern, match_line, match_all, absent_all,
  check_forwarded_headers, check_all, evaluate_step,
}

-- `re` is the matcher of the pattern, and accepts the text.
abbrev pub Accepts : Patterns → Str → Str → Type 0
Accepts patterns pattern got =
    (re : Str → Bool) × (patterns.compile pattern ≡ some re) × (re got ≡ true)

-- A line names a field of `h`, and what follows its colon, if it has one, is a pattern that the
-- field's combined value matches or the value itself.
abbrev pub HasField : Patterns → Header → Str → Type 0
HasField patterns h line =
    (values h (split_line line).0 ≢ [])
    × ((split_line line).2 ≡ true
        → ((pattern : Str)
            → cut_prefix (split_line line).1 (str "~") ≡ some pattern
            → Accepts patterns pattern (join (values h (split_line line).0) (str ", ")))
          × (cut_prefix (split_line line).1 (str "~") ≡ none
              → join (values h (split_line line).0) (str ", ") ≡ (split_line line).1))

abbrev pub LacksField : Header → Str → Type 0
LacksField h name = values h name ≡ []

-- Every expectation of a step that got a response.
pub record Meets (patterns : Patterns) (e : Expect) (o : Observation) (entries : List LogEntry)
    : Type 0 where
  pub status : (e.status ≡ []) ⊎ (status_contains e.status o.status ≡ true)
  pub headers : All (HasField patterns o.header) e.headers
  pub headers_absent : All (LacksField o.header) e.headers_absent
  pub trailers : All (HasField patterns o.trailer) e.trailers
  pub body : (want : Str) → e.body ≡ some want → o.body ≡ want
  pub interim : Subsequence e.interim o.interim
  pub must_forward : e.forwarded ≡ some true → entries ≢ []
  pub must_answer : e.forwarded ≡ some false → entries ≡ []
  pub forwarded_headers :
      (e.forwarded_headers ≡ []) × (e.forwarded_headers_absent ≡ [])
      ⊎ (first : LogEntry) × (rest : List LogEntry) × (entries ≡ first ∷ rest)
        × All (HasField patterns first.header) e.forwarded_headers
        × All (LacksField first.header) e.forwarded_headers_absent

check_status_iff :
    (want : List ℤ) (got : ℤ)
    → (check_status want got ≡ []) ↔ ((want ≡ []) ⊎ (status_contains want got ≡ true))
unfolding check_status
check_status_iff [] got = (λ _. inl refl, λ _. refl)
check_status_iff (c ∷ cs) got = ground arith

check_body_iff :
    (want : Option Str) (got : Str)
    → (check_body want got ≡ []) ↔ ((w : Str) → want ≡ some w → got ≡ w)
unfolding check_body
check_body_iff none got = (λ _ w h. cc, λ _. refl)
check_body_iff (some w) got = (
  λ h v e. ground (arith, eq_str_iff got w),
  λ h. ground (arith, (eq_str_iff got w).1 (h w refl)),
)

check_interim_iff : (want got : List ℤ) → (check_interim want got ≡ []) ↔ Subsequence want got
unfolding check_interim
check_interim_iff want got =
    let (sound, full) = in_order_iff got want in (λ h. sound (ground arith), λ s. rw (full s))

module _ (patterns : Patterns) where
  match_pattern_iff :
      (name got pattern : Str)
      → (match_pattern patterns name got pattern ≡ none) ↔ Accepts patterns pattern got
  unfolding match_pattern
  match_pattern_iff name got pattern = elim (Option-cases (patterns.compile pattern)) [
    | inl e ↦ (λ h. absurd (ground arith), λ a. absurd (ground arith))
    | inr (re, e) ↦ (λ h. (re, e, ground arith), λ a. ground arith)
  ]

  match_line_iff :
      (line : Str) (h : Header) → (match_line patterns line h ≡ none) ↔ HasField patterns h line
  unfolding match_line
  match_line_iff line h =
      let (name, want, has_value) = split_line line in
      let got = join (values h name) (str ", ") in
      (
        λ k. (
          λ e. ground arith,
          λ v. (
            λ pattern e. (match_pattern_iff name got pattern).0 (ground arith),
            λ e. ground (arith, eq_str_iff got want),
          ),
        ),
        λ k. elim (Bool-cases has_value) [
          | inr no_value ↦ ground arith
          | inl v ↦ elim (Option-cases (cut_prefix want (str "~"))) [
            | inl e ↦ ground (arith, (eq_str_iff got want).1 ((k.1 v).1 e))
            | inr (pattern, e) ↦
                ground (arith, (match_pattern_iff name got pattern).1 ((k.1 v).0 pattern e))
          ]
        ],
      )

  match_all_iff :
      (place : Place) (lines : List Str) (h : Header)
      → (match_all patterns place lines h ≡ []) ↔ All (HasField patterns h) lines
  unfolding match_all
  match_all_iff place [] h = (λ _. tt, λ _. refl)
  match_all_iff place (line ∷ lines) h =
      let (sound, full) = match_line_iff line h in
      let (sounds, fulls) = match_all_iff place lines h in
      (λ k. (sound (ground arith), sounds (ground arith)), λ k. ground (arith, full k.0, fulls k.1))

  absent_all_iff :
      (place : Place) (names : List Str) (h : Header)
      → (absent_all patterns place names h ≡ []) ↔ All (LacksField h) names
  unfolding absent_all
  absent_all_iff place [] h = (λ _. tt, λ _. refl)
  absent_all_iff place (name ∷ names) h =
      let (sounds, fulls) = absent_all_iff place names h in
      (λ k. (ground arith, sounds (ground arith)), λ k. ground (arith, k.0, fulls k.1))

  -- What the first logged request of the step must look like.
  abbrev ForwardedOk : Expect → List LogEntry → Type 0
  ForwardedOk e entries =
      (e.forwarded_headers ≡ []) × (e.forwarded_headers_absent ≡ [])
      ⊎ (first : LogEntry) × (rest : List LogEntry) × (entries ≡ first ∷ rest)
        × All (HasField patterns first.header) e.forwarded_headers
        × All (LacksField first.header) e.forwarded_headers_absent

  first_iff :
      (e : Expect) (first : LogEntry)
      → (match_all patterns forwarded e.forwarded_headers first.header
            ++ absent_all patterns forwarded e.forwarded_headers_absent first.header
          ≡ [])
        ↔ (All (HasField patterns first.header) e.forwarded_headers
            × All (LacksField first.header) e.forwarded_headers_absent)
  first_iff e first =
      let (sound, full) = match_all_iff forwarded e.forwarded_headers first.header in
      let (sound', full') = absent_all_iff forwarded e.forwarded_headers_absent first.header in
      let (split, join) = append_eq_nil _ _ in
      (λ h. (sound (split h).0, sound' (split h).1), λ h. join (full h.0, full' h.1))

  both_empty : (xs ys : List Str) → ((length xs + length ys == 0) ≡ true) ↔ ((xs ≡ []) × (ys ≡ []))
  both_empty [] [] = ground arith
  both_empty [] (y ∷ ys) = ground arith
  both_empty (x ∷ xs) ys = ground arith

  check_forwarded_headers_iff :
      (e : Expect) (entries : List LogEntry)
      → (check_forwarded_headers patterns e entries ≡ []) ↔ ForwardedOk e entries
  unfolding check_forwarded_headers
  check_forwarded_headers_iff e [] =
      let (sound, full) = both_empty e.forwarded_headers e.forwarded_headers_absent in
      (
        λ h. inl (sound (ground arith)),
        ⊎_elim (λ h. ground (arith, full h)) (λ (first, rest, same, _, _). absurd (cc)),
      )
  check_forwarded_headers_iff e (first ∷ rest) =
      let (sound, full) = both_empty e.forwarded_headers e.forwarded_headers_absent in
      let (sound', full') = first_iff e first in
      elim (Bool-cases (length e.forwarded_headers + length e.forwarded_headers_absent == 0)) [
        | inl none_wanted ↦ (λ _. inl (sound none_wanted), λ _. ground arith)
        | inr wanted ↦ (
          λ h.
              let (present, absent) = sound' (ground arith) in
              inr (first, rest, refl, present, absent),
          ⊎_elim (λ h. absurd (ground (arith, full h)))
              (λ (first', rest', same, present, absent).
                let equal : first' ≡ first = cc in
                ground (arith, full' (rw equal at present, rw equal at absent))),
        )
      ]

  check_forwarded_iff :
      (want : Option Bool) (entries : List LogEntry)
      → (check_forwarded want entries ≡ [])
        ↔ ((want ≡ some true → entries ≢ []) × (want ≡ some false → entries ≡ []))
  unfolding check_forwarded
  check_forwarded_iff want entries = ground arith

  -- The step's expectations produce no message exactly if the observation meets all of them.
  check_all_iff :
      (e : Expect) (o : Observation) (entries : List LogEntry)
      → (check_all patterns e o entries ≡ []) ↔ Meets patterns e o entries
  unfolding check_all
  check_all_iff e o entries = (
    λ h.
        let (h1, r1) = (append_eq_nil _ _).0 h in
        let (h2, r2) = (append_eq_nil _ _).0 r1 in
        let (h3, r3) = (append_eq_nil _ _).0 r2 in
        let (h4, r4) = (append_eq_nil _ _).0 r3 in
        let (h5, r5) = (append_eq_nil _ _).0 r4 in
        let (h6, r6) = (append_eq_nil _ _).0 r5 in
        let (h7, h8) = (append_eq_nil _ _).0 r6 in
        record {
          status = (check_status_iff e.status o.status).0 h1;
          headers = (match_all_iff response e.headers o.header).0 h2;
          headers_absent = (absent_all_iff response e.headers_absent o.header).0 h3;
          trailers = (match_all_iff trailer e.trailers o.trailer).0 h4;
          body = (check_body_iff e.body o.body).0 h5;
          interim = (check_interim_iff e.interim o.interim).0 h6;
          must_forward = ((check_forwarded_iff e.forwarded entries).0 h7).0;
          must_answer = ((check_forwarded_iff e.forwarded entries).0 h7).1;
          forwarded_headers = (check_forwarded_headers_iff e entries).0 h8;
        },
    λ m.
        rw
          (
            (check_status_iff e.status o.status).1 m.status,
            (match_all_iff response e.headers o.header).1 m.headers,
            (absent_all_iff response e.headers_absent o.header).1 m.headers_absent,
            (match_all_iff trailer e.trailers o.trailer).1 m.trailers,
            (check_body_iff e.body o.body).1 m.body,
            (check_interim_iff e.interim o.interim).1 m.interim,
            (check_forwarded_iff e.forwarded entries).1 (m.must_forward, m.must_answer),
          )
          ((check_forwarded_headers_iff e entries).1 m.forwarded_headers),
  )

  -- A step passes: its request got a response, which meets the expectations if there are any.
  abbrev pub Passes : Option Expect → Observation → List LogEntry → Type 0
  Passes e o entries = (o.err ≡ none) × ((e' : Expect) → e ≡ some e' → Meets patterns e' o entries)

  -- A request step is reported on exactly if its request failed or an expectation is not met.
  pub evaluate_step_iff :
      (e : Option Expect) (o : Observation) (entries : List LogEntry)
      → (evaluate_step patterns e o entries ≡ []) ↔ Passes e o entries
  unfolding evaluate_step
  evaluate_step_iff none o entries = (λ h. (ground arith, λ e' k. cc), λ h. ground arith)
  evaluate_step_iff (some e) o entries =
      let (sound, full) = check_all_iff e o entries in
      (
        λ h. (ground arith, λ e' k. let same : e ≡ e' = cc in rw (← same) (sound (ground arith))),
        λ h. ground (arith, full (h.1 e refl)),
      )
