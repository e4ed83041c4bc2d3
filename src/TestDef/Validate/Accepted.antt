-- ===== src/TestDef/Validate/Accepted.antt =====
-- pkg/testdef/validate.go: what a valid test definition is as a whole, and theorems about
-- `Validate`.
use mecone.Prelude.{
  demand_for, both, each_iff, map_iff, ℕ, ◌+◌, ◌≡◌, ◌≢◌, refl, sym, ◌∙◌, ◌↔◌, ◌⊎◌, inl, inr, true,
  false, ◌&&◌, ◌||◌, not, Option, none, some, List, [], ◌∷◌, Str, str, eq_str, eq_str_iff, ℤ, pos,
  ◌≤ℤ◌, leb_ℤ, eq_ℤ, eq_ℤ_iff, ok, err, Result-cases, Bool-cases, Option-cases, arith, ltb, length,
  any, All, Any,
}
use mecone.Maps.{Map, str_key}
use mecone.Strings.{contains_any, trim_space}
use mecone.Protocol.{Interim}
use mecone.Protocol.Lines.{Times}
use mecone.Proto
use mecone.TestDef.{Response, Expect, Step, Decoded, levels, ref_valid, valid_id}
use mecone.TestDef.Script.{step_number}
use mecone.Check.{Patterns}
use mecone.TestDef.Validate.{
  LineKind, send_line, expect_line, name_line, Problem, bad_protocol, in_response, in_step,
  valid_token, valid_path, validate_wait, is_request, has_forwarded_headers, refuses_forwarding,
  validate_interim, validate_response, validate_expect, validate_request, validate_step,
  validate_identity, validate_prerequisites, validate_responses, validate_steps_from,
  validate_steps, validate,
}
use mecone.TestDef.Validate.Meaning.{
  Between, in_range_iff, ValidStatus, validate_status_iff, ValidWait, validate_wait_iff, Answerable,
  validate_respond_with_iff, ValidBody, validate_body_iff, LineOf, check_lines_iff,
}

pub any_level_iff :
    (l : Str) (ls : List Str) → (any (λ m. eq_str m l) ls ≡ true) ↔ Any (λ m. m ≡ l) ls
any_level_iff l [] = (λ h. absurd (cc), λ h. absurd h)
any_level_iff l (m ∷ ls) = ground (arith, eq_str_iff m l, any_level_iff l ls)

protocol_iff :
    (p : Str)
    → (elim (Proto.parse p) as (λ _. List Problem) [ ok _ ↦ [] | err _ ↦ bad_protocol p ∷ [] ] ≡ [])
      ↔ ((q : Str) × (Proto.parse p ≡ ok q))
protocol_iff p = elim (Result-cases (Proto.parse p)) [
  | inl (q, e) ↦ (λ _. (q, e), λ _. rw e refl)
  | inr (x, e) ↦ (λ h. absurd (ground arith), λ (q, k). absurd (cc))
]

length_iff : (xs : List Str) → (ltb 0 (length xs) ≡ false) ↔ (xs ≡ [])
length_iff [] = (λ h. refl, λ h. refl)
length_iff (x ∷ xs) = (λ h. absurd (ground arith), λ h. absurd (cc))

module _ (times : Times) (patterns : Patterns) where
  abbrev Lines : LineKind → List Str → Type 0
  Lines kind = All (LineOf times patterns kind)

  abbrev pub ValidInterim : Interim → Type 0
  ValidInterim i = (Between 100 199 i.status × (i.status ≢ pos 101)) × Lines send_line i.headers

  -- A final status or none, a body, ranges only of a 200, no negative delay, and good lines.
  abbrev pub ValidResponse : Option Response → Type 0
  ValidResponse none = ⊥
  ValidResponse (some r) =
      ((r.status ≡ pos 0) ⊎ Between 200 999 r.status)
      × (ValidBody r
          × ((r.ranges ≡ true → (r.status ≡ pos 0) ⊎ (r.status ≡ pos 200))
              × ((pos 0 ≤ℤ r.delay)
                  × (Lines send_line r.headers
                      × (Lines send_line r.trailers × All ValidInterim r.interim)))))

  abbrev pub ValidExpect : Expect → Type 0
  ValidExpect e =
      ValidStatus e
      × (((e.forwarded ≡ some false)
            → (e.forwarded_headers ≡ []) × (e.forwarded_headers_absent ≡ []))
          × (Lines expect_line e.headers
              × (Lines expect_line e.trailers
                  × (Lines expect_line e.forwarded_headers
                      × (Lines name_line e.headers_absent
                          × Lines name_line e.forwarded_headers_absent)))))

  abbrev pub ValidRequest : Map Str (Option Response) → Step → Type 0
  ValidRequest responses s =
      ((s.method ≡ []) ⊎ (valid_token s.method ≡ true))
      × (((s.path ≡ []) ⊎ (valid_path s.path ≡ true))
          × ((contains_any s.query (str "# ") ≡ false)
              × (Lines send_line s.headers
                  × (Answerable responses s × ((e : Expect) → s.expect ≡ some e → ValidExpect e)))))

  abbrev pub ValidStep : Map Str (Option Response) → Option Step → Type 0
  ValidStep responses none = ⊥
  ValidStep responses (some s) =
      ((wait : ℤ) → s.wait ≡ some wait → ValidWait wait s)
      × (s.wait ≡ none → ValidRequest responses s)

  validate_interim_iff :
      (interim : List Interim)
      → (validate_interim times patterns interim ≡ []) ↔ All ValidInterim interim
  unfolding validate_interim
  validate_interim_iff interim = each_iff _ interim (λ i.
      both
        (demand_for _ _
          (ground (arith, in_range_iff i.status 100 199, eq_ℤ_iff i.status (pos 101))))
        (check_lines_iff times patterns i.headers send_line))

  validate_response_iff :
      (r : Option Response) → (validate_response times patterns r ≡ []) ↔ ValidResponse r
  unfolding validate_response
  validate_response_iff none = (λ h. absurd (cc), λ h. absurd h)
  validate_response_iff (some r) =
      let zero_iff = eq_ℤ_iff r.status (pos 0) in
      both (demand_for _ _ (ground (arith, in_range_iff r.status 200 999, zero_iff))) (
        both (validate_body_iff r) (
          both
            (demand_for (not r.ranges || eq_ℤ r.status (pos 0) || eq_ℤ r.status (pos 200)) _
              (ground (arith, zero_iff, eq_ℤ_iff r.status (pos 200))))
            (both (demand_for (leb_ℤ (pos 0) r.delay) _ (ground arith)) (
              both (check_lines_iff times patterns r.headers send_line) (
                both (check_lines_iff times patterns r.trailers send_line)
                  (validate_interim_iff r.interim))))))

  contradiction_iff :
      (e : Expect)
      → (not (refuses_forwarding e && has_forwarded_headers e) ≡ true) ↔ (
          (e.forwarded ≡ some false)
          → (e.forwarded_headers ≡ []) × (e.forwarded_headers_absent ≡ []))
  unfolding has_forwarded_headers
  contradiction_iff e =
      let none_iff : (ltb 0 (length e.forwarded_headers) ≡ false) ↔ (e.forwarded_headers ≡ []) =
        length_iff e.forwarded_headers in
      let absent_iff = length_iff e.forwarded_headers_absent in
      elim (Option-cases e.forwarded) [
        | inl n ↦ (λ _ k. absurd (cc), λ _. ground arith)
        | inr (f, k) ↦ elim (Bool-cases f) [
          | inl refuses ↦ (λ _ q. absurd (cc), λ _. ground arith)
          | inr allows ↦ ground (arith, none_iff, absent_iff)
        ]
      ]

  validate_expect_iff : (e : Expect) → (validate_expect times patterns e ≡ []) ↔ ValidExpect e
  unfolding validate_expect has_forwarded_headers
  validate_expect_iff e =
      let lines = check_lines_iff times patterns in
      both (validate_status_iff e) (
        both (demand_for _ _ (contradiction_iff e)) (
          both (lines e.headers expect_line) (
            both (lines e.trailers expect_line) (
              both (lines e.forwarded_headers expect_line) (
                both (lines e.headers_absent name_line)
                  (lines e.forwarded_headers_absent name_line))))))

  expect_iff :
      (o : Option Expect)
      → (elim o as (λ _. List Problem) [ none ↦ [] | some e ↦ validate_expect times patterns e ]
          ≡ [])
        ↔ ((e : Expect) → o ≡ some e → ValidExpect e)
  expect_iff none = (λ h e k. absurd (cc), λ h. refl)
  expect_iff (some x) =
      let x_iff = validate_expect_iff x in
      (λ h e k. let same : x ≡ e = cc in rw (← same) (x_iff.0 h), λ h. x_iff.1 (h x refl))

  validate_request_iff :
      (responses : Map Str (Option Response)) (s : Step)
      → (validate_request times patterns responses s ≡ []) ↔ ValidRequest responses s
  unfolding validate_request
  validate_request_iff responses s =
      both
        (demand_for (eq_str s.method [] || valid_token s.method) _
          (ground (arith, eq_str_iff s.method [])))
        (both
          (demand_for (eq_str s.path [] || valid_path s.path) _
            (ground (arith, eq_str_iff s.path [])))
          (both (demand_for (not (contains_any s.query (str "# "))) _ (ground arith)) (
            both (check_lines_iff times patterns s.headers send_line)
              (both (validate_respond_with_iff responses s) (expect_iff s.expect)))))

  validate_step_iff :
      (responses : Map Str (Option Response)) (s : Option Step)
      → (validate_step times patterns responses s ≡ []) ↔ ValidStep responses s
  unfolding validate_step
  validate_step_iff responses none = (λ h. absurd (cc), λ h. absurd h)
  validate_step_iff responses (some s) = elim (Option-cases s.wait) [
    | inl n ↦
        let asks = validate_request_iff responses s in
        let same : validate_step times patterns responses (some s)
            ≡ validate_request times patterns responses s =
          ground arith in
        (λ h. (λ w k. absurd (cc), λ _. asks.0 (sym same ∙ h)), λ (_, h). same ∙ asks.1 (h n))
    | inr (wait, k) ↦
        let waits = validate_wait_iff wait s in
        let step : validate_step times patterns responses (some s) ≡ validate_wait wait s =
          ground arith in
        (
          λ h. (
            λ w q. let same : wait ≡ w = cc in rw (← same) (waits.0 (sym step ∙ h)),
            λ n. absurd (cc),
          ),
          λ (h, _). step ∙ waits.1 (h wait k),
        )
  ]

  -- The steps are valid, from any number on.
  validate_steps_from_iff :
      (responses : Map Str (Option Response)) (i : ℕ) (steps : List (Option Step))
      → (validate_steps_from times patterns responses i steps ≡ [])
        ↔ All (ValidStep responses) steps
  unfolding validate_steps_from
  validate_steps_from_iff responses i [] = (λ _. tt, λ _. refl)
  validate_steps_from_iff responses i (s ∷ steps) =
      let first = validate_step_iff responses s in
      let wrapped = map_iff (in_step (step_number i)) (validate_step times patterns responses s) in
      both (λ h. first.0 (wrapped.0 h), λ h. wrapped.1 (first.1 h))
        (validate_steps_from_iff responses (i + 1) steps)

  validate_responses_iff :
      (responses : Map Str (Option Response))
      → (validate_responses times patterns responses ≡ [])
        ↔ All (λ (name, r). (valid_id name ≡ true) × ValidResponse r) responses
  unfolding validate_responses
  validate_responses_iff responses = each_iff _ responses (λ (name, r).
      let inner = validate_response_iff r in
      let wrapped = map_iff (in_response name) (validate_response times patterns r) in
      both (demand_for _ _ (λ h. h, λ h. h))
        (λ h. inner.0 (wrapped.0 h), λ h. wrapped.1 (inner.1 h)))

  -- Good names of the test and of what it cites, protocols that the program knows, dependencies on
  -- other tests, and valid responses and steps, of which at least one sends a request.
  abbrev pub ValidTest : Decoded → Type 0
  ValidTest t =
      ((valid_id t.id ≡ true)
        × ((trim_space t.title ≢ [])
            × (Any (λ l. l ≡ t.level) levels × All (λ r. ref_valid r ≡ true) t.refs)))
      × ((All (λ p. (q : Str) × (Proto.parse p ≡ ok q)) t.protocols
            × All (λ d. (d ≢ t.id) × (valid_id d ≡ true)) t.requires)
          × (All (λ (name, r). (valid_id name ≡ true) × ValidResponse r) t.responses
              × (All (ValidStep t.responses) t.steps × (any is_request t.steps ≡ true))))

  -- Validation finds no problem in a test definition exactly if it is valid: what a file leaves empty,
  -- and every value out of its range or at odds with another, is a problem.
  pub validate_iff : (t : Decoded) → (validate times patterns t ≡ []) ↔ ValidTest t
  unfolding validate validate_identity validate_prerequisites validate_steps
  validate_iff t =
      both
        (both (demand_for _ _ (λ h. h, λ h. h)) (
          both
            (demand_for (not (eq_str (trim_space t.title) [])) _
              (ground (arith, eq_str_iff (trim_space t.title) [])))
            (both (demand_for _ _ (any_level_iff t.level levels))
              (each_iff _ t.refs (λ r. demand_for _ _ (λ h. h, λ h. h))))))
        (both
          (both (each_iff _ t.protocols (λ p. protocol_iff p)) (
            each_iff _ t.requires (λ d.
              demand_for (not (eq_str d t.id) && valid_id d) _
                (ground (arith, eq_str_iff d t.id)))))
          (both (validate_responses_iff t.responses) (
            both (validate_steps_from_iff t.responses 0 t.steps)
              (demand_for _ _ (λ h. h, λ h. h)))))
