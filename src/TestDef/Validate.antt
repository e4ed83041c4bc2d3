-- ===== src/TestDef/Validate.antt =====
-- pkg/testdef/validate.go: the problems of a test definition. A problem is the case that it reports
-- with the values that it prints. The order of the problems of several responses is that of the map,
-- which Go leaves open.
pub mod Meaning
pub mod Accepted
use mecone.Prelude.{
  demand, each, ℕ, ◌+◌, ◌*◌, ◌/◌, ◌^◌, Bool, true, false, ◌&&◌, ◌||◌, not, Option, none, some, List,
  [], ◌∷◌, ◌++◌, map, Str, str, eq_str, ℤ, pos, leb_ℤ, eq_ℤ, ok, err, ltb, if◌then◌else◌, length,
  all, any,
}
use mecone.Maps
use mecone.Maps.{Map, str_key}
use mecone.Strings.{cut_prefix, has_prefix, contains_any, trim_space}
use mecone.Http.{is_tchar}
use mecone.Protocol.{Interim}
use mecone.Protocol.Lines.{Times, TemplateError, split_line, check_templates}
use mecone.Proto
use mecone.TestDef.{Response, Expect, Step, Decoded, levels, is_wait, ref_valid, valid_id}
use mecone.TestDef.Script.{step_number}
use mecone.Check.{Patterns}

abbrev pub max_body_size : ℕ
max_body_size = 16 * 2 ^ 20

-- type lineKind
pub data LineKind : Type 0 where
  send_line expect_line name_line : LineKind

pub data LineProblem : Type 0 where
  bad_name no_value bad_pattern not_a_name : LineProblem
  bad_template : TemplateError → LineProblem

pub data Problem : Type 0 where
  no_title empty_response two_bodies ranges_status negative_delay : Problem
  empty_step bad_wait wait_requests response_required no_request contradiction : Problem
  bad_id bad_level bad_ref bad_protocol bad_dependency bad_response_name : Str → Problem
  bad_method bad_path bad_query unknown_response : Str → Problem
  bad_status bad_body_size bad_interim expected_status expected_interim : ℤ → Problem
  bad_line : (line : Str) → LineProblem → Problem
  in_response : Str → Problem → Problem
  in_step : ℕ → Problem → Problem

-- func inRange
unfoldable pub in_range : ℤ → ℤ → ℤ → Bool
in_range v lo hi = leb_ℤ lo v && leb_ℤ v hi

-- func validToken
unfoldable pub valid_token : Str → Bool
valid_token s = if eq_str s [] then false else all is_tchar s

-- func validPath
unfoldable pub valid_path : Str → Bool
valid_path path = has_prefix path (str "/") && not (contains_any path (str "?# "))

-- func (s *Step) sendsRequest
unfoldable pub sends_request : Step → Bool
sends_request s =
    s.parallel
    || not (eq_str s.method [])
    || not (eq_str s.path [])
    || not (eq_str s.query [])
    || not (eq_str s.body [])
    || ltb 0 (length s.headers)
    || not (eq_str s.respond_with [])
    || s.arrange
    || elim s.expect [ none ↦ false | some _ ↦ true ]

-- func (s *Step) isRequest
unfoldable pub is_request : Option Step → Bool
is_request none = false
is_request (some s) = not (is_wait s)

-- func (s *Step) validateWait
unfoldable pub validate_wait : ℤ → Step → List Problem
validate_wait wait s =
    if leb_ℤ wait (pos 0) then bad_wait ∷ [] else if sends_request s then wait_requests ∷ [] else []

-- func (s *Step) validateRespondWith, of the responses of the test
unfoldable pub validate_respond_with : Map Str (Option Response) → Step → List Problem
validate_respond_with responses s =
    let known : Bool = elim (Maps.lookup s.respond_with responses) [
      | none ↦ false
      | some _ ↦ true
    ] in
    if not (eq_str s.respond_with []) && not known
    then unknown_response s.respond_with ∷ []
    else if eq_str s.respond_with [] && ltb 1 (length responses)
    then response_required ∷ []
    else []

-- func (e *Expect) validateStatus
unfoldable pub validate_status : Expect → List Problem
validate_status e =
    each (λ c. demand (in_range c (pos 100) (pos 999)) (expected_status c)) e.status
    ++ each (λ c. demand (in_range c (pos 100) (pos 199)) (expected_interim c)) e.interim

-- func (e *Expect) hasForwardedHeaders
unfoldable pub has_forwarded_headers : Expect → Bool
has_forwarded_headers e =
    ltb 0 (length e.forwarded_headers) || ltb 0 (length e.forwarded_headers_absent)

-- e.Forwarded != nil && !*e.Forwarded
abbrev pub refuses_forwarding : Expect → Bool
refuses_forwarding e = elim e.forwarded [ none ↦ false | some f ↦ not f ]

-- func (r *Response) validateBody
unfoldable pub validate_body : Response → List Problem
validate_body r =
    demand (eq_str r.body [] || eq_ℤ r.body_size (pos 0)) two_bodies
    ++ demand (in_range r.body_size (pos 0) (pos max_body_size)) (bad_body_size r.body_size)

module _ (times : Times) (patterns : Patterns) where
  -- func checkPattern
  unfoldable pub check_pattern : Str → Option LineProblem
  check_pattern value = elim (cut_prefix value (str "~")) [
    | none ↦ none
    | some pattern ↦ elim (patterns.compile pattern) [ none ↦ some bad_pattern | some _ ↦ none ]
  ]

  -- func checkLine
  unfoldable pub check_line : Str → LineKind → Option LineProblem
  check_line line kind =
      let (name, value, has_value) = split_line line in
      if not (valid_token name) then some bad_name else elim kind [
        | send_line ↦
            (if not has_value then some no_value else elim (check_templates times value) [
              | none ↦ none
              | some e ↦ some (bad_template e)
            ])
        | expect_line ↦ check_pattern value
        | name_line ↦ (if has_value then some not_a_name else none)
      ]

  -- func checkLines
  unfoldable pub check_lines : List Str → LineKind → List Problem
  check_lines lines kind =
      each (λ line. elim (check_line line kind) [ none ↦ [] | some p ↦ bad_line line p ∷ [] ]) lines

  -- func (r *Response) validateInterim
  unfoldable pub validate_interim : List Interim → List Problem
  validate_interim interim =
      each
        (λ i.
          demand (in_range i.status (pos 100) (pos 199) && not (eq_ℤ i.status (pos 101)))
            (bad_interim i.status)
          ++ check_lines i.headers send_line)
        interim

  -- func (r *Response) validate
  unfoldable pub validate_response : Option Response → List Problem
  validate_response none = empty_response ∷ []
  validate_response (some r) =
      demand (eq_ℤ r.status (pos 0) || in_range r.status (pos 200) (pos 999)) (bad_status r.status)
      ++ (validate_body r
          ++ (demand (not r.ranges || eq_ℤ r.status (pos 0) || eq_ℤ r.status (pos 200))
                ranges_status
              ++ (demand (leb_ℤ (pos 0) r.delay) negative_delay
                  ++ (check_lines r.headers send_line
                      ++ (check_lines r.trailers send_line ++ validate_interim r.interim)))))

  -- func (e *Expect) validate
  unfoldable pub validate_expect : Expect → List Problem
  validate_expect e =
      validate_status e
      ++ (demand (not (refuses_forwarding e && has_forwarded_headers e)) contradiction
          ++ (check_lines e.headers expect_line
              ++ (check_lines e.trailers expect_line
                  ++ (check_lines e.forwarded_headers expect_line
                      ++ (check_lines e.headers_absent name_line
                          ++ check_lines e.forwarded_headers_absent name_line)))))

  -- func (s *Step) validateRequest
  unfoldable pub validate_request : Map Str (Option Response) → Step → List Problem
  validate_request responses s =
      demand (eq_str s.method [] || valid_token s.method) (bad_method s.method)
      ++ (demand (eq_str s.path [] || valid_path s.path) (bad_path s.path)
          ++ (demand (not (contains_any s.query (str "# "))) (bad_query s.query)
              ++ (check_lines s.headers send_line
                  ++ (validate_respond_with responses s
                      ++ elim s.expect [ none ↦ [] | some e ↦ validate_expect e ]))))

  -- func (s *Step) validate
  unfoldable pub validate_step : Map Str (Option Response) → Option Step → List Problem
  validate_step responses none = empty_step ∷ []
  validate_step responses (some s) = elim s.wait [
    | some wait ↦ validate_wait wait s
    | none ↦ validate_request responses s
  ]

  -- func (t *Test) validateIdentity
  unfoldable pub validate_identity : Decoded → List Problem
  validate_identity t =
      demand (valid_id t.id) (bad_id t.id)
      ++ (demand (not (eq_str (trim_space t.title) [])) no_title
          ++ (demand (any (λ l. eq_str l t.level) levels) (bad_level t.level)
              ++ each (λ r. demand (ref_valid r) (bad_ref r)) t.refs))

  -- func (t *Test) validatePrerequisites
  unfoldable pub validate_prerequisites : Decoded → List Problem
  validate_prerequisites t =
      each (λ p. elim (Proto.parse p) [ ok _ ↦ [] | err _ ↦ bad_protocol p ∷ [] ]) t.protocols
      ++ each (λ d. demand (not (eq_str d t.id) && valid_id d) (bad_dependency d)) t.requires

  -- func (t *Test) validateResponses
  unfoldable pub validate_responses : Map Str (Option Response) → List Problem
  validate_responses responses =
      each
        (λ (name, r).
          demand (valid_id name) (bad_response_name name)
          ++ map (in_response name) (validate_response r))
        responses

  -- the loop of `validateSteps`, from the step at index `i`
  unfoldable pub validate_steps_from :
      Map Str (Option Response) → ℕ → List (Option Step) → List Problem
  validate_steps_from responses i [] = []
  validate_steps_from responses i (s ∷ steps) =
      map (in_step (step_number i)) (validate_step responses s)
      ++ validate_steps_from responses (i + 1) steps

  -- func (t *Test) validateSteps
  unfoldable pub validate_steps : Decoded → List Problem
  validate_steps t =
      validate_steps_from t.responses 0 t.steps ++ demand (any is_request t.steps) no_request

  -- func (t *Test) Validate; no problem is a nil error
  unfoldable pub validate : Decoded → List Problem
  validate t =
      validate_identity t
      ++ (validate_prerequisites t ++ (validate_responses t.responses ++ validate_steps t))
