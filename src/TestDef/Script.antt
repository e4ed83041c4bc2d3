-- ===== src/TestDef/Script.antt =====
-- pkg/testdef/script.go: the origin's instructions for a valid test.
pub mod Answers
use mecone.Prelude.{
  ℕ, zero, suc, ◌+◌, ◌/◌, not, List, [], ◌∷◌, Str, eq_str, ℤ, pos, negsuc, if◌then◌else◌,
}
use mecone.Maps
use mecone.Maps.{Map, str_key, int_key}
use mecone.Protocol
use mecone.Protocol.{Script}
use mecone.TestDef.{Response, Step, Test, is_wait}

-- func stepNumber
abbrev pub step_number : ℕ → ℕ
step_number index = index + 1

-- -n
abbrev negate : ℕ → ℤ
negate n = elim n [ zero ↦ pos 0 | suc m ↦ negsuc m ]

-- time.Duration.Milliseconds: a quotient that is cut off towards zero
unfoldable pub milliseconds : ℤ → ℤ
milliseconds (pos n) = pos (n / 1_000_000)
milliseconds (negsuc n) = negate (suc n / 1_000_000)

-- func (r *Response) wire
unfoldable pub wire : Response → Protocol.Response
wire r = record {
  status = r.status;
  headers = r.headers;
  body = r.body;
  body_size = r.body_size;
  interim = r.interim;
  trailers = r.trailers;
  ignore_conditionals = r.ignore_conditionals;
  ranges = r.ranges;
  delay_ms = milliseconds r.delay;
  disconnect = r.disconnect;
}

-- func (t *Test) wireResponses
unfoldable pub wire_responses : Map Str Response → Map Str Protocol.Response
wire_responses [] = []
wire_responses ((name, r) ∷ m) = (name, wire r) ∷ wire_responses m

-- the only name of a map with one entry
abbrev only_name : Map Str Response → Str
only_name ((name, _) ∷ []) = name
only_name _ = []

-- func (t *Test) ResponseFor: a step of a test with one response need not name it
unfoldable pub response_name : Test → Step → Str
response_name t s = if not (eq_str s.respond_with []) then s.respond_with else only_name t.responses

-- one round of the loop of `Script`, for the step at index `i`
unfoldable pub add_step : Test → ℕ → Step → Script → Script
add_step t i s script =
    let name = response_name t s in
    if is_wait s
    then script
    else if not (eq_str name [])
    then record script {
      steps = Maps.insert (pos (step_number i)) name script.steps;
      default = name;
    }
    else script

unfoldable pub script_from : Test → ℕ → List Step → Script → Script
script_from t i [] script = script
script_from t i (s ∷ steps) script = script_from t (i + 1) steps (add_step t i s script)

-- func (t *Test) Script
unfoldable pub script : Test → Script
script t =
    script_from t 0 t.steps
      (record { responses = wire_responses t.responses; steps = []; default = [] })
