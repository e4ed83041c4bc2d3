-- ===== src/TestDef/Script/Answers.antt =====
-- pkg/testdef/script.go: theorems about the answers of the script that a test is turned into.
use mecone.Prelude.{
  ℕ, zero, suc, ◌+◌, ◌≤◌, ◌≡◌, refl, ◌∙◌, ◌&&◌, not, Option, none, some, List, [], ◌∷◌, Str, eq_str,
  pos, eq_ℤ, arith, if◌then◌else◌, get_elem?,
}
use mecone.Maps
use mecone.Maps.{Map, str_key, int_key}
use mecone.Protocol
use mecone.Protocol.{Script, zero_response, response_for}
use mecone.TestDef.{Response, Step, Test, is_wait}
use mathlib.Core.Option
use mecone.TestDef.Script.{
  step_number, wire, wire_responses, response_name, add_step, script_from, script,
}

-- The response that the step at index `k` of `steps` names, if it is a request that names one.
abbrev pub named : Test → List Step → ℕ → Option Str
named t steps k = elim (get_elem? steps k) [
  | none ↦ none
  | some s ↦
      (if not (is_wait s) && not (eq_str (response_name t s) [])
        then some (response_name t s)
        else none)
]

abbrev pub or_else : Option Str → Option Str → Option Str
or_else (some a) o = some a
or_else none o = o

-- A round writes only its own step number.
lookup-add_step :
    (t : Test) (i n : ℕ) (s : Step) (sc : Script)
    → Maps.lookup (pos n) (add_step t i s sc).steps ≡ (
        if eq_ℤ (pos (i + 1)) (pos n)
        then or_else (named t (s ∷ []) 0) (Maps.lookup (pos n) sc.steps)
        else Maps.lookup (pos n) sc.steps)
unfolding add_step
lookup-add_step t i n s sc =
    ground (arith, Maps.lookup-insert (pos (i + 1)) (pos n) (response_name t s) sc.steps)

-- Later rounds leave the numbers of earlier steps alone.
lookup-script_from_before :
    (t : Test) (i n : ℕ) (steps : List Step) (sc : Script)
    → n ≤ i
    → Maps.lookup (pos n) (script_from t i steps sc).steps ≡ Maps.lookup (pos n) sc.steps
unfolding script_from
lookup-script_from_before t i n [] sc h = refl
lookup-script_from_before t i n (s ∷ steps) sc h =
    lookup-script_from_before t (i + 1) n steps (add_step t i s sc) (omega arith)
    ∙ ground (arith, lookup-add_step t i n s sc)

lookup-script_from :
    (t : Test) (i k : ℕ) (steps : List Step) (sc : Script)
    → Maps.lookup (pos (i + k + 1)) (script_from t i steps sc).steps
      ≡ or_else (named t steps k) (Maps.lookup (pos (i + k + 1)) sc.steps)
unfolding script_from
lookup-script_from t i k [] sc = refl
lookup-script_from t i zero (s ∷ steps) sc =
    lookup-script_from_before t (i + 1) (i + 0 + 1) steps (add_step t i s sc) (omega arith)
    ∙ ground (arith, lookup-add_step t i (i + 0 + 1) s sc)
lookup-script_from t i (suc k) (s ∷ steps) sc =
    let same : i + suc k + 1 ≡ i + 1 + k + 1 = omega arith in
    rw same (
      lookup-script_from t (i + 1) k steps (add_step t i s sc)
      ∙ ground (arith, lookup-add_step t i (i + 1 + k + 1) s sc))

-- The default after the loop: the last response that a request step names.
abbrev pub last_named : Test → List Step → Option Str
last_named t [] = none
last_named t (s ∷ steps) = or_else (last_named t steps) (named t (s ∷ steps) 0)

abbrev pub or_default : Option Str → Str → Str
or_default (some n) d = n
or_default none d = d

default-script_from :
    (t : Test) (i : ℕ) (steps : List Step) (sc : Script)
    → (script_from t i steps sc).default ≡ or_default (last_named t steps) sc.default
unfolding script_from add_step
default-script_from t i [] sc = refl
default-script_from t i (s ∷ steps) sc =
    ground (arith, default-script_from t (i + 1) steps (add_step t i s sc))

responses-script_from :
    (t : Test) (i : ℕ) (steps : List Step) (sc : Script)
    → (script_from t i steps sc).responses ≡ sc.responses
unfolding script_from add_step
responses-script_from t i [] sc = refl
responses-script_from t i (s ∷ steps) sc =
    ground (arith, responses-script_from t (i + 1) steps (add_step t i s sc))

lookup-wire_responses :
    (name : Str) (m : Map Str Response)
    → Maps.lookup name (wire_responses m) ≡ Option.map wire (Maps.lookup name m)
unfolding wire_responses Maps.lookup
lookup-wire_responses name [] = refl
lookup-wire_responses name ((j, r) ∷ m) = ground (arith, lookup-wire_responses name m)

abbrev pub wire_or_zero : Option Response → Protocol.Response
wire_or_zero none = zero_response
wire_or_zero (some r) = wire r

-- The name of the response to a request with the step number of index `k`: the one that the step
-- names, and else the last that a request step of the test names.
abbrev pub answer_name : Test → ℕ → Str
answer_name t k = or_default (or_else (named t t.steps k) (last_named t t.steps)) []

lookup-script :
    (t : Test) (k : ℕ)
    → Maps.lookup (pos (k + 1)) (script t).steps ≡ or_else (named t t.steps k) none
unfolding script Maps.lookup
lookup-script t k =
    let same : k + 1 ≡ 0 + k + 1 = omega arith in rw same (lookup-script_from t 0 k t.steps _)

answer_name-eq : (t : Test) (k : ℕ) → (response_for (script t) (pos (k + 1))).0 ≡ answer_name t k
unfolding response_for
answer_name-eq t k =
    let last : (script t).default ≡ or_default (last_named t t.steps) [] =
      unfold script in default-script_from t 0 t.steps _ in
    ground (arith, lookup-script t k)

-- The uploaded script makes the origin answer the request of step `k + 1` with the response that
-- the test gives under the step's name, translated for the wire, or under the test's last name
-- where the step has none, and with the zero response where the test does not define it.
pub response_for-script :
    (t : Test) (k : ℕ)
    → response_for (script t) (pos (step_number k))
      ≡ (answer_name t k, wire_or_zero (Maps.lookup (answer_name t k) t.responses))
unfolding response_for
response_for-script t k =
    let kept : (script t).responses ≡ wire_responses t.responses =
      unfold script in responses-script_from t 0 t.steps _ in
    ground (arith, answer_name-eq t k, lookup-wire_responses (answer_name t k) t.responses)
