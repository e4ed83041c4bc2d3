-- ===== src/Protocol.antt =====
-- pkg/protocol/protocol.go and pkg/protocol/log.go: the documents of the wire contract.
pub mod Ids
pub mod Lines
pub mod Bodies
use mecone.Prelude.{
  ℕ, zero, suc, ◌+◌, ◌%◌, Bool, true, false, ◌||◌, not, Option, none, some, List, [], ◌∷◌, ◌++◌,
  Str, str, eq_str, ℤ, pos, negsuc, pos_part, leb_ℤ, eq_ℤ, length, get_elem?, if◌then◌else◌,
}
use mecone.Maps
use mecone.Maps.{Map, str_key, int_key}
use mecone.Http.{Header}

-- const Version
abbrev pub version : ℕ
version = 1

-- The path prefixes of the control plane and of test traffic.
abbrev pub control_prefix : Str
control_prefix = str "/_mecone/v1/"

abbrev pub info_path : Str
info_path = control_prefix ++ str "info"

abbrev pub scripts_path : Str
scripts_path = control_prefix ++ str "scripts/"

abbrev pub logs_path : Str
logs_path = control_prefix ++ str "logs/"

abbrev pub test_prefix : Str
test_prefix = str "/t/"

abbrev pub header_step : Str
header_step = str "Mecone-Step"

abbrev pub header_response : Str
header_response = str "Mecone-Response"

abbrev pub header_origin_seq : Str
header_origin_seq = str "Mecone-Origin-Seq"

abbrev pub header_origin_time : Str
header_origin_time = str "Mecone-Origin-Time"

-- type Interim struct
pub record Interim : Type 0 where
  pub status : ℤ
  pub headers : List Str

-- type Response struct
pub record Response : Type 0 where
  pub status : ℤ
  pub headers : List Str
  pub body : Str
  pub body_size : ℤ
  pub interim : List Interim
  pub trailers : List Str
  pub ignore_conditionals : Bool
  pub ranges : Bool
  pub delay_ms : ℤ
  pub disconnect : Bool

-- Response{}
abbrev pub zero_response : Response
zero_response = record {
  status = pos 0;
  headers = [];
  body = [];
  body_size = pos 0;
  interim = [];
  trailers = [];
  ignore_conditionals = false;
  ranges = false;
  delay_ms = pos 0;
  disconnect = false;
}

-- type Script struct
pub record Script : Type 0 where
  pub responses : Map Str Response
  pub steps : Map ℤ Str
  pub default : Str

-- func (s *Script) ResponseFor: a missing key yields the zero value of the map.
unfoldable pub response_for : Script → ℤ → Str × Response
response_for s step =
    let name : Str = elim (Maps.lookup step s.steps) [ some n ↦ n | none ↦ s.default ] in
    (name, elim (Maps.lookup name s.responses) [ some r ↦ r | none ↦ zero_response ])

-- bodyAlphabet
abbrev pub body_alphabet : Str
body_alphabet = str "0123456789abcdefghijklmnopqrstuvwxyz"

-- bodyAlphabet[i%len(bodyAlphabet)]; the index is always in range
unfoldable pub body_byte : ℕ → ℕ
body_byte i = elim (get_elem? body_alphabet (i % 36)) [ some c ↦ c | none ↦ 0 ]

-- the loop of `ResponseBody`: the bytes from index `i`, `n` of them
unfoldable pub body_from : ℕ → ℕ → Str
body_from i zero = []
body_from i (suc n) = body_byte i ∷ body_from (i + 1) n

-- func ResponseBody
unfoldable pub response_body : Response → Str
response_body r =
    if not (eq_str r.body []) || leb_ℤ r.body_size (pos 0)
    then r.body
    else body_from 0 (pos_part r.body_size)

-- type LogEntry struct
pub record LogEntry : Type 0 where
  pub seq : ℕ
  pub step : ℤ
  pub response : Str
  pub received : ℕ
  pub method : Str
  pub target : Str
  pub proto : Str
  pub header : Header
  pub status : ℤ
  pub response_header : Header

-- type Log
abbrev pub Log : Type 0
Log = List LogEntry

-- func (l Log) Step
unfoldable pub log_step : Log → ℤ → List LogEntry
log_step [] n = []
log_step (e ∷ l) n = if eq_ℤ e.step n then e ∷ log_step l n else log_step l n
