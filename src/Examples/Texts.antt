-- ===== src/Examples/Texts.antt =====
-- Test IDs, paths, bodies, templates and protocol lists of pkg/protocol and pkg/proto.
use mecone.Prelude.{
  ℕ, ◌<◌, ◌≡◌, ◌≢◌, refl, true, none, some, List, [], ◌∷◌, Str, str, eq_str, pos, ok, err, arith,
  if◌then◌else◌, All,
}
use mecone.Protocol.{Response, zero_response}
use mecone.Protocol.Ids.{is_lower_hex, valid_id, test_path}
use mecone.Protocol.Ids.Isolation.{test_path-injective}
use mecone.Protocol.Lines.{
  Times, exhausted, parse_template, expand_loop, expand_templates, expand, check_templates,
}
use mecone.Protocol.Lines.Templates.{
  Renders, expand_templates-ends, expand_templates-Renders, check_templates-expand,
}
use mecone.Proto.{parse_list, parse_parts, parse, contains, append_unique, h1, h2}
use mecone.Proto.Lists.{IsKnown, Distinct, parse_list-IsKnown}
use mecone.Strings.{
  cut, cut_prefix, has_prefix, split, trim_space, trim, trim_left, trim_right, is_space,
}
use mecone.Origin.Serve.{path_id}
use mecone.Origin.Serve.Paths.{appends_clean, path_id-test_path}

-- A clock that prints one date and knows one duration.
abbrev pub fixed_times : Times
fixed_times = record {
  http_date = λ now d. str "Thu, 01 Jan 1970 00:00:00 GMT";
  parse_duration = λ s. if eq_str s (str "+1h") then some (pos 3_600_000_000_000) else none;
  parse_time = λ s. none;
}

abbrev pub id_a : Str
id_a = str "0123456789abcdef0123456789abcdef"

abbrev sized : Response
sized = record zero_response { body_size = pos 40 }

abbrev zeros : List ℕ
zeros = 0 ∷ 0 ∷ 0 ∷ 0 ∷ 0 ∷ 0 ∷ 0 ∷ 0 ∷ 0 ∷ 0 ∷ 0 ∷ 0 ∷ 0 ∷ 0 ∷ 255 ∷ 171 ∷ []

zeros-bytes : All (λ b. b < 256) zeros
zeros-bytes = ground arith

pub id_a-valid_id : valid_id id_a ≡ true
unfolding valid_id is_lower_hex
id_a-valid_id = refl

test_path-injective_example : id_a ≡ id_a
test_path-injective_example =
    test_path-injective id_a id_a (str "page") (str "page") id_a-valid_id id_a-valid_id refl

path_id-test_path_example :
    path_id (test_path id_a (str "/page"))
    ≡ (if appends_clean (str "/page") then some id_a else none)
path_id-test_path_example = path_id-test_path id_a (str "/page") id_a-valid_id

abbrev dated : Str
dated = str "max ${now} and ${now+1h}."

abbrev dated_out : Str
dated_out = str "max Thu, 01 Jan 1970 00:00:00 GMT and Thu, 01 Jan 1970 00:00:00 GMT."

dated-expands : expand_templates fixed_times dated 7 ≡ ok dated_out
unfolding expand_templates expand_loop parse_template cut cut_prefix has_prefix eq_str
dated-expands = refl

dated-checks : check_templates fixed_times dated ≡ none
unfolding check_templates expand_templates expand_loop parse_template cut cut_prefix has_prefix
    eq_str
dated-checks = refl

expand_templates-ends_example : expand_templates fixed_times dated 7 ≢ err exhausted
expand_templates-ends_example = expand_templates-ends fixed_times dated 7

expand_templates-Renders_example : Renders fixed_times 7 dated dated_out
expand_templates-Renders_example =
    expand_templates-Renders fixed_times dated 7 dated_out dated-expands

check_templates-expand_example : Renders fixed_times 7 dated (expand fixed_times dated 7)
check_templates-expand_example = check_templates-expand fixed_times dated 7 dated-checks

two_protos : parse_list (str "H1, h2,,h1") ≡ ok (h1 ∷ h2 ∷ [])
unfolding parse_list parse_parts parse contains append_unique split trim_space trim_left trim_right
    trim is_space eq_str
two_protos = refl

parse_list-IsKnown_example :
    All IsKnown (h1 ∷ h2 ∷ []) × Distinct (h1 ∷ h2 ∷ []) × ((h1 ∷ h2 ∷ []) ≢ [])
parse_list-IsKnown_example = parse_list-IsKnown (str "H1, h2,,h1") (h1 ∷ h2 ∷ []) two_protos
