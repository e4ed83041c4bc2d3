-- ===== src/Examples/Definitions.antt =====
-- A test definition as it is decoded, of pkg/testdef.
use mecone.Prelude.{◌≡◌, ◌↔◌, some, [], ◌∷◌, str}
use mecone.TestDef.{Decoded, level_must}
use mecone.TestDef.Validate.{validate}
use mecone.TestDef.Validate.Accepted.{ValidTest, validate_iff}
use mecone.Examples.Texts.{fixed_times}
use mecone.Examples.Requests.{page, get_page}
use mecone.Examples.Checks.{literal}

abbrev pub decoded_test : Decoded
decoded_test = record {
  id = str "page";
  title = str "Page";
  level = level_must;
  refs = str "RFC9111#4" ∷ [];
  protocols = str "h1" ∷ [];
  requires = [];
  responses = (str "page", some page) ∷ [];
  steps = some get_page ∷ [];
  suite = [];
  group = [];
}

validate_iff_example :
    (validate fixed_times literal decoded_test ≡ []) ↔ ValidTest fixed_times literal decoded_test
validate_iff_example = validate_iff fixed_times literal decoded_test
