-- ===== src/TestDef.antt =====
-- pkg/testdef/types.go and testdef.go: test definitions. What a file may leave empty in a list or a
-- map is a nil pointer there, so a decoded test holds options, and a valid one none of them is nil.
pub mod Script
pub mod Validate
use mecone.Prelude.{
  ℕ, ◌+◌, ◌-◌, ◌/◌, Bool, true, false, ◌&&◌, ◌||◌, Option, none, some, List, [], ◌∷◌, ◌++◌, Str,
  str, eq_str, ℤ, eq_ℤ, leb, ◌==◌, if◌then◌else◌, any,
}
use mecone.Strings.{cut, trim_prefix}
use mecone.Maps.{Map}
use mecone.Protocol.{Interim}
use mecone.Proto.{contains}
use mecone.Regexp.{Re, char, seq, star, plus, opt, match_string}

-- type Level
abbrev pub level_must : Str
level_must = str "must"

abbrev pub level_should : Str
level_should = str "should"

abbrev pub level_may : Str
level_may = str "may"

abbrev pub level_info : Str
level_info = str "info"

-- Levels
abbrev pub levels : List Str
levels = level_must ∷ level_should ∷ level_may ∷ level_info ∷ []

-- type Response struct; a duration is in nanoseconds
pub record Response : Type 0 where
  pub status : ℤ
  pub headers : List Str
  pub body : Str
  pub body_size : ℤ
  pub interim : List Interim
  pub trailers : List Str
  pub ignore_conditionals : Bool
  pub ranges : Bool
  pub delay : ℤ
  pub disconnect : Bool

-- type Expect struct
pub record Expect : Type 0 where
  pub status : List ℤ
  pub headers : List Str
  pub headers_absent : List Str
  pub body : Option Str
  pub interim : List ℤ
  pub trailers : List Str
  pub forwarded : Option Bool
  pub forwarded_headers : List Str
  pub forwarded_headers_absent : List Str

-- type Step struct
pub record Step : Type 0 where
  pub wait : Option ℤ
  pub parallel : Bool
  pub method : Str
  pub path : Str
  pub query : Str
  pub headers : List Str
  pub body : Str
  pub respond_with : Str
  pub arrange : Bool
  pub expect : Option Expect

-- type Test struct, over what stands for a response and a step
pub record TestOf (R S : Type 0) : Type 0 where
  pub id : Str
  pub title : Str
  pub level : Str
  pub refs : List Str
  pub protocols : List Str
  pub requires : List Str
  pub responses : Map Str R
  pub steps : List S
  pub suite : Str
  pub group : Str

-- a test as it is decoded, and one with no nil pointer
abbrev pub Decoded : Type 0
Decoded = TestOf (Option Response) (Option Step)

abbrev pub Test : Type 0
Test = TestOf Response Step

-- func (s *Step) IsWait
unfoldable pub is_wait : Step → Bool
is_wait s = elim s.wait [ none ↦ false | some _ ↦ true ]

-- func (t *Test) RunsOver
unfoldable pub runs_over : Test → Str → Bool
runs_over t p = elim t.protocols [ [] ↦ true | _ ∷ _ ↦ contains t.protocols p ]

-- func (s StatusSet) Contains
unfoldable pub status_contains : List ℤ → ℤ → Bool
status_contains set code = any (λ c. eq_ℤ c code) set

abbrev digit : ℕ → Bool
digit c = leb b'0' c && leb c b'9'

abbrev lower_alnum : ℕ → Bool
lower_alnum c = (leb b'a' c && leb c b'z') || digit c

abbrev alnum : ℕ → Bool
alnum c = digit c || (leb b'A' c && leb c b'Z') || (leb b'a' c && leb c b'z')

abbrev pub lit : ℕ → Re
lit c = char (λ d. d == c)

-- refPattern: ^RFC[1-9][0-9]*(#[0-9A-Za-z]([0-9A-Za-z.-]*[0-9A-Za-z])?)?$
abbrev pub ref_pattern : Re
ref_pattern = seq (lit b'R') (
    seq (lit b'F') (
      seq (lit b'C') (
        seq (char (λ c. leb b'1' c && leb c b'9')) (
          seq (star (char digit)) (
            opt (
              seq (lit b'#') (
                seq (char alnum) (
                  opt (
                    seq (star (char (λ c. alnum c || c == b'.' || c == b'-'))) (char alnum))))))))))

-- func (r Ref) Valid
unfoldable pub ref_valid : Str → Bool
ref_valid r = match_string ref_pattern r

-- func (r Ref) URL
unfoldable pub ref_url : Str → Str
ref_url r =
    let (num, section, _) = cut (trim_prefix r (str "RFC")) (str "#") in
    let u = str "https://www.rfc-editor.org/rfc/rfc" ++ num in
    if eq_str section [] then u else u ++ (str "#section-" ++ section)

-- idPattern: ^[a-z0-9]+(?:-[a-z0-9]+)*$
abbrev pub id_pattern : Re
id_pattern = seq (plus (char lower_alnum)) (star (seq (lit b'-') (plus (char lower_alnum))))

-- func ValidID
unfoldable pub valid_id : Str → Bool
valid_id id = match_string id_pattern id
