-- ===== src/Protocol/Lines.antt =====
-- pkg/protocol/lines.go: header lines and the date templates in their values. Formatting a date and
-- parsing a duration are package `time`'s, and parameters.
pub mod Templates
use mecone.Prelude.{
  ℕ, zero, suc, ◌+◌, Bool, true, false, ◌&&◌, ◌||◌, not, Option, none, some, List, [], ◌∷◌, ◌++◌,
  Str, str, eq_str, ℤ, pos, Result, ok, err, ◌>>=◌, ◌==◌, length, if◌then◌else◌,
}
use mecone.Strings.{cut, cut_prefix, has_prefix, trim, trim_space}

-- What the program uses of package `time`. Times are nanoseconds since the zero time.
pub record Times : Type 0 where
  -- now.Add(d).UTC().Format(http.TimeFormat)
  pub http_date : ℕ → ℤ → Str
  -- time.ParseDuration
  pub parse_duration : Str → Option ℤ
  -- http.ParseTime
  pub parse_time : Str → Option ℕ

abbrev pub template_open : Str
template_open = str "${"

abbrev pub template_close : Str
template_close = str "}"

abbrev pub template_now : Str
template_now = str "now"

-- The errors of a malformed template; `exhausted` marks a loop that ran out of fuel.
pub data TemplateError : Type 0 where
  unterminated exhausted : TemplateError
  unknown_template bad_sign bad_duration : Str → TemplateError

-- the cut set " \t" of `SplitLine`
abbrev blank : ℕ → Bool
blank c = c == 0x20 || c == 0x09

-- func SplitLine
unfoldable pub split_line : Str → Str × Str × Bool
split_line line =
    let (name, value, has_value) = cut line (str ":") in
    (trim_space name, trim blank value, has_value)

module _ (times : Times) where
  -- func parseTemplate
  unfoldable pub parse_template : Str → Result TemplateError ℤ
  parse_template t =
      if eq_str t template_now then ok (pos 0) else elim (cut_prefix t template_now) [
        | none ↦ err (unknown_template t)
        | some rest ↦
            (if not (has_prefix rest (str "+")) && not (has_prefix rest (str "-"))
              then err (bad_sign t)
              else elim (times.parse_duration rest) [ none ↦ err (bad_duration t) | some d ↦ ok d ])
      ]

  -- the loop of `expandTemplates`: `out` is written, and `rest` follows an opening brace
  unfoldable pub expand_loop : ℕ → ℕ → Str → Str → Result TemplateError Str
  expand_loop zero now out rest = err exhausted
  expand_loop (suc fuel) now out rest =
      let (name, after, closed) = cut rest template_close in
      let (before, rest', found) = cut after template_open in
      if not closed then err unterminated else (do
        d ← parse_template name
        let out' = out ++ (times.http_date now d ++ before)
        let more = expand_loop fuel now out' rest'
        if found then more else ok out')

  -- func expandTemplates
  unfoldable pub expand_templates : Str → ℕ → Result TemplateError Str
  expand_templates v now =
      let (before, rest, found) = cut v template_open in
      if not found then ok v else expand_loop (length v) now before rest

  -- func Expand
  unfoldable pub expand : Str → ℕ → Str
  expand v now = elim (expand_templates v now) [ ok out ↦ out | err _ ↦ v ]

  -- func CheckTemplates
  unfoldable pub check_templates : Str → Option TemplateError
  check_templates v = elim (expand_templates v 0) [ ok _ ↦ none | err e ↦ some e ]
