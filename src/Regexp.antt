-- ===== src/Regexp.antt =====
-- Regular expressions over characters, for the patterns that the source compiles. Anchored patterns
-- with no captures mean what their derivatives compute.
pub mod Language
use mecone.Prelude.{ℕ, Bool, true, false, ◌&&◌, ◌||◌, [], ◌∷◌, Str, if◌then◌else◌}

pub data Re : Type 0 where
  never empty : Re
  char : (ℕ → Bool) → Re
  seq alt : Re → Re → Re
  star : Re → Re

-- e+ and e?
abbrev pub plus : Re → Re
plus r = seq r (star r)

abbrev pub opt : Re → Re
opt r = alt empty r

unfoldable pub nullable : Re → Bool
nullable never = false
nullable empty = true
nullable (char p) = false
nullable (seq r s) = nullable r && nullable s
nullable (alt r s) = nullable r || nullable s
nullable (star r) = true

unfoldable pub deriv : ℕ → Re → Re
deriv c never = never
deriv c empty = never
deriv c (char p) = if p c then empty else never
deriv c (seq r s) = if nullable r then alt (seq (deriv c r) s) (deriv c s) else seq (deriv c r) s
deriv c (alt r s) = alt (deriv c r) (deriv c s)
deriv c (star r) = seq (deriv c r) (star r)

-- re.MatchString(s) of the pattern ^re$
unfoldable pub match_string : Re → Str → Bool
unfolding nullable deriv
match_string r [] = nullable r
match_string r (c ∷ s) = match_string (deriv c r) s
