-- ===== src/Strconv.antt =====
-- The functions of Go's package `strconv` that the program calls.
pub mod RoundTrip
use mecone.Prelude.{
  ℕ, zero, suc, ◌+◌, ◌-◌, ◌*◌, ◌/◌, ◌%◌, ◌^◌, ◌&&◌, Option, none, some, [], ◌∷◌, ◌++◌, Str, ℤ, pos,
  negsuc, ltb, leb, ◌==◌, if◌then◌else◌,
}

-- strconv.Itoa of a number that is not negative; the fuel is a bound on its digits
unfoldable pub itoa_fuel : ℕ → ℕ → Str
itoa_fuel zero n = []
itoa_fuel (suc fuel) n =
    let rest = itoa_fuel fuel (n / 10) ++ (b'0' + n % 10) ∷ [] in
    if ltb n 10 then (b'0' + n) ∷ [] else rest

unfoldable pub itoa : ℕ → Str
unfolding itoa_fuel
itoa n = itoa_fuel (suc n) n

-- strconv.Itoa of an int that may be negative
abbrev pub itoa_int : ℤ → Str
itoa_int (pos n) = itoa n
itoa_int (negsuc n) = b'-' ∷ itoa (suc n)

-- The value of a digit.
unfoldable pub digit_value : ℕ → Option ℕ
digit_value c = if leb b'0' c && leb c b'9' then some (c - b'0') else none

-- The value of a text of digits behind those that give `acc`, none at another character.
unfoldable pub digits_value : ℕ → Str → Option ℕ
unfolding digit_value
digits_value acc [] = some acc
digits_value acc (c ∷ s) = elim (digit_value c) [
  | none ↦ none
  | some d ↦ digits_value (acc * 10 + d) s
]

abbrev max_int : ℕ
max_int = 2 ^ 63 - 1

abbrev positive : Option ℕ → ℤ
positive none = pos 0
positive (some n) = if leb n max_int then pos n else pos max_int

abbrev negative : Option ℕ → ℤ
negative none = pos 0
negative (some zero) = pos 0
negative (some (suc n)) = if leb n max_int then negsuc n else negsuc max_int

abbrev unsigned : Str → Option ℕ
unsigned [] = none
unsigned (c ∷ s) = digits_value 0 (c ∷ s)

-- strconv.Atoi with its error ignored: 0 for what is no number, the nearest number for what is out
-- of range
unfoldable pub atoi : Str → ℤ
unfolding digits_value
atoi [] = pos 0
atoi (c ∷ s) =
    if c == b'-'
    then negative (unsigned s)
    else if c == b'+'
    then positive (unsigned s)
    else positive (unsigned (c ∷ s))
