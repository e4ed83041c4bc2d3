-- ===== src/Strconv/RoundTrip.antt =====
-- Theorems about `atoi` and `itoa`.
use mecone.Prelude.{
  ℕ, zero, suc, ◌+◌, ◌*◌, ◌/◌, ◌%◌, ◌^◌, ◌≤◌, ◌<◌, ◌≡◌, refl, ap, inl, inr, some, [], ◌∷◌, ◌++◌,
  Str, pos, Bool-cases, Option-cases, arith, ltb,
}
use mecone.Strconv.{itoa_fuel, itoa, digit_value, digits_value, atoi}

digits_value-append :
    (acc d : ℕ) (s : Str) (n : ℕ)
    → d < 10
    → digits_value acc s ≡ some n
    → digits_value acc (s ++ (b'0' + d) ∷ []) ≡ some (n * 10 + d)
unfolding digits_value
digits_value-append acc d [] n h e = ground arith
digits_value-append acc d (c ∷ s) n h e = elim (Option-cases (digit_value c)) [
  | inl bad ↦ absurd (ground arith)
  | inr (v, good) ↦ ground (arith, digits_value-append (acc * 10 + v) d s n h)
]

digits_value-itoa_fuel : (fuel n : ℕ) → n < fuel → digits_value 0 (itoa_fuel fuel n) ≡ some n
unfolding itoa_fuel digits_value
digits_value-itoa_fuel zero n h = absurd (omega arith)
digits_value-itoa_fuel (suc fuel) n h = elim (Bool-cases (ltb n 10)) [
  | inl small ↦ ground arith
  | inr large ↦
      let more =
        digits_value-append 0 (n % 10) (itoa_fuel fuel (n / 10)) (n / 10) (omega arith)
          (digits_value-itoa_fuel fuel (n / 10) (ground arith)) in
      let same : n / 10 * 10 + n % 10 ≡ n = omega arith in ground (arith, more, same)
]

-- A printed number begins with a digit.
record StartsWithDigit (s : Str) : Type 0 where
  first : ℕ
  rest : Str
  is : s ≡ first ∷ rest
  from : b'0' ≤ first
  to : first ≤ b'9'

one_digit : (d : ℕ) → d < 10 → StartsWithDigit ((b'0' + d) ∷ [])
one_digit d h = record {
  first = b'0' + d;
  rest = [];
  is = refl;
  from = omega arith;
  to = omega arith;
}

append-StartsWithDigit : (s t : Str) → StartsWithDigit s → StartsWithDigit (s ++ t)
append-StartsWithDigit s t h = record {
  first = h.first;
  rest = h.rest ++ t;
  is = ap (λ u. u ++ t) h.is;
  from = h.from;
  to = h.to;
}

itoa_fuel-StartsWithDigit : (fuel n : ℕ) → StartsWithDigit (itoa_fuel (suc fuel) n)
unfolding itoa_fuel
itoa_fuel-StartsWithDigit zero n = elim (Bool-cases (ltb n 10)) [
  | inl small ↦ rw (small, itoa_fuel) (one_digit n (ground arith))
  | inr large ↦ rw (large, itoa_fuel) (one_digit (n % 10) (omega arith))
]
itoa_fuel-StartsWithDigit (suc fuel) n = elim (Bool-cases (ltb n 10)) [
  | inl small ↦ rw (small, itoa_fuel) (one_digit n (ground arith))
  | inr large ↦
      rw (large, itoa_fuel) (append-StartsWithDigit _ _ (itoa_fuel-StartsWithDigit fuel (n / 10)))
]

-- The step number that the client prints into a request is the one that the origin reads.
pub atoi-itoa : (n : ℕ) → n < 2 ^ 63 → atoi (itoa n) ≡ pos n
unfolding atoi
atoi-itoa n h =
    let start = itoa_fuel-StartsWithDigit n n in
    let value = digits_value-itoa_fuel (suc n) n (omega arith) in
    let printed : itoa n ≡ itoa_fuel (suc n) n = unfold itoa in refl in
    let is = start.is in rw (printed, is) (ground (arith, start.from, start.to))
