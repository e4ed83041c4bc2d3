-- ===== src/Protocol/Bodies.antt =====
-- pkg/protocol/protocol.go: theorems about the body of a scripted response.
use mecone.Prelude.{
  ℕ, zero, suc, ◌+◌, ◌%◌, ◌<◌, ◌≡◌, ◌≢◌, refl, sym, ap, ◌∙◌, [], ◌∷◌, some, none, Str, eq_str_iff,
  pos, length, get_elem?, arith,
}
use mecone.Protocol.{Response, body_alphabet, body_byte, body_from, response_body}

length-body_from : (i n : ℕ) → length (body_from i n) ≡ n
unfolding body_from
length-body_from i zero = refl
length-body_from i (suc n) = ap suc (length-body_from (i + 1) n)

get_elem?-body_from : (i n k : ℕ) → k < n → get_elem? (body_from i n) k ≡ some (body_byte (i + k))
unfolding body_from
get_elem?-body_from i zero k h = absurd (omega arith)
get_elem?-body_from i (suc n) zero h = ap (λ j. some (body_byte j)) (omega arith)
get_elem?-body_from i (suc n) (suc k) h =
    get_elem?-body_from (i + 1) n k (omega arith) ∙ ap (λ j. some (body_byte j)) (omega arith)

get_elem?-or_zero :
    (xs : Str) (i : ℕ)
    → i < length xs
    → get_elem? xs i ≡ some (elim (get_elem? xs i) [ some c ↦ c | none ↦ 0 ])
get_elem?-or_zero [] i h = absurd (omega arith)
get_elem?-or_zero (x ∷ xs) zero h = refl
get_elem?-or_zero (x ∷ xs) (suc i) h = get_elem?-or_zero xs i (omega arith)

byte_in_alphabet : (k : ℕ) → get_elem? body_alphabet (k % 36) ≡ some (body_byte k)
unfolding body_byte
byte_in_alphabet k = get_elem?-or_zero body_alphabet (k % 36) (omega arith)

-- A literal body is sent as it is.
pub response_body-literal : (r : Response) → r.body ≢ [] → response_body r ≡ r.body
unfolding response_body
response_body-literal r h = ground (arith, eq_str_iff r.body [])

-- A response with a size and no literal body sends a body of that size whose byte at `k` is the
-- alphabet's at `k % 36`, so that every range of it can be told in advance.
response_body-sized :
    (r : Response) (n : ℕ)
    → r.body ≡ []
    → r.body_size ≡ pos (suc n)
    → (length (response_body r) ≡ suc n)
      × ((k : ℕ) → k < suc n → get_elem? (response_body r) k ≡ get_elem? body_alphabet (k % 36))
unfolding response_body
response_body-sized r n b s =
    let same : response_body r ≡ body_from 0 (suc n) = ground (arith, eq_str_iff r.body []) in
    rw same (
      length-body_from 0 (suc n),
      λ k h.
          get_elem?-body_from 0 (suc n) k h
          ∙ ap (λ j. some (body_byte j)) (omega arith)
          ∙ sym (byte_in_alphabet k),
    )
