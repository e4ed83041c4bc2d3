-- ===== src/Protocol/Ids/Isolation.antt =====
-- pkg/protocol/ids.go: theorems about NewID, ValidID and TestPath.
use mathlib.Core.List.{append-nil}
use mecone.Prelude.{
  ℕ, ◌*◌, ◌/◌, ◌%◌, ◌<◌, ◌≡◌, refl, ap, sym, ◌∙◌, true, List, [], ◌∷◌, ◌++◌, Str, str, eq_str,
  length, all, All, arith,
}
use mecone.Strings.{trim_prefix}
use mecone.Protocol.{test_prefix}
use mecone.Protocol.Ids.{id_len, is_lower_hex, valid_id, hex_digit, hex_encode, new_id, test_path}

length-hex_encode : (bs : List ℕ) → length (hex_encode bs) ≡ length bs * 2
unfolding hex_encode
length-hex_encode [] = refl
length-hex_encode (b ∷ bs) = omega (arith, length-hex_encode bs)

-- The digit of a number below 16 is a lower-case hexadecimal digit.
hex_digit-is_lower_hex : (d : ℕ) → d < 16 → is_lower_hex (hex_digit d) ≡ true
unfolding hex_digit is_lower_hex
hex_digit-is_lower_hex d h = ground arith

all-hex_encode : (bs : List ℕ) → All (λ b. b < 256) bs → all is_lower_hex (hex_encode bs) ≡ true
unfolding hex_encode
all-hex_encode [] h = refl
all-hex_encode (b ∷ bs) (p, h) =
    rw
      (hex_digit-is_lower_hex (b / 16) (omega arith), hex_digit-is_lower_hex (b % 16) (omega arith))
      (all-hex_encode bs h)

-- Whatever 16 bytes the random source fills in, the new ID is well formed.
new_id-valid_id :
    (bs : List ℕ) → length bs ≡ 16 → All (λ b. b < 256) bs → valid_id (new_id bs) ≡ true
unfolding new_id valid_id
new_id-valid_id bs n h = ground (arith, length-hex_encode bs, all-hex_encode bs h)

append_inj {ℓ} :
    {A : Type ℓ} (xs ys us vs : List A) → length xs ≡ length ys → xs ++ us ≡ ys ++ vs → xs ≡ ys
append_inj [] [] us vs n e = refl
append_inj [] (y ∷ ys) us vs n e = absurd (omega arith)
append_inj (x ∷ xs) [] us vs n e = absurd (omega arith)
append_inj (x ∷ xs) (y ∷ ys) us vs n e = ground (arith, append_inj xs ys us vs)

pub length-valid_id : (id : Str) → valid_id id ≡ true → length id ≡ id_len
unfolding valid_id
length-valid_id id v = ground arith

-- what follows the ID in a request path
abbrev pub suffix : Str → Str
suffix [] = []
suffix (c ∷ file) = str "/" ++ trim_prefix (c ∷ file) (str "/")

pub test_path-eq-suffix : (id file : Str) → test_path id file ≡ test_prefix ++ (id ++ suffix file)
unfolding test_path eq_str
test_path-eq-suffix id [] = ap (λ s. test_prefix ++ s) (sym (append-nil id))
test_path-eq-suffix id (c ∷ file) = refl

-- The request paths of two tests with different well-formed IDs never meet, whatever paths the
-- tests append to them.
pub test_path-injective :
    (a b f g : Str) → valid_id a ≡ true → valid_id b ≡ true → test_path a f ≡ test_path b g → a ≡ b
test_path-injective a b f g va vb e =
    append_inj a b (suffix f) (suffix g) (length-valid_id a va ∙ sym (length-valid_id b vb))
      (cc (test_path-eq-suffix a f, test_path-eq-suffix b g))
