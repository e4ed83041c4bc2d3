-- ===== src/Protocol/Ids.antt =====
-- pkg/protocol/ids.go: test IDs, and the paths of a test's requests.
pub mod Isolation
use mecone.Prelude.{
  ℕ, ◌+◌, ◌/◌, ◌%◌, Bool, true, false, ◌&&◌, ◌||◌, not, List, [], ◌∷◌, ◌++◌, Str, str, eq_str, leb,
  ◌==◌, length, all, if◌then◌else◌, Option, none, some, get_elem?,
}
use mecone.Strings.{trim_prefix}
use mecone.Protocol.{test_prefix}

-- idLen
abbrev pub id_len : ℕ
id_len = 32

-- func isLowerHex
unfoldable pub is_lower_hex : ℕ → Bool
is_lower_hex c = (leb b'0' c && leb c b'9') || (leb b'a' c && leb c b'f')

-- func ValidID
unfoldable pub valid_id : Str → Bool
unfolding is_lower_hex
valid_id s = if not (length s == id_len) then false else all is_lower_hex s

-- a digit of encoding/hex
unfoldable pub hex_digit : ℕ → ℕ
hex_digit d = elim (get_elem? (str "0123456789abcdef") d) [ some c ↦ c | none ↦ 0 ]

-- hex.EncodeToString
unfoldable pub hex_encode : List ℕ → Str
unfolding hex_digit
hex_encode [] = []
hex_encode (b ∷ bs) = hex_digit (b / 16) ∷ hex_digit (b % 16) ∷ hex_encode bs

-- func NewID, of the bytes that crypto/rand filled in
unfoldable pub new_id : List ℕ → Str
unfolding hex_encode
new_id bytes = hex_encode bytes

-- func TestPath
unfoldable pub test_path : Str → Str → Str
test_path id file =
    if eq_str file []
    then test_prefix ++ id
    else test_prefix ++ (id ++ (str "/" ++ trim_prefix file (str "/")))
