-- ===== src/Proto.antt =====
-- pkg/proto/proto.go: the names of the HTTP protocol versions. A `Proto` is a string in the source.
pub mod Lists
use mecone.Prelude.{
  ℕ, ◌+◌, Bool, true, false, ◌&&◌, ◌||◌, List, [], ◌∷◌, ◌++◌, Str, str, eq_str, Result, ok, err,
  ◌==◌, leb, any, if◌then◌else◌, map,
}
use mecone.Strings.{trim_space, split}

abbrev pub h1 : Str
h1 = str "h1"

abbrev pub h2 : Str
h2 = str "h2"

abbrev pub h2c : Str
h2c = str "h2c"

abbrev pub h3 : Str
h3 = str "h3"

pub data ProtoError : Type 0 where
  unknown_protocol : Str → ProtoError
  no_protocols : ProtoError
  bad_scheme : Str → Str → ProtoError

-- strings.ToLower on ASCII: no other character has a lower-case form that a protocol name holds
abbrev lower : ℕ → ℕ
lower c = if leb b'A' c && leb c b'Z' then c + 32 else c

-- slices.Contains
unfoldable pub contains : List Str → Str → Bool
contains list p = any (λ q. eq_str q p) list

-- All
abbrev pub all_protos : List Str
all_protos = h1 ∷ h2 ∷ h2c ∷ h3 ∷ []

-- func Parse
unfoldable pub parse : Str → Result ProtoError Str
parse s =
    let p = map lower (trim_space s) in
    if contains all_protos p then ok p else err (unknown_protocol s)

-- func appendUnique
unfoldable pub append_unique : List Str → Str → List Str
append_unique list p = if contains list p then list else list ++ p ∷ []

-- the loop of `ParseList`
unfoldable pub parse_parts : List Str → List Str → Result ProtoError (List Str)
parse_parts out [] = if◌then◌else◌ (any (λ _. true) out) (ok out) (err no_protocols)
parse_parts out (part ∷ parts) = elim (eq_str (trim_space part) []) [
  | true ↦ parse_parts out parts
  | false ↦ elim (parse part) [ err e ↦ err e | ok p ↦ parse_parts (append_unique out p) parts ]
]

-- func ParseList
unfoldable pub parse_list : Str → Result ProtoError (List Str)
unfolding parse_parts
parse_list s = parse_parts [] (split b',' s)

-- func (p Proto) CheckScheme; `true` is a nil error
unfoldable pub check_scheme : Str → Str → Bool
check_scheme p scheme =
    (eq_str p h1 && (eq_str scheme (str "http") || eq_str scheme (str "https")))
    || ((eq_str p h2 || eq_str p h3) && eq_str scheme (str "https"))
    || (eq_str p h2c && eq_str scheme (str "http"))

-- func FromRequest, of the request's major version and whether it came over TLS
unfoldable pub from_request : ℕ → Bool → Str
from_request major tls =
    if major == 3
    then h3
    else if major == 2 && (if tls then false else true)
    then h2c
    else if major == 2
    then h2
    else h1
