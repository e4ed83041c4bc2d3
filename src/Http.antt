-- ===== src/Http.antt =====
-- The parts of Go's package `net/http` that the program calls: header maps and methods.
use mecone.Prelude.{
  ℕ, ◌+◌, ◌-◌, Bool, true, ◌&&◌, ◌||◌, none, some, List, [], ◌∷◌, ◌++◌, Str, str, leb, ◌==◌, all,
  if◌then◌else◌,
}
use mecone.Maps
use mecone.Maps.{Map, str_key}
use mecone.Strings.{contains_rune}

-- A field name's characters: RFC 9110's tchar.
unfoldable pub is_tchar : ℕ → Bool
unfolding contains_rune
is_tchar c =
    (leb b'a' c && leb c b'z')
    || (leb b'A' c && leb c b'Z')
    || (leb b'0' c && leb c b'9')
    || contains_rune (str "!#$%&'*+-.^_`|~") c

abbrev upper : ℕ → ℕ
upper c = if leb b'a' c && leb c b'z' then c - 32 else c

abbrev lower : ℕ → ℕ
lower c = if leb b'A' c && leb c b'Z' then c + 32 else c

-- The letter at the start and each one after a dash is upper case, and the others are lower case.
unfoldable pub capitalise : Bool → Str → Str
capitalise start [] = []
capitalise start (c ∷ s) = (if start then upper c else lower c) ∷ capitalise (c == b'-') s

-- http.CanonicalHeaderKey(s): a name with any other character is left as it is.
unfoldable pub canonical_key : Str → Str
unfolding is_tchar capitalise
canonical_key s = if all is_tchar s then capitalise true s else s

-- http.Header
abbrev pub Header : Type 0
Header = Map Str (List Str)

-- h.Values(name)
unfoldable pub values : Header → Str → List Str
values h name = elim (Maps.lookup (canonical_key name) h) [ none ↦ [] | some vs ↦ vs ]

-- h.Get(name)
unfoldable pub get : Header → Str → Str
unfolding values
get h name = elim (values h name) [ [] ↦ [] | v ∷ _ ↦ v ]

-- h.Set(name, value)
unfoldable pub set : Header → Str → Str → Header
set h name value = Maps.insert (canonical_key name) (value ∷ []) h

-- h.Add(name, value)
unfoldable pub add : Header → Str → Str → Header
unfolding values
add h name value = Maps.insert (canonical_key name) (values h name ++ value ∷ []) h

-- h.Del(name)
unfoldable pub del : Header → Str → Header
del h name = Maps.delete (canonical_key name) h
