-- ===== src/Origin/Etags.antt =====
-- pkg/origin/respond.go: the comparison of entity tags in an If-None-Match field.
pub mod Listed
use mecone.Prelude.{
  ℕ, zero, suc, ◌+◌, ◌-◌, ◌*◌, ◌/◌, Bool, true, false, ◌||◌, Option, none, some, [], ◌∷◌, Str, str,
  eq_str, ◌==◌, if◌then◌else◌, length,
}
use mecone.Strings.{cut, cut_prefix, trim_left, trim_prefix, trim_space}

-- the constants of respond.go
abbrev pub any_etag : Str
any_etag = str "*"

abbrev pub weak_prefix : Str
weak_prefix = str "W/"

abbrev pub quote : Str
quote = b'"' ∷ []

-- etagSeparators
abbrev pub is_separator : ℕ → Bool
is_separator c = c == 0x20 || c == 0x09 || c == b','

-- s[:n]
unfoldable pub take : ℕ → Str → Str
take zero s = []
take (suc n) [] = []
take (suc n) (c ∷ s) = c ∷ take n s

-- func nextETag: the next tag with its quotes and the rest of the list, if there is one
unfoldable pub next_etag : Str → Option (Str × Str)
unfolding take
next_etag list =
    let s = trim_prefix (trim_left is_separator list) weak_prefix in
    elim (cut_prefix s quote) [
      | none ↦ none
      | some opaque ↦
          (let (_, rest, closed) = cut opaque quote in
            if closed then some (take (length s - length rest) s, rest) else none)
    ]

-- the loop of `etagListMatches`; the fuel is the length of the list
unfoldable pub any_matches : ℕ → Str → Str → Bool
any_matches zero want list = false
any_matches (suc fuel) want list = elim (next_etag list) [
  | none ↦ false
  | some (tag, rest) ↦
      (let more = any_matches fuel want rest in if eq_str tag want then true else more)
]

-- func etagListMatches: weak comparison, with W/ ignored on both sides
unfoldable pub etag_list_matches : Str → Str → Bool
etag_list_matches list etag =
    if eq_str (trim_space list) any_etag
    then true
    else any_matches (length list + 1) (trim_prefix etag weak_prefix) list
