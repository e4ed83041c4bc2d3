-- ===== src/Strings.antt =====
-- The functions of Go's package `strings` that the program calls, over `Str`.
pub mod Laws
pub mod Order
use mecone.Prelude.{
  ℕ, ◌+◌, Bool, true, false, ◌&&◌, ◌||◌, List, [], ◌∷◌, ◌++◌, Option, none, some, Str, eq_str, leb,
  ◌==◌, if◌then◌else◌,
}

-- strings.CutPrefix(s, prefix): what follows the prefix, if `s` begins with it.
unfoldable pub cut_prefix : Str → Str → Option Str
cut_prefix s [] = some s
cut_prefix [] (_ ∷ _) = none
cut_prefix (c ∷ s) (p ∷ ps) = if c == p then cut_prefix s ps else none

-- strings.TrimPrefix(s, prefix)
unfoldable pub trim_prefix : Str → Str → Str
trim_prefix s prefix = elim (cut_prefix s prefix) [ some rest ↦ rest | none ↦ s ]

-- strings.HasPrefix(s, prefix)
unfoldable pub has_prefix : Str → Str → Bool
has_prefix s prefix = elim (cut_prefix s prefix) [ some _ ↦ true | none ↦ false ]

-- strings.Cut(s, sep): the text before and after the first `sep`, and whether there is one.
unfoldable pub cut : Str → Str → Str × Str × Bool
cut [] sep = elim (cut_prefix [] sep) [ some rest ↦ ([], rest, true) | none ↦ ([], [], false) ]
cut (c ∷ s) sep = elim (cut_prefix (c ∷ s) sep) [
  | some rest ↦ ([], rest, true)
  | none ↦ (let (before, after, found) = cut s sep in (c ∷ before, after, found))
]

-- strings.TrimLeftFunc(s, p)
unfoldable pub trim_left : (ℕ → Bool) → Str → Str
trim_left p [] = []
trim_left p (c ∷ s) = elim (p c) [ true ↦ trim_left p s | false ↦ c ∷ s ]

-- strings.TrimRightFunc(s, p)
unfoldable pub trim_right : (ℕ → Bool) → Str → Str
trim_right p [] = []
trim_right p (c ∷ s) = elim (trim_right p s) [
  | [] ↦ (if p c then [] else c ∷ [])
  | d ∷ r ↦ c ∷ d ∷ r
]

-- strings.TrimFunc(s, p); strings.Trim and strings.TrimSpace are this at a set of characters.
unfoldable pub trim : (ℕ → Bool) → Str → Str
unfolding trim_left trim_right
trim p s = trim_right p (trim_left p s)

-- unicode.IsSpace
unfoldable pub is_space : ℕ → Bool
is_space c =
    c == 0x20
    || (leb 0x09 c && leb c 0x0d)
    || c == 0x85
    || c == 0xa0
    || c == 0x1680
    || (leb 0x2000 c && leb c 0x200a)
    || c == 0x2028
    || c == 0x2029
    || c == 0x202f
    || c == 0x205f
    || c == 0x3000

-- strings.TrimSpace(s)
unfoldable pub trim_space : Str → Str
unfolding trim is_space
trim_space s = trim is_space s

-- strings.ContainsRune(set, c)
unfoldable pub contains_rune : Str → ℕ → Bool
contains_rune [] c = false
contains_rune (d ∷ set) c = c == d || contains_rune set c

-- strings.ContainsAny(s, set)
unfoldable pub contains_any : Str → Str → Bool
unfolding contains_rune
contains_any [] set = false
contains_any (c ∷ s) set = contains_rune set c || contains_any s set

-- strings.Contains
unfoldable pub contains_substring : Str → Str → Bool
contains_substring [] sub = eq_str sub []
contains_substring (c ∷ s) sub =
    let rest = contains_substring s sub in has_prefix (c ∷ s) sub || rest

-- the words of strings.Fields, behind the word that is begun
unfoldable pub fields_from : Str → Str → List Str
fields_from word [] = if eq_str word [] then [] else word ∷ []
fields_from word (c ∷ s) =
    let rest = fields_from [] s in
    let more = fields_from (word ++ c ∷ []) s in
    if is_space c then if eq_str word [] then rest else word ∷ rest else more

-- strings.Fields(s)
unfoldable pub fields : Str → List Str
fields s = fields_from [] s

-- strings.Join(parts, sep)
unfoldable pub join : List Str → Str → Str
join [] sep = []
join (x ∷ []) sep = x
join (x ∷ y ∷ ys) sep = x ++ (sep ++ join (y ∷ ys) sep)

-- strings.Split(s, sep) for a separator of one character
unfoldable pub split : ℕ → Str → List Str
split sep [] = [] ∷ []
split sep (c ∷ s) =
    let parts = split sep s in
    if c == sep then [] ∷ parts else elim parts [ [] ↦ (c ∷ []) ∷ [] | p ∷ ps ↦ (c ∷ p) ∷ ps ]

-- strings.Compare(s, t) <= 0, on bytes
unfoldable pub leb_str : Str → Str → Bool
leb_str [] t = true
leb_str (x ∷ s) [] = false
leb_str (x ∷ s) (y ∷ t) = if x == y then leb_str s t else leb x y
