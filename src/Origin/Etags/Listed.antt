-- ===== src/Origin/Etags/Listed.antt =====
-- pkg/origin/respond.go: the comparison of entity tags on a field that lists them as HTTP writes
-- them.
use mathlib.Core.List.{append_assoc}
use mecone.Prelude.{
  ℕ, zero, suc, ◌+◌, ◌-◌, ◌≤◌, ◌<◌, ◌≡◌, ◌≢◌, refl, ap, ◌∙◌, inl, inr, Bool, false, some, List, [],
  ◌∷◌, ◌++◌, Str, str, eq_str, eq_str_iff, Bool-cases, arith, if◌then◌else◌, length, any, All,
  length-append,
}
use mecone.Strings.{cut_prefix, trim_left, trim_right, trim_prefix, trim_space, is_space}
use mecone.Strings.Laws.{Without, cut-one}
use mecone.Origin.Etags.{
  weak_prefix, quote, take, next_etag, any_matches, any_etag, etag_list_matches,
}

-- An entity tag: whether it is weak, and the text between its quotes.
pub record Tag : Type 0 where
  pub weak : Bool
  pub opaque : Str

abbrev pub strong_text : Tag → Str
strong_text t = quote ++ (t.opaque ++ quote)

abbrev pub text : Tag → Str
text t = (if t.weak then weak_prefix else []) ++ strong_text t

-- The tags behind a first one, each behind a comma.
abbrev pub more : List Tag → Str
more [] = []
more (t ∷ ts) = str ", " ++ (text t ++ more ts)

abbrev pub field : Tag → List Tag → Str
field t ts = text t ++ more ts

abbrev pub WellFormed : Tag → Type 0
WellFormed t = Without b'"' t.opaque

take-append : (p rest : Str) → take (length p) (p ++ rest) ≡ p
unfolding take
take-append [] rest = refl
take-append (c ∷ p) rest = ap (λ s. c ∷ s) (take-append p rest)

-- From a text that begins with a tag's opening quote the tag is cut at the closing one.
next_etag-strong :
    (o rest : Str)
    → Without b'"' o
    → next_etag (quote ++ (o ++ b'"' ∷ rest)) ≡ some (quote ++ (o ++ quote), rest)
unfolding next_etag trim_left trim_prefix cut_prefix
next_etag-strong o rest h =
    let whole : quote ++ (o ++ b'"' ∷ rest) ≡ (quote ++ (o ++ quote)) ++ rest = simp append_assoc in
    let size : length (quote ++ (o ++ b'"' ∷ rest)) - length rest ≡ length (quote ++ (o ++ quote)) =
      omega (arith, length-append o (b'"' ∷ rest), length-append o quote) in
    ground (arith, cut-one b'"' o rest h, size, whole, take-append (quote ++ (o ++ quote)) rest)

-- A weak tag is cut like a strong one, and separators before a tag do not matter.
next_etag-weak : (s : Str) → next_etag (weak_prefix ++ b'"' ∷ s) ≡ next_etag (b'"' ∷ s)
unfolding next_etag trim_left trim_prefix cut_prefix
next_etag-weak s = refl

next_etag-separated : (s : Str) → next_etag (str ", " ++ s) ≡ next_etag s
unfolding next_etag trim_left
next_etag-separated s = refl

next_etag-text :
    (t : Tag) (rest : Str) → WellFormed t → next_etag (text t ++ rest) ≡ some (strong_text t, rest)
next_etag-text t rest h =
    let strong : strong_text t ++ rest ≡ quote ++ (t.opaque ++ b'"' ∷ rest) = simp append_assoc in
    elim (Bool-cases t.weak) [
      | inl w ↦
          rw (w, append_assoc, strong)
            (next_etag-weak (t.opaque ++ b'"' ∷ rest) ∙ next_etag-strong t.opaque rest h)
      | inr s ↦ rw (s, strong) (next_etag-strong t.opaque rest h)
    ]

any_matches-separated :
    (fuel : ℕ) (want s : Str) → any_matches fuel want (str ", " ++ s) ≡ any_matches fuel want s
unfolding any_matches
any_matches-separated zero want s = refl
any_matches-separated (suc fuel) want s = rw (next_etag-separated, any_matches)

any_matches-nil : (fuel : ℕ) (want : Str) → any_matches fuel want [] ≡ false
unfolding any_matches next_etag trim_left trim_prefix cut_prefix
any_matches-nil zero want = refl
any_matches-nil (suc fuel) want = refl

any_matches-tag :
    (fuel : ℕ) (want : Str) (t : Tag) (ts : List Tag)
    → length ts < fuel
    → WellFormed t
    → All WellFormed ts
    → any_matches fuel want (text t ++ more ts) ≡ any (λ u. eq_str (strong_text u) want) (t ∷ ts)
unfolding any_matches
any_matches-tag zero want t ts h w ws = absurd (omega arith)
any_matches-tag (suc fuel) want t [] h w ws =
    ground (arith, next_etag-text t [] w, any_matches-nil fuel want)
any_matches-tag (suc fuel) want t (u ∷ ts) h w ws = ground (
  arith,
  next_etag-text t (more (u ∷ ts)) w,
  any_matches-separated fuel want (text u ++ more ts),
  any_matches-tag fuel want u ts (omega arith) ws.0 ws.1,
)

-- Trimming spaces leaves a text that begins with another character beginning with it.
trim_space-head : (c : ℕ) (s : Str) → is_space c ≡ false → (r : Str) × (trim_space (c ∷ s) ≡ c ∷ r)
unfolding trim_space trim_left trim_right
trim_space-head c s h = (trim_right is_space s, ground arith)

head_not_any :
    (c : ℕ) (s : Str) → is_space c ≡ false → c ≢ b'*' → eq_str (trim_space (c ∷ s)) any_etag ≡ false
head_not_any c s h ne =
    let (r, trimmed) = trim_space-head c s h in
    rw trimmed (ground (arith, eq_str_iff (c ∷ r) any_etag))

field_not_any : (t : Tag) (rest : Str) → eq_str (trim_space (text t ++ rest)) any_etag ≡ false
field_not_any t rest = elim (Bool-cases t.weak) [
  | inl w ↦
      rw w
        (head_not_any b'W' (b'/' ∷ (strong_text t ++ rest)) (unfold is_space in refl) (omega arith))
  | inr s ↦
      rw s (head_not_any b'"' ((t.opaque ++ quote) ++ rest) (unfold is_space in refl) (omega arith))
]

trim_prefix-text : (t : Tag) → trim_prefix (text t) weak_prefix ≡ strong_text t
unfolding trim_prefix cut_prefix
trim_prefix-text t = elim (Bool-cases t.weak) [ inl w ↦ rw w refl | inr s ↦ rw s refl ]

length-more : (ts : List Tag) → length ts ≤ length (more ts)
length-more [] = omega arith
length-more (t ∷ ts) = omega (arith, length-more ts, length-append (text t) (more ts))

-- A field of well-formed entity tags, weak or strong, matches a response's tag, weak or strong,
-- exactly if one of them has the same quoted text.
pub etag_list_matches-field :
    (t : Tag) (ts : List Tag) (etag : Tag)
    → WellFormed t
    → All WellFormed ts
    → etag_list_matches (field t ts) (text etag)
      ≡ any (λ u. eq_str (strong_text u) (strong_text etag)) (t ∷ ts)
unfolding etag_list_matches
etag_list_matches-field t ts etag w ws =
    let enough : length ts < length (field t ts) + 1 =
      omega (arith, length-more ts, length-append (text t) (more ts)) in
    rw (field_not_any t (more ts), trim_prefix-text)
      (any_matches-tag (length (field t ts) + 1) (strong_text etag) t ts enough w ws)
