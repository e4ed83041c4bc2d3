-- ===== src/Report/Wrapping.antt =====
-- pkg/report/text.go: the notice under the score tables, wrapped to their width.
use mecone.Prelude.{
  ℕ, ◌+◌, ◌-◌, ◌≤◌, ◌≡◌, ◌≢◌, refl, sym, ap, ◌∙◌, ◌⊎◌, inl, inr, false, List, [], ◌∷◌, ◌++◌, Str,
  str, eq_str, eq_str_iff, Bool-cases, arith, ltb, leb, if◌then◌else◌, length, All, Any,
  length-append, All-members,
}
use mecone.Strings.{is_space, fields_from, fields, join}

-- the loop of `wrapWords` over the words, with the line that is begun
unfoldable pub wrap_from : ℕ → Str → List Str → List Str
wrap_from width line [] = if eq_str line [] then [] else line ∷ []
wrap_from width line (word ∷ words) =
    let begun = wrap_from width word words in
    let longer = wrap_from width (line ++ (str " " ++ word)) words in
    if eq_str line []
    then begun
    else if leb (length line + 1 + length word) width
    then longer
    else line ∷ begun

-- func wrapWords
unfoldable pub wrap_words : Str → ℕ → List Str
wrap_words s width = wrap_from width [] (fields s)

abbrev max : ℕ → ℕ → ℕ
max a b = if ltb a b then b else a

-- the lines that appendTextNotice writes, each under its lead
abbrev pub led : Str → List Str → List Str
led lead [] = []
led lead (line ∷ lines) = (lead ++ line) ∷ led (str "      ") lines

-- func appendTextNotice: the lines that it adds to a report whose widest line has this width
unfoldable pub notice_lines : Str → ℕ → List Str
notice_lines notice width =
    if eq_str notice [] then [] else led (str "Note: ") (wrap_words notice (max (width - 6) 40))

-- A line that fits, or a word that does not.
abbrev pub Fits : ℕ → List Str → Str → Type 0
Fits width words line = (length line ≤ width) ⊎ Any (λ w. w ≡ line) words

abbrev NotEmpty : Str → Type 0
NotEmpty w = w ≢ []

fields_from-NotEmpty : (word s : Str) → All NotEmpty (fields_from word s)
unfolding fields_from
fields_from-NotEmpty word [] = elim (Bool-cases (eq_str word [])) [
  | inl e ↦ rw (e, fields_from) tt
  | inr e ↦ rw (e, fields_from) ((λ same. let k = (eq_str_iff word []).1 same in cc), tt)
]
fields_from-NotEmpty word (c ∷ s) = elim (Bool-cases (is_space c)) [
  | inr e ↦ rw (e, fields_from) (fields_from-NotEmpty (word ++ c ∷ []) s)
  | inl e ↦ elim (Bool-cases (eq_str word [])) [
    | inl f ↦ rw (e, fields_from, f) (fields_from-NotEmpty [] s)
    | inr f ↦
        rw (e, fields_from, f)
          ((λ same. let k = (eq_str_iff word []).1 same in cc), fields_from-NotEmpty [] s)
  ]
]

append_assoc : (a b c : Str) → (a ++ b) ++ c ≡ a ++ (b ++ c)
append_assoc [] b c = refl
append_assoc (x ∷ a) b c = ap (λ s. x ∷ s) (append_assoc a b c)

append_nil : (a : Str) → a ≡ a ++ []
append_nil [] = refl
append_nil (x ∷ a) = ap (λ s. x ∷ s) (append_nil a)

append-NotEmpty : (a b : Str) → a ≢ [] → a ++ b ≢ []
append-NotEmpty [] b n e = n refl
append-NotEmpty (x ∷ a) b n e = cc

-- The texts, each behind a space.
abbrev spaced : List Str → Str
spaced [] = []
spaced (x ∷ xs) = b' ' ∷ (x ++ spaced xs)

abbrev tail : Str → Str
tail [] = []
tail (c ∷ s) = s

join-tail : (xs : List Str) → join xs (str " ") ≡ tail (spaced xs)
unfolding join
join-tail [] = refl
join-tail (x ∷ []) = append_nil x
join-tail (x ∷ y ∷ ys) = ap (λ s. x ++ b' ' ∷ s) (join-tail (y ∷ ys))

wrap_from-spaced :
    (width : ℕ) (line : Str) (words : List Str)
    → line ≢ []
    → All NotEmpty words
    → spaced (wrap_from width line words) ≡ b' ' ∷ (line ++ spaced words)
unfolding wrap_from
wrap_from-spaced width line [] n ne = elim (Bool-cases (eq_str line [])) [
  | inl e ↦ absurd (n ((eq_str_iff line []).0 e))
  | inr e ↦ rw (e, wrap_from) refl
]
wrap_from-spaced width line (w ∷ words) n (m, ne) = elim (Bool-cases (eq_str line [])) [
  | inl e ↦ absurd (n ((eq_str_iff line []).0 e))
  | inr e ↦ elim (Bool-cases (leb (length line + 1 + length w) width)) [
    | inl fits ↦
        rw (e, wrap_from, fits)
          (wrap_from-spaced width (line ++ (str " " ++ w)) words (append-NotEmpty line _ n) ne
            ∙ ap (λ s. b' ' ∷ s) (append_assoc line (str " " ++ w) (spaced words)))
    | inr over ↦
        rw (e, wrap_from, over) (ap (λ s. b' ' ∷ (line ++ s)) (wrap_from-spaced width w words m ne))
  ]
]

wrap-spaced :
    (width : ℕ) (words : List Str)
    → All NotEmpty words
    → spaced (wrap_from width [] words) ≡ spaced words
unfolding wrap_from eq_str
wrap-spaced width [] ne = refl
wrap-spaced width (w ∷ words) (n, ne) = wrap_from-spaced width w words n ne

not-empty : (line : Str) → eq_str line [] ≡ false → line ≢ []
not-empty line e same = let k = (eq_str_iff line []).1 same in cc

wrap_from-Fits :
    (width : ℕ) (all_words : List Str) (line : Str) (words : List Str)
    → (line ≢ [] → Fits width all_words line)
    → All (λ w. Any (λ v. v ≡ w) all_words) words
    → All (Fits width all_words) (wrap_from width line words)
unfolding wrap_from
wrap_from-Fits width all_words line [] f m = elim (Bool-cases (eq_str line [])) [
  | inl e ↦ rw (e, wrap_from) tt
  | inr e ↦ rw (e, wrap_from) (f (not-empty line e), tt)
]
wrap_from-Fits width all_words line (w ∷ words) f (m, ms) = elim (Bool-cases (eq_str line [])) [
  | inl e ↦ rw (e, wrap_from) (wrap_from-Fits width all_words w words (λ _. inr m) ms)
  | inr e ↦ elim (Bool-cases (leb (length line + 1 + length w) width)) [
    | inl fits ↦
        let len = length-append line (str " " ++ w) in
        rw (e, wrap_from, fits)
          (wrap_from-Fits width all_words (line ++ (str " " ++ w)) words (λ _. inl (ground arith))
            ms)
    | inr over ↦
        rw (e, wrap_from, over)
          (f (not-empty line e), wrap_from-Fits width all_words w words (λ _. inr m) ms)
  ]
]

-- Wrapping a text to a width keeps its words, whole and in their order, and makes lines that fit,
-- except for a line that is one word which is longer than the width.
pub wrap_words-Fits :
    (s : Str) (width : ℕ)
    → (join (wrap_words s width) (str " ") ≡ join (fields s) (str " "))
      × All (Fits width (fields s)) (wrap_words s width)
unfolding wrap_words fields
wrap_words-Fits s width = (
  join-tail (wrap_words s width)
      ∙ (ap tail (wrap-spaced width (fields s) (fields_from-NotEmpty [] s))
          ∙ sym (join-tail (fields s))),
  wrap_from-Fits width (fields s) [] (fields s) (λ n. absurd (n refl))
      (All-members _ (fields s) (λ w m. m)),
)
