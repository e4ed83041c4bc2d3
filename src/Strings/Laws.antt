-- ===== src/Strings/Laws.antt =====
-- Theorems about `cut_prefix`, `cut` and `split`.
use mathlib.Core.List.{append_assoc, append-nil}
use mecone.Prelude.{
  ℕ, ◌+◌, ◌≡◌, refl, sym, ap, ◌∙◌, ◌≢◌, true, false, [], ◌∷◌, ◌++◌, none, some, inl, inr, Str,
  arith, All, Option-cases, Bool-cases, length, length-append,
}
use mecone.Strings.{cut_prefix, cut, split}

pub cut_prefix-eq_some : (s p rest : Str) → cut_prefix s p ≡ some rest → s ≡ p ++ rest
unfolding cut_prefix
cut_prefix-eq_some s [] rest h = ground arith
cut_prefix-eq_some [] (_ ∷ _) rest h = cc
cut_prefix-eq_some (c ∷ s) (p ∷ ps) rest h = ground (arith, cut_prefix-eq_some s ps rest)

pub cut_prefix-append : (p rest : Str) → cut_prefix (p ++ rest) p ≡ some rest
unfolding cut_prefix
cut_prefix-append [] rest = refl
cut_prefix-append (c ∷ p) rest = ground (arith, cut_prefix-append p rest)

-- `sep` does not occur in `s`.
abbrev pub Lacks : Str → Str → Type 0
Lacks sep s = (a b : Str) → s ≢ a ++ (sep ++ b)

-- The text before a separator that is found, the separator and the text after make up the whole.
pub cut-found : (s sep : Str) → (cut s sep).2 ≡ true → s ≡ (cut s sep).0 ++ (sep ++ (cut s sep).1)
unfolding cut cut_prefix
cut-found [] [] h = refl
cut-found [] (_ ∷ _) h = cc
cut-found (c ∷ s) sep h = elim (Option-cases (cut_prefix (c ∷ s) sep)) [
  | inl e ↦ ground (arith, cut-found s sep)
  | inr (r, e) ↦ ground (arith, cut_prefix-eq_some (c ∷ s) sep r e)
]

pub cut-eq_found :
    (s sep before after : Str) → cut s sep ≡ (before, after, true) → s ≡ before ++ (sep ++ after)
cut-eq_found s sep before after h = ground (arith, cut-found s sep)

pub length-cut :
    (s sep : Str)
    → (cut s sep).2 ≡ true
    → length (cut s sep).0 + length sep + length (cut s sep).1 ≡ length s
length-cut s sep h = omega (
  arith,
  ap length (cut-found s sep h),
  length-append (cut s sep).0 (sep ++ (cut s sep).1),
  length-append sep (cut s sep).1,
)

-- With no separator found, the text before is the whole text.
pub cut-missing : (s sep : Str) → (cut s sep).2 ≡ false → (cut s sep).0 ≡ s
unfolding cut cut_prefix
cut-missing [] [] h = refl
cut-missing [] (_ ∷ _) h = refl
cut-missing (c ∷ s) sep h = elim (Option-cases (cut_prefix (c ∷ s) sep)) [
  | inl e ↦ ground (arith, cut-missing s sep)
  | inr (r, e) ↦ ground arith
]

-- A prefix of a text is a prefix of a longer one.
cut_prefix-append_left :
    (s t p r : Str) → cut_prefix s p ≡ some r → cut_prefix (s ++ t) p ≡ some (r ++ t)
cut_prefix-append_left s t p r h =
    rw (cut_prefix-eq_some s p r h, append_assoc) (cut_prefix-append p (r ++ t))

-- The text before is how the whole begins.
cut-before : (s sep : Str) → (t : Str) × (s ≡ (cut s sep).0 ++ t)
cut-before s sep = elim (Bool-cases (cut s sep).2) [
  | inl found ↦ (sep ++ (cut s sep).1, cut-found s sep found)
  | inr missing ↦ ([], sym (append-nil _ ∙ cut-missing s sep missing))
]

module _ (p : ℕ) (ps : Str) where
  -- A separator that occurs is found.
  cut-occurs : (a b : Str) → (cut (a ++ (p ∷ ps ++ b)) (p ∷ ps)).2 ≡ true
  unfolding cut
  cut-occurs [] b = ground (arith, cut_prefix-append (p ∷ ps) b)
  cut-occurs (c ∷ a) b = ground (arith, cut-occurs a b)

  pub cut-missing-Lacks : (s : Str) → (cut s (p ∷ ps)).2 ≡ false → Lacks (p ∷ ps) s
  cut-missing-Lacks s h a b e = cc (cut-occurs a b)

  pub Lacks-cut-missing : (s : Str) → Lacks (p ∷ ps) s → (cut s (p ∷ ps)).2 ≡ false
  Lacks-cut-missing s h = elim (Bool-cases (cut s (p ∷ ps)).2) [
    | inl found ↦ absurd (h _ _ (cut-found s (p ∷ ps) found))
    | inr missing ↦ missing
  ]

  -- A prefix of the text before the first separator begins the whole text too.
  before-no_prefix :
      (c : ℕ) (s : Str)
      → cut_prefix (c ∷ s) (p ∷ ps) ≡ none
      → cut_prefix (c ∷ (cut s (p ∷ ps)).0) (p ∷ ps) ≡ none
  before-no_prefix c s e =
      let (t, whole) = cut-before s (p ∷ ps) in
      elim (Option-cases (cut_prefix (c ∷ (cut s (p ∷ ps)).0) (p ∷ ps))) [
        | inl e' ↦ e'
        | inr (r, e') ↦ cc (cut_prefix-append_left (c ∷ (cut s (p ∷ ps)).0) t (p ∷ ps) r e')
      ]

  -- The text before the first separator has no separator.
  cut-before-missing : (s : Str) → (cut (cut s (p ∷ ps)).0 (p ∷ ps)).2 ≡ false
  unfolding cut
  cut-before-missing [] = unfold cut_prefix in refl
  cut-before-missing (c ∷ s) = elim (Option-cases (cut_prefix (c ∷ s) (p ∷ ps))) [
    | inl e ↦ ground (arith, cut-before-missing s, before-no_prefix c s e)
    | inr (r, e) ↦ rw (e, cut) (unfold cut_prefix in refl)
  ]

  pub cut-before-Lacks : (s : Str) → Lacks (p ∷ ps) (cut s (p ∷ ps)).0
  cut-before-Lacks s = cut-missing-Lacks _ (cut-before-missing s)

-- A separator of one character, behind a text without it and behind none.
module _ (c : ℕ) where
  abbrev pub Without : Str → Type 0
  Without = All (λ d. d ≢ c)

  pub cut-one : (a b : Str) → Without a → cut (a ++ c ∷ b) (c ∷ []) ≡ (a, b, true)
  unfolding cut cut_prefix
  cut-one [] b h = ground arith
  cut-one (d ∷ a) b h = ground (arith, cut-one a b h.1, h.0)

  pub cut-one_missing : (a : Str) → Without a → cut a (c ∷ []) ≡ (a, [], false)
  unfolding cut cut_prefix
  cut-one_missing [] h = refl
  cut-one_missing (d ∷ a) h = ground (arith, cut-one_missing a h.1, h.0)

  pub split-one : (a b : Str) → Without a → split c (a ++ c ∷ b) ≡ a ∷ split c b
  unfolding split
  split-one [] b h = ground arith
  split-one (d ∷ a) b h = ground (arith, split-one a b h.1, h.0)

  pub split-one_missing : (a : Str) → Without a → split c a ≡ a ∷ []
  unfolding split
  split-one_missing [] h = refl
  split-one_missing (d ∷ a) h = ground (arith, split-one_missing a h.1, h.0)
