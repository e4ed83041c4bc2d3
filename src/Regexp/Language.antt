-- ===== src/Regexp/Language.antt =====
-- The language of a pattern, and theorems about the matcher.
use mecone.Prelude.{
  ℕ, ◌≡◌, refl, ap, ◌↔◌, inl, inr, Bool, true, [], ◌∷◌, ◌++◌, Str, arith, Bool-cases,
}
use mecone.Regexp.{Re, never, empty, char, seq, alt, star, nullable, deriv, match_string}

-- `Matches r s`: the text `s` is in the language of `r`.
pub data Matches : Re → Str → Type 0 where
  eps : Matches empty []
  one : (p : ℕ → Bool) (c : ℕ) → p c ≡ true → Matches (char p) (c ∷ [])
  cat :
      {r s : Re} (a b : Str) {w : Str}
      → w ≡ a ++ b
      → Matches r a
      → Matches s b
      → Matches (seq r s) w
  left : {r s : Re} {w : Str} → Matches r w → Matches (alt r s) w
  right : {r s : Re} {w : Str} → Matches s w → Matches (alt r s) w
  done : {r : Re} → Matches (star r) []
  more :
      {r : Re} (c : ℕ) (a b : Str) {w : Str}
      → w ≡ c ∷ (a ++ b)
      → Matches r (c ∷ a)
      → Matches (star r) b
      → Matches (star r) w

nullable-Matches : (r : Re) → nullable r ≡ true → Matches r []
unfolding nullable
nullable-Matches never h = cc
nullable-Matches empty h = eps
nullable-Matches (char p) h = cc
nullable-Matches (seq r s) h =
    cat [] [] refl (nullable-Matches r (ground arith)) (nullable-Matches s (ground arith))
nullable-Matches (alt r s) h = elim (Bool-cases (nullable r)) [
  | inl e ↦ left (nullable-Matches r e)
  | inr e ↦ right (nullable-Matches s (ground arith))
]
nullable-Matches (star r) h = done

Matches-nullable : {r : Re} {w : Str} → Matches r w → w ≡ [] → nullable r ≡ true
unfolding nullable
Matches-nullable eps e = refl
Matches-nullable (one p c h) e = cc
Matches-nullable (cat [] [] same m n) e =
    ground (arith, Matches-nullable m refl, Matches-nullable n refl)
Matches-nullable (cat [] (c ∷ b) same m n) e = cc
Matches-nullable (cat (c ∷ a) b same m n) e = cc
Matches-nullable (left m) e = ground (arith, Matches-nullable m e)
Matches-nullable (right m) e = ground (arith, Matches-nullable m e)
Matches-nullable done e = refl
Matches-nullable (more c a b same m n) e = refl

-- A match of the derivative is a match that begins with the character.
seq_part :
    (c : ℕ) (r s : Re) (w : Str)
    → ((a : Str) → Matches (deriv c r) a → Matches r (c ∷ a))
    → Matches (seq (deriv c r) s) w
    → Matches (seq r s) (c ∷ w)
seq_part c r s w ih (cat a b same m n) = cat (c ∷ a) b (ap (λ u. c ∷ u) same) (ih a m) n

star_part :
    (c : ℕ) (r : Re) (w : Str)
    → ((a : Str) → Matches (deriv c r) a → Matches r (c ∷ a))
    → Matches (seq (deriv c r) (star r)) w
    → Matches (star r) (c ∷ w)
star_part c r w ih (cat a b same m n) = more c a b (ap (λ u. c ∷ u) same) (ih a m) n

char_part :
    (c : ℕ) (p : ℕ → Bool) (w : Str) → p c ≡ true → Matches empty w → Matches (char p) (c ∷ w)
char_part c p w h eps = one p c h

never_part : {w : Str} {A : Type 0} → Matches never w → A
never_part m = elim m [ ]

nullable_part :
    (c : ℕ) (r s : Re) (w : Str)
    → nullable r ≡ true
    → ((a : Str) → Matches (deriv c r) a → Matches r (c ∷ a))
    → ((a : Str) → Matches (deriv c s) a → Matches s (c ∷ a))
    → Matches (alt (seq (deriv c r) s) (deriv c s)) w
    → Matches (seq r s) (c ∷ w)
nullable_part c r s w e ih_r ih_s (left m) = seq_part c r s w ih_r m
nullable_part c r s w e ih_r ih_s (right m) = cat [] (c ∷ w) refl (nullable-Matches r e) (ih_s w m)

deriv-Matches : (c : ℕ) (r : Re) (w : Str) → Matches (deriv c r) w → Matches r (c ∷ w)
unfolding deriv
deriv-Matches c never w m = never_part m
deriv-Matches c empty w m = never_part m
deriv-Matches c (char p) w m = elim (Bool-cases (p c)) [
  | inl e ↦ char_part c p w e (rw e at m)
  | inr e ↦ never_part (rw e at m)
]
deriv-Matches c (seq r s) w m = elim (Bool-cases (nullable r)) [
  | inl e ↦ nullable_part c r s w e (deriv-Matches c r) (deriv-Matches c s) (rw e at m)
  | inr e ↦ seq_part c r s w (deriv-Matches c r) (rw e at m)
]
deriv-Matches c (alt r s) w (left m) = left (deriv-Matches c r w m)
deriv-Matches c (alt r s) w (right m) = right (deriv-Matches c s w m)
deriv-Matches c (star r) w m = star_part c r w (deriv-Matches c r) m

-- The other way round.
seq_right :
    (c : ℕ) (r s : Re) {w : Str}
    → nullable r ≡ true
    → Matches (deriv c s) w
    → Matches (deriv c (seq r s)) w
unfolding deriv
seq_right c r s e m = rw e (right m)

seq_left :
    (c : ℕ) (r s : Re) {w : Str} → Matches (seq (deriv c r) s) w → Matches (deriv c (seq r s)) w
unfolding deriv
seq_left c r s m = elim (Bool-cases (nullable r)) [ inl e ↦ rw e (left m) | inr e ↦ rw e m ]

Matches-deriv :
    {r : Re} {v : Str} → Matches r v → (c : ℕ) (w : Str) → v ≡ c ∷ w → Matches (deriv c r) w
unfolding deriv
Matches-deriv eps c w e = cc
Matches-deriv (one p d h) c w e =
    let accepts : p c ≡ true = cc in let nil : w ≡ [] = cc in rw (accepts, nil) eps
Matches-deriv (cat {r} {s} [] b same m n) c w e =
    seq_right c r s (Matches-nullable m refl) (Matches-deriv n c w (cc))
Matches-deriv (cat {r} {s} (d ∷ a) b same m n) c w e =
    seq_left c r s (cat a b (cc) (Matches-deriv m c a (cc)) n)
Matches-deriv (left m) c w e = left (Matches-deriv m c w e)
Matches-deriv (right m) c w e = right (Matches-deriv m c w e)
Matches-deriv done c w e = cc
Matches-deriv (more d a b same m n) c w e = cat a b (cc) (Matches-deriv m c a (cc)) n

-- The matcher accepts exactly the texts of the pattern's language.
pub match_string_iff : (r : Re) (w : Str) → (match_string r w ≡ true) ↔ Matches r w
unfolding match_string
match_string_iff r [] = (nullable-Matches r, λ m. Matches-nullable m refl)
match_string_iff r (c ∷ w) =
    let (sound, full) = match_string_iff (deriv c r) w in
    (λ h. deriv-Matches c r w (sound h), λ m. full (Matches-deriv m c w refl))
