-- ===== src/Strings/Order.antt =====
-- Theorems about strings.Compare.
use mecone.Prelude.{◌≡◌, refl, true, false, [], ◌∷◌, Str, arith}
use mecone.Strings.{leb_str}

pub leb_str_total : (s t : Str) → leb_str s t ≡ false → leb_str t s ≡ true
unfolding leb_str
leb_str_total [] t h = absurd (ground arith)
leb_str_total (x ∷ s) [] h = refl
leb_str_total (x ∷ s) (y ∷ t) h = ground (arith, leb_str_total s t)

pub leb_str_trans : (s t u : Str) → leb_str s t ≡ true → leb_str t u ≡ true → leb_str s u ≡ true
unfolding leb_str
leb_str_trans [] t u h k = refl
leb_str_trans (x ∷ s) [] u h k = absurd (ground arith)
leb_str_trans (x ∷ s) (y ∷ t) [] h k = absurd (ground arith)
leb_str_trans (x ∷ s) (y ∷ t) (z ∷ u) h k = ground (arith, leb_str_trans s t u)
