-- ===== src/Prelude/Text.antt =====
-- Go strings as lists of Unicode code points. The program splits, trims and tests its strings only
-- at ASCII characters, where bytes and code points agree; a stray byte of a malformed string counts
-- as one code point of its own.
use Prim.Native.Char.{code}
use Prim.Native.Nat.{ℕ}
use Prim.Native.String.{String}
use mathlib.Core.Path.{◌≡◌, refl}
use mathlib.Core.Logic.{◌↔◌}
use mathlib.Core.Bool.{Bool, true, false, ◌&&◌}
use mathlib.Core.List.{List, [], ◌∷◌}
use native.Mathlib.Omega.{arith}
use mecone.Prelude.Tests.{◌==◌}

abbrev pub Str : Type 0
Str = List ℕ

-- A literal; every literal of the program that is compared or sent is ASCII.
abbrev pub str : String → Str
str String.[] = []
str (String.◌∷◌ c s) = code c ∷ str s

-- a == b
unfoldable pub eq_str : Str → Str → Bool
eq_str [] [] = true
eq_str (x ∷ xs) (y ∷ ys) = (x == y) && eq_str xs ys
eq_str [] (_ ∷ _) = false
eq_str (_ ∷ _) [] = false

pub eq_str_iff : (s t : Str) → (eq_str s t ≡ true) ↔ (s ≡ t)
unfolding eq_str
eq_str_iff [] [] = ground arith
eq_str_iff (x ∷ xs) (y ∷ ys) = ground (arith, eq_str_iff xs ys)
eq_str_iff [] (_ ∷ _) = ground arith
eq_str_iff (_ ∷ _) [] = ground arith

pub eq_str_refl : (s : Str) → eq_str s s ≡ true
eq_str_refl s = (eq_str_iff s s).1 refl
