-- ===== src/Prelude/Problems.antt =====
-- Validation that collects its problems: errors appended one after the other.
use mathlib.Core.Path.{◌≡◌, refl}
use mathlib.Core.Logic.{◌↔◌}
use mathlib.Core.Bool.{Bool, true, false}
use mathlib.Core.List.{List, [], ◌∷◌, ◌++◌, map}
use mecone.Prelude.Tests.{if◌then◌else◌}
use mecone.Prelude.Lists.{All, append_eq_nil}

module _ {E : Type 0} where
  -- append(errs, err) unless the condition holds
  abbrev pub demand : Bool → E → List E
  demand b p = if b then [] else p ∷ []

  abbrev pub each {ℓ} : {A : Type ℓ} → (A → List E) → List A → List E
  each f [] = []
  each f (x ∷ xs) = f x ++ each f xs

  pub demand_for : {P : Type 0} (b : Bool) (p : E) → (b ≡ true) ↔ P → (demand b p ≡ []) ↔ P
  demand_for true p h = (λ _. h.0 refl, λ _. refl)
  demand_for false p h = (λ k. absurd (cc), λ k. absurd (let t = h.1 k in cc))

  pub both :
      {P Q : Type 0} {xs ys : List E} → (xs ≡ []) ↔ P → (ys ≡ []) ↔ Q → (xs ++ ys ≡ []) ↔ (P × Q)
  both {xs} {ys} h k =
      let split = append_eq_nil xs ys in
      (λ e. (h.0 (split.0 e).0, k.0 (split.0 e).1), λ (p, q). split.1 (h.1 p, k.1 q))

  pub each_iff :
      {A : Type 0} {P : A → Type 0} (f : A → List E) (xs : List A)
      → ((x : A) → (f x ≡ []) ↔ P x)
      → (each f xs ≡ []) ↔ All P xs
  each_iff f [] h = (λ _. tt, λ _. refl)
  each_iff f (x ∷ xs) h = both (h x) (each_iff f xs h)

  pub map_iff : (f : E → E) (xs : List E) → (map f xs ≡ []) ↔ (xs ≡ [])
  map_iff f [] = (λ h. refl, λ h. refl)
  map_iff f (x ∷ xs) = (λ h. absurd (cc), λ h. absurd (cc))
