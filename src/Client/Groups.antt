-- ===== src/Client/Groups.antt =====
-- pkg/client/runner.go: theorems about the steps of a parallel group, and the numbers of the steps that
-- send requests.
use mecone.Prelude.{
  ℕ, zero, suc, ◌+◌, ◌≤◌, ◌<◌, ◌≡◌, refl, ap, true, false, some, List, [], ◌∷◌, arith,
  if◌then◌else◌, length, get_elem?,
}
use mecone.TestDef.{Step, is_wait}
use mecone.Client.{zero_observation, blank, drop, parallel_end_from}

pub length-blank : (steps : List Step) → length (blank steps) ≡ length steps
length-blank [] = refl
length-blank (s ∷ steps) = ap suc (length-blank steps)

pub get_elem?-blank :
    (steps : List Step) (k : ℕ)
    → k < length steps
    → get_elem? (blank steps) k ≡ some zero_observation
get_elem?-blank [] k h = absurd (omega arith)
get_elem?-blank (s ∷ steps) zero h = refl
get_elem?-blank (s ∷ steps) (suc k) h = get_elem?-blank steps k (omega arith)

-- A request of a parallel group.
abbrev pub Grouped : Step → Type 0
Grouped s = (is_wait s ≡ false) × (s.parallel ≡ true)

-- The group's end lies behind the start and not behind the steps.
pub parallel_end_from-bounds :
    (end : ℕ) (steps : List Step)
    → (end ≤ parallel_end_from end steps) × (parallel_end_from end steps ≤ end + length steps)
unfolding parallel_end_from
parallel_end_from-bounds end [] = (omega arith, omega arith)
parallel_end_from-bounds end (s ∷ steps) =
    let (low, high) = parallel_end_from-bounds (end + 1) steps in (ground arith, ground arith)

-- All steps before the group's end are of the group, and the first step is if it can be.
pub parallel_end_from-Grouped :
    (end : ℕ) (steps : List Step) (k : ℕ) (s : Step)
    → end + k < parallel_end_from end steps
    → get_elem? steps k ≡ some s
    → Grouped s
unfolding parallel_end_from
parallel_end_from-Grouped end [] k s h e = absurd (cc)
parallel_end_from-Grouped end (t ∷ steps) zero s h e =
    let same : t ≡ s = cc in let grouped : Grouped t = ground arith in rw (← same) grouped
parallel_end_from-Grouped end (t ∷ steps) (suc k) s h e =
    parallel_end_from-Grouped (end + 1) steps k s (ground arith) e

pub parallel_end_from-first :
    (end : ℕ) (s : Step) (steps : List Step)
    → get_elem? steps 0 ≡ some s
    → Grouped s
    → end < parallel_end_from end steps
unfolding parallel_end_from
parallel_end_from-first end s [] e g = absurd (cc)
parallel_end_from-first end s (t ∷ steps) e (a, p) =
    let same : t ≡ s = cc in
    let low = (parallel_end_from-bounds (end + 1) steps).0 in
    let waits : is_wait t ≡ false = rw same a in
    let grouped : t.parallel ≡ true = rw same p in ground arith

pub get_elem?-drop :
    (steps : List Step) (i k : ℕ) → get_elem? (drop i steps) k ≡ get_elem? steps (i + k)
get_elem?-drop steps zero k = ap (get_elem? steps) (omega arith)
get_elem?-drop [] (suc i) k = refl
get_elem?-drop (s ∷ steps) (suc i) k =
    let same : suc i + k ≡ suc (i + k) = omega arith in rw same (get_elem?-drop steps i k)

pub length-drop :
    (steps : List Step) (i : ℕ) → i ≤ length steps → i + length (drop i steps) ≡ length steps
length-drop steps zero h = omega arith
length-drop [] (suc i) h = omega arith
length-drop (s ∷ steps) (suc i) h = omega (arith, length-drop steps i (omega arith))

-- The numbers of the steps that send a request, where the first step has the number `n`.
abbrev pub requested : ℕ → List Step → List ℕ
requested n [] = []
requested n (s ∷ steps) = let rest = requested (n + 1) steps in if is_wait s then rest else n ∷ rest

pub drop-suc :
    (steps : List Step) (i : ℕ) (s : Step)
    → get_elem? steps i ≡ some s
    → drop i steps ≡ s ∷ drop (i + 1) steps
drop-suc [] i s at = absurd (cc)
drop-suc (t ∷ steps) zero s at = let same : t ≡ s = cc in rw same refl
drop-suc (t ∷ steps) (suc i) s at =
    let same : suc i + 1 ≡ suc (i + 1) = omega arith in rw same (drop-suc steps i s at)

pub drop-length : (steps : List Step) → drop (length steps) steps ≡ []
drop-length [] = refl
drop-length (s ∷ steps) = drop-length steps

pub requested-asks :
    (i : ℕ) (s : Step) (n : ℕ) (steps : List Step)
    → get_elem? steps i ≡ some s
    → is_wait s ≡ false
    → n ∷ requested (n + 1) (drop (i + 1) steps) ≡ requested n (drop i steps)
requested-asks i s n steps at asks = rw (drop-suc steps i s at, asks) refl

pub requested-waits :
    (i : ℕ) (s : Step) (n : ℕ) (steps : List Step)
    → get_elem? steps i ≡ some s
    → is_wait s ≡ true
    → requested (n + 1) (drop (i + 1) steps) ≡ requested n (drop i steps)
requested-waits i s n steps at waits = rw (drop-suc steps i s at, waits) refl
