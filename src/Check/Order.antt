-- ===== src/Check/Order.antt =====
-- pkg/check/check.go: theorems about `inOrder`, the order of interim responses.
use mathlib.Core.List.{append_assoc}
use mecone.Prelude.{
  ◌+◌, ◌≡◌, ◌≢◌, refl, sym, ap, ◌∙◌, ◌↔◌, inl, inr, true, false, none, some, List, [], ◌∷◌, ◌++◌, ℤ,
  eq_ℤ, eq_ℤ_iff, Bool-cases, arith, ==_iff, length, get_elem?, length-append,
}
use mecone.Check.{in_order_from, in_order}

-- `want` is `got` with some of its elements left out.
pub data Subsequence : List ℤ → List ℤ → Type 0 where
  end : Subsequence [] []
  keep : (x : ℤ) {want got : List ℤ} → Subsequence want got → Subsequence (x ∷ want) (x ∷ got)
  skip : (x : ℤ) {want got : List ℤ} → Subsequence want got → Subsequence want (x ∷ got)

nil : (got : List ℤ) → Subsequence [] got
nil [] = end
nil (x ∷ got) = skip x (nil got)

drop_head : {x : ℤ} {want got : List ℤ} → Subsequence (x ∷ want) got → Subsequence want got
drop_head (keep x s) = skip x s
drop_head (skip y s) = skip y (drop_head s)

unkeep : {x y : ℤ} {want got : List ℤ} → Subsequence (x ∷ want) (y ∷ got) → Subsequence want got
unkeep (keep x s) = s
unkeep (skip y s) = drop_head s

unskip :
    {x y : ℤ} {want got : List ℤ}
    → Subsequence (x ∷ want) (y ∷ got)
    → y ≢ x
    → Subsequence (x ∷ want) got
unskip (keep x s) ne = absurd (ne refl)
unskip (skip y s) ne = s

get_elem?-append_end : (pre : List ℤ) → get_elem? (pre ++ []) (length pre) ≡ none
get_elem?-append_end [] = refl
get_elem?-append_end (x ∷ pre) = get_elem?-append_end pre

get_elem?-append_head : (pre ws : List ℤ) (w : ℤ) → get_elem? (pre ++ w ∷ ws) (length pre) ≡ some w
get_elem?-append_head [] ws w = refl
get_elem?-append_head (x ∷ pre) ws w = get_elem?-append_head pre ws w

-- One round: nothing is wanted, the next wanted one comes, or another one comes.
round_end :
    (g : ℤ) (got pre : List ℤ)
    → in_order_from (pre ++ []) (length pre) (g ∷ got) ≡ in_order_from (pre ++ []) (length pre) got
unfolding in_order_from
round_end g got pre = ground (arith, get_elem?-append_end pre)

round_keep :
    (g : ℤ) (got pre : List ℤ) (w : ℤ) (ws : List ℤ)
    → eq_ℤ g w ≡ true
    → in_order_from (pre ++ w ∷ ws) (length pre) (g ∷ got)
      ≡ in_order_from ((pre ++ w ∷ []) ++ ws) (length (pre ++ w ∷ [])) got
unfolding in_order_from
round_keep g got pre w ws same =
    let count : length (pre ++ w ∷ []) ≡ length pre + 1 =
      omega (arith, length-append pre (w ∷ [])) in
    rw (count, append_assoc) (ground (arith, get_elem?-append_head pre ws w))

round_skip :
    (g : ℤ) (got pre : List ℤ) (w : ℤ) (ws : List ℤ)
    → eq_ℤ g w ≡ false
    → in_order_from (pre ++ w ∷ ws) (length pre) (g ∷ got)
      ≡ in_order_from (pre ++ w ∷ ws) (length pre) got
unfolding in_order_from
round_skip g got pre w ws differs = ground (arith, get_elem?-append_head pre ws w)

-- With `pre` seen and `rest` still wanted, the loop ends behind `rest` exactly if `rest` comes.
in_order_from_iff :
    (got pre rest : List ℤ)
    → (in_order_from (pre ++ rest) (length pre) got ≡ length (pre ++ rest)) ↔ Subsequence rest got
in_order_from_iff [] pre [] =
    (λ _. end, λ _. unfold in_order_from in omega (arith, length-append pre []))
in_order_from_iff [] pre (w ∷ ws) = (
  λ h. absurd (unfold in_order_from in omega (arith, length-append pre (w ∷ ws))),
  λ s. elim s [ ],
)
in_order_from_iff (g ∷ got) pre [] =
    let (sound, full) = in_order_from_iff got pre [] in
    (λ h. nil (g ∷ got), λ _. round_end g got pre ∙ full (nil got))
in_order_from_iff (g ∷ got) pre (w ∷ ws) = elim (Bool-cases (eq_ℤ g w)) [
  | inl same ↦
      let (sound, full) = in_order_from_iff got (pre ++ w ∷ []) ws in
      let regroup = append_assoc pre (w ∷ []) ws in
      let equal : g ≡ w = (eq_ℤ_iff g w).0 same in
      (
        λ h.
            rw (← equal)
              (keep g (sound (sym (round_keep g got pre w ws same) ∙ h ∙ ap length (sym regroup)))),
        λ s. round_keep g got pre w ws same ∙ full (unkeep s) ∙ ap length regroup,
      )
  | inr differs ↦
      let (sound, full) = in_order_from_iff got pre (w ∷ ws) in
      (
        λ h. skip g (sound (sym (round_skip g got pre w ws differs) ∙ h)),
        λ s. round_skip g got pre w ws differs ∙ full (unskip s (λ e. cc ((eq_ℤ_iff g w).1 e))),
      )
]

-- The client is content with the interim responses exactly if the wanted ones are among those that
-- came, in the wanted order.
pub in_order_iff : (got want : List ℤ) → (in_order got want ≡ true) ↔ Subsequence want got
unfolding in_order
in_order_iff got want =
    let (sound, full) = in_order_from_iff got [] want in
    (λ h. sound ((==_iff _ _).0 h), λ s. (==_iff _ _).1 (full s))
