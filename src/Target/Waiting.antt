-- ===== src/Target/Waiting.antt =====
-- pkg/target/ready.go: theorems about the wait for a target.
use mecone.Prelude.{
  ℕ, zero, suc, ◌+◌, ◌-◌, ◌≤◌, ◌<◌, ◌≡◌, ◌≢◌, refl, ap, ◌∙◌, ◌↔◌, inl, inr, Bool, true, Option,
  none, Str, Bool-cases, Option-cases, arith, ◌==◌, ==_iff,
}
use mathlib.Core.Path.{subst}
use mecone.Target.{ready, out_of_fuel, wait_from, wait_ready, Failed}

module _ (probe : ℕ → Option Str) (expired sleeps : ℕ → Bool) where
  -- An attempt is answered, and those from `first` before it failed in time.
  abbrev pub Answers : ℕ → ℕ → Type 0
  Answers first k =
      (first ≤ k)
      × ((probe k ≡ none) × ((j : ℕ) → first ≤ j → j < k → Failed probe expired sleeps j))

  not-Answers :
      (first k : ℕ) → probe first ≢ none → ¬ Failed probe expired sleeps first → ¬ Answers first k
  not-Answers first k p f (le, (n, before)) = elim (Bool-cases (first == k)) [
    | inl same ↦ let it : first ≡ k = (==_iff first k).0 same in p (ap probe it ∙ n)
    | inr other ↦ f (before first (omega arith) (ground arith))
  ]

  -- After a failed attempt the wait goes on as from the next one.
  Answers-suc :
      (first k : ℕ) → Failed probe expired sleeps first → Answers (first + 1) k ↔ Answers first k
  Answers-suc first k (reason, p, early, slept) = (
    λ (le, (n, before)). (
      omega arith,
      (
        n,
        λ j a b. elim (Bool-cases (first == j)) [
          | inl same ↦
              let it : first ≡ j = (==_iff first j).0 same in
              subst (Failed probe expired sleeps) it (reason, p, early, slept)
          | inr other ↦ before j (ground arith) b
        ],
      ),
    ),
    λ (le, (n, before)). elim (Bool-cases (first == k)) [
      | inl same ↦
          let it : first ≡ k = (==_iff first k).0 same in absurd (let q = ap probe it in cc)
      | inr other ↦ (ground arith, (n, λ j a b. before j (omega arith) b))
    ],
  )

  wait_from-ready :
      (fuel first m : ℕ)
      → m < fuel
      → expired (first + m) ≡ true
      → (wait_from probe expired sleeps fuel first ≢ out_of_fuel)
        × ((wait_from probe expired sleeps fuel first ≡ ready) ↔ ((k : ℕ) × Answers first k))
  unfolding wait_from
  wait_from-ready zero first m lt e = absurd (omega arith)
  wait_from-ready (suc fuel) first m lt e = elim (Option-cases (probe first)) [
    | inl n ↦
        rw (n, wait_from)
          (λ h. cc, (λ _. (first, (omega arith, (n, λ j a b. absurd (omega arith)))), λ _. refl))
    | inr (reason, p) ↦ elim (Bool-cases (expired first)) [
      | inl late ↦
          rw (p, wait_from, late)
            (
              λ h. cc,
              (
                λ h. absurd (cc),
                λ (k, h). absurd (not-Answers first k (λ n. cc) (λ (r, q, x, y). cc) h),
              ),
            )
      | inr early ↦ elim (Bool-cases (sleeps first)) [
        | inr woken ↦
            rw (p, wait_from, early, woken)
              (
                λ h. cc,
                (
                  λ h. absurd (cc),
                  λ (k, h). absurd (not-Answers first k (λ n. cc) (λ (r, q, x, y). cc) h),
                ),
              )
        | inl slept ↦
            let later : m ≢ 0 =
              λ z. (let q : first + m ≡ first = omega arith in let r = ap expired q in cc) in
            let shift : (first + 1) + (m - 1) ≡ first + m = ground arith in
            let (some_end, iff) =
              wait_from-ready fuel (first + 1) (m - 1) (ground arith) (ap expired shift ∙ e) in
            rw (p, wait_from, early, slept)
              (
                some_end,
                (
                  λ h.
                      let (k, a) = iff.0 h in
                      (k, (Answers-suc first k (reason, p, early, slept)).0 a),
                  λ (k, a). iff.1 (k, (Answers-suc first k (reason, p, early, slept)).1 a),
                ),
              )
      ]
    ]
  ]

  -- A wait whose deadline passes after some attempt ends, with as much fuel as that attempt's number.
  -- It ends with a target that is ready exactly if an attempt is answered and those before it failed
  -- before the deadline, with a pause after each that was not cut short.
  pub wait_ready-ready :
      (n : ℕ)
      → 0 < n
      → expired n ≡ true
      → (wait_ready probe expired sleeps n ≢ out_of_fuel)
        × ((wait_ready probe expired sleeps n ≡ ready) ↔ ((k : ℕ) × Answers 1 k))
  unfolding wait_ready
  wait_ready-ready n positive e =
      let shift : 1 + (n - 1) ≡ n = omega arith in
      wait_from-ready n 1 (n - 1) (omega arith) (ap expired shift ∙ e)
