-- ===== src/Check/Verdicts.antt =====
-- pkg/check/check.go: theorems about `Verdict`, and about `Evaluate` on a whole test.
use mecone.Prelude.{
  ℕ, zero, suc, ◌+◌, ◌≡◌, ◌≢◌, refl, ◌↔◌, ◌⊎◌, inl, inr, Bool, true, false, some, List, [], ◌∷◌,
  map, pos, Bool-cases, arith, get_elem?, Any, append_eq_nil,
}
use mecone.Protocol.{Log, log_step}
use mecone.TestDef.{Step, Test, is_wait}
use mecone.Results.{Outcome, pass, fail, inconclusive}
use mecone.Check.Meaning.{Passes, evaluate_step_iff}
use mecone.Check.{
  Patterns, Observation, Message, Failure, failure, evaluate_step, evaluate_from, evaluate,
  verdict_from, verdict,
}

-- Some failed step only establishes state.
abbrev pub FailedArrange : List Failure → Type 0
FailedArrange = Any (λ f. f.arrange ≡ true)

verdict_from_iff :
    (outcome : Outcome) (fails : List Failure)
    → outcome ≢ inconclusive
    → (verdict_from outcome fails ≡ inconclusive) ↔ FailedArrange fails
unfolding verdict_from
verdict_from_iff outcome [] ne = (λ h. absurd (ne h), λ h. absurd h)
verdict_from_iff outcome (f ∷ fails) ne =
    let (sound, full) = verdict_from_iff fail fails (cc) in
    elim (Bool-cases f.arrange) [
      | inl a ↦ (λ _. inl a, λ _. ground arith)
      | inr a ↦ (λ h. inr (sound (ground arith)), λ h. ground (arith, full))
    ]

verdict_from-fail :
    (fails : List Failure)
    → (verdict_from fail fails ≡ fail) ⊎ (verdict_from fail fails ≡ inconclusive)
unfolding verdict_from
verdict_from-fail [] = inl refl
verdict_from-fail (f ∷ fails) = ground (arith, verdict_from-fail fails)

-- A test is inconclusive exactly if a step that only establishes state failed, it passes exactly if
-- no step failed, and it fails in every other case.
pub verdict_iff :
    (fails : List Failure)
    → ((verdict fails ≡ inconclusive) ↔ FailedArrange fails)
      × ((verdict fails ≡ pass) ↔ (fails ≡ []))
      × ((verdict fails ≡ fail) ↔ ((fails ≢ []) × ¬ FailedArrange fails))
unfolding verdict verdict_from
verdict_iff [] = (
  (λ h. absurd (cc), λ h. absurd h),
  (λ _. refl, λ _. refl),
  (λ h. absurd (cc), λ h. absurd (h.0 refl)),
)
verdict_iff (f ∷ fails) =
    let (sound, full) = verdict_from_iff pass (f ∷ fails) (cc) in
    let later = verdict_from-fail fails in
    (
      (sound, full),
      (λ h. absurd (ground arith), λ h. absurd (cc)),
      (
        λ h. (λ e. cc, λ a. cc (full a)),
        λ h. elim (Bool-cases f.arrange) [
          | inl a ↦ absurd (h.1 (inl a))
          | inr a ↦ elim later [
            | inl e ↦ ground arith
            | inr e ↦ absurd (h.1 (sound (ground arith)))
          ]
        ],
      ),
    )

module _ (patterns : Patterns) where
  -- Every request step that was run passes; `i` is the index of the first step.
  abbrev StepsPass : ℕ → List Step → List Observation → Log → Type 0
  StepsPass i steps obs log =
      (k : ℕ) (s : Step) (o : Observation)
      → get_elem? steps k ≡ some s
      → get_elem? obs k ≡ some o
      → is_wait s ≡ false
      → Passes patterns s.expect o (log_step log (pos (i + k + 1)))

  map-failure-eq_nil :
      (n : ℕ) (a : Bool) (ms : List Message) → (map (failure patterns n a) ms ≡ []) ↔ (ms ≡ [])
  map-failure-eq_nil n a [] = (λ _. refl, λ _. refl)
  map-failure-eq_nil n a (m ∷ ms) = (λ h. absurd (cc), λ h. absurd (cc))

  evaluate_from-cons :
      (i : ℕ) (s : Step) (steps : List Step) (o : Observation) (obs : List Observation) (log : Log)
      → (evaluate_from patterns i (s ∷ steps) (o ∷ obs) log ≡ []) ↔ (
          (is_wait s ≡ false → Passes patterns s.expect o (log_step log (pos (i + 1))))
          × (evaluate_from patterns (i + 1) steps obs log ≡ []))
  unfolding evaluate_from
  evaluate_from-cons i s steps o obs log =
      let entries = log_step log (pos (i + 1)) in
      let (sound, full) = evaluate_step_iff patterns s.expect o entries in
      let messages = evaluate_step patterns s.expect o entries in
      let (unmap, remap) = map-failure-eq_nil (i + 1) s.arrange messages in
      let (split, join) =
        append_eq_nil (map (failure patterns (i + 1) s.arrange) messages)
          (evaluate_from patterns (i + 1) steps obs log) in
      elim (Bool-cases (is_wait s)) [
        | inl w ↦ (λ h. (λ n. absurd (cc), ground arith), λ h. ground arith)
        | inr w ↦ (
          λ h. let parts = split (ground arith) in (λ _. sound (unmap parts.0), parts.1),
          λ h. let whole = join (remap (full (h.0 w)), h.1) in ground arith,
        )
      ]

  evaluate_from_iff :
      (i : ℕ) (steps : List Step) (obs : List Observation) (log : Log)
      → (evaluate_from patterns i steps obs log ≡ []) ↔ StepsPass i steps obs log
  evaluate_from_iff i [] obs log = (λ _ k s o hs. cc, λ _. unfold evaluate_from in refl)
  evaluate_from_iff i (s ∷ steps) [] log = (λ _ k s o hs ho. cc, λ _. unfold evaluate_from in refl)
  evaluate_from_iff i (s ∷ steps) (o ∷ obs) log =
      let (sound, full) = evaluate_from-cons i s steps o obs log in
      let (sounds, fulls) = evaluate_from_iff (i + 1) steps obs log in
      let at = λ (n : ℕ) (s' : Step) (o' : Observation).
        Passes patterns s'.expect o' (log_step log (pos n)) in
      let head : i + 0 + 1 ≡ i + 1 = omega arith in
      let later = λ (k : ℕ). let e : i + suc k + 1 ≡ i + 1 + k + 1 = omega arith in e in
      (
        λ h. elim [
          | zero ↦ λ s' o' hs ho w.
              let ss : s ≡ s' = cc in
              let oo : o ≡ o' = cc in rw (head, ← ss, ← oo) ((sound h).0 (cc))
          | suc k ↦ λ s' o' hs ho w. rw (later k) (sounds (sound h).1 k s' o' hs ho w)
        ],
        λ h. full (
          λ w. rw head at (h 0 s o refl refl w),
          fulls (λ k s' o' hs ho w. rw (later k) at (h (suc k) s' o' hs ho w)),
        ),
      )

  -- A test passes exactly if every request step that was run got a response that meets its
  -- expectations, given the client's observation of the step and the requests that the origin logged
  -- under the step's number.
  pub verdict-evaluate :
      (t : Test) (obs : List Observation) (log : Log)
      → (verdict (evaluate patterns t obs log) ≡ pass) ↔ (
          (k : ℕ) (s : Step) (o : Observation)
          → get_elem? t.steps k ≡ some s
          → get_elem? obs k ≡ some o
          → is_wait s ≡ false
          → Passes patterns s.expect o (log_step log (pos (k + 1))))
  unfolding evaluate
  verdict-evaluate t obs log =
      let (_, (sound, full), _) = verdict_iff (evaluate patterns t obs log) in
      let (sounds, fulls) = evaluate_from_iff 0 t.steps obs log in
      let shift = λ (k : ℕ). let e : 0 + k + 1 ≡ k + 1 = omega arith in e in
      (
        λ h k s o hs ho w. rw (shift k) at (sounds (sound h) k s o hs ho w),
        λ h. full (fulls (λ k s o hs ho w. rw (shift k) (h k s o hs ho w))),
      )
