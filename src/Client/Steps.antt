-- ===== src/Client/Steps.antt =====
-- pkg/client/runner.go: what `sendSteps` sends and observes, whatever groups the steps form.
use mathlib.Core.List.{append_assoc, append-nil}
use mathlib.Core.Path.{subst}
use mecone.Prelude.{
  ℕ, zero, suc, ◌+◌, ◌-◌, ◌≤◌, ◌<◌, ◌≡◌, refl, sym, ap, ◌∙◌, inl, inr, Bool, true, false, Option,
  none, some, List, [], ◌∷◌, ◌++◌, Bool-cases, arith, ltb, if◌then◌else◌, length, get_elem?,
  length-set, get_elem?-set, get_elem?-lt, get_elem?_of_lt,
}
use mecone.TestDef.{Step, is_wait}
use mecone.Check.{Observation}
use mecone.Client.{
  Sending, zero_observation, blank, drop, parallel_end, send_one, send_at, send_parallel,
  send_step_group, send_from, send_steps,
}
use mecone.Client.Groups.{
  length-blank, get_elem?-blank, Grouped, parallel_end_from-bounds, parallel_end_from-Grouped,
  parallel_end_from-first, get_elem?-drop, length-drop, requested, drop-length, requested-asks,
  requested-waits,
}

module _ (send : ℕ → Step → Observation) (sleeps : ℕ → Bool) (steps : List Step) where
  -- What the client observes at a step: nothing for a wait.
  abbrev pub observed : ℕ → Option Observation
  observed k = elim (get_elem? steps k) [
    | none ↦ none
    | some s ↦ (if is_wait s then some zero_observation else some (send (k + 1) s))
  ]

  -- The steps before `i` are done and those from `i` on are not.
  record Upto (i : ℕ) (st : Sending) : Type 0 where
    size : length st.observations ≡ length steps
    done : (k : ℕ) → k < i → get_elem? st.observations k ≡ observed k
    pending :
        (k : ℕ) → i ≤ k → k < length steps → get_elem? st.observations k ≡ some zero_observation
    asked : st.requests ++ requested (i + 1) (drop i steps) ≡ requested 1 steps

  send_one-Upto :
      (i : ℕ) (st : Sending) (s : Step)
      → get_elem? steps i ≡ some s
      → is_wait s ≡ false
      → Upto i st
      → Upto (i + 1) (send_one send sleeps st i s)
  send_one-Upto i st s at asks u = record {
    size = length-set st.observations i (send (i + 1) s) ∙ u.size;
    done = λ k h. ground (
      arith,
      get_elem?-set st.observations i k (send (i + 1) s),
      get_elem?-lt steps i s at,
      u.size,
      u.done k,
    );
    pending = λ k h l. ground (
      arith,
      get_elem?-set st.observations i k (send (i + 1) s),
      get_elem?-lt steps i s at,
      u.size,
      u.pending k,
    );
    asked =
        append_assoc st.requests ((i + 1) ∷ []) (requested (i + 1 + 1) (drop (i + 1) steps))
        ∙ (ap (λ xs. st.requests ++ xs) (requested-asks i s (i + 1) steps at asks) ∙ u.asked);
  }

  send_at-eq :
      (i : ℕ) (st : Sending) (s : Step)
      → get_elem? steps i ≡ some s
      → send_at send sleeps steps st i ≡ send_one send sleeps st i s
  send_at-eq i st s at = rw (at, send_at) refl

  send_parallel-Upto :
      (count i : ℕ) (st : Sending)
      → i + count ≤ length steps
      → ((k : ℕ) (s : Step)
          → k < i + count
          → i ≤ k
          → get_elem? steps k ≡ some s
          → is_wait s ≡ false)
      → Upto i st
      → Upto (i + count) (send_parallel send sleeps steps st i count)
  unfolding send_parallel
  send_parallel-Upto zero i st h g u = let same : i ≡ i + 0 = omega arith in rw (← same) u
  send_parallel-Upto (suc count) i st h g u =
      let (s, at) = get_elem?_of_lt steps i (omega arith) in
      let asks = g i s (omega arith) (omega arith) at in
      let here : send_at send sleeps steps st i ≡ send_one send sleeps st i s =
        send_at-eq i st s at in
      let same : i + 1 + count ≡ i + suc count = omega arith in
      rw (here, ← same)
        (send_parallel-Upto count (i + 1) (send_one send sleeps st i s) (omega arith)
          (λ k t b l e. g k t (omega arith) (omega arith) e) (send_one-Upto i st s at asks u))

  -- A wait leaves its place as it is.
  wait-Upto :
      (i : ℕ) (st : Sending) (s : Step)
      → get_elem? steps i ≡ some s
      → is_wait s ≡ true
      → Upto i st
      → Upto (i + 1) st
  wait-Upto i st s at waits u = record {
    size = u.size;
    done = λ k h. ground (arith, u.done k, u.pending k, get_elem?-lt steps i s at, at, waits);
    pending = λ k h l. u.pending k (omega arith) l;
    asked = ap (λ xs. st.requests ++ xs) (requested-waits i s (i + 1) steps at waits) ∙ u.asked;
  }

  group-Upto :
      (i : ℕ) (st : Sending) (s : Step)
      → get_elem? steps i ≡ some s
      → Grouped s
      → Upto i st
      → (i < parallel_end steps i)
        × (parallel_end steps i ≤ length steps)
        × Upto
            (parallel_end steps i)
            (send_parallel send sleeps steps st i (parallel_end steps i - i))
  unfolding parallel_end
  group-Upto i st s at grouped u =
      let rest = drop i steps in
      let inside = get_elem?-lt steps i s at in
      let at_start : get_elem? rest 0 ≡ some s =
        get_elem?-drop steps i 0 ∙ ap (get_elem? steps) (omega arith) ∙ at in
      let later = parallel_end_from-first i s rest at_start grouped in
      let high = (parallel_end_from-bounds i rest).1 in
      let long = length-drop steps i (omega arith) in
      let count = parallel_end steps i - i in
      let same : i + count ≡ parallel_end steps i = omega arith in
      (
        later,
        omega arith,
        subst (λ j. Upto j (send_parallel send sleeps steps st i count)) same
            (send_parallel-Upto count i st (omega arith)
              (λ k t b l e.
                (parallel_end_from-Grouped i rest (k - i) t (omega arith)
                  (get_elem?-drop steps i (k - i) ∙ ap (get_elem? steps) (omega arith) ∙ e)).0)
              u),
      )

  -- One round of the loop, if every wait lasts to its end.
  send_step_group-Upto :
      (i : ℕ) (st : Sending)
      → ((k : ℕ) → sleeps k ≡ true)
      → i < length steps
      → Upto i st
      → (i < (send_step_group send sleeps steps st i).1)
        × ((send_step_group send sleeps steps st i).1 ≤ length steps)
        × Upto (send_step_group send sleeps steps st i).1 (send_step_group send sleeps steps st i).0
  unfolding send_step_group
  send_step_group-Upto i st lasts h u =
      let (s, at) = get_elem?_of_lt steps i h in
      elim (Bool-cases (is_wait s)) [
        | inl waits ↦
            rw (at, send_step_group, waits, lasts i)
              (omega arith, omega arith, wait-Upto i st s at waits u)
        | inr asks ↦ elim (Bool-cases s.parallel) [
          | inl p ↦ rw (at, send_step_group, asks, p) (group-Upto i st s at (asks, p) u)
          | inr alone ↦
              rw (at, send_step_group, asks, alone)
                (omega arith, omega arith, send_one-Upto i st s at asks u)
        ]
      ]

  send_from-Upto :
      (fuel i : ℕ) (st : Sending)
      → ((k : ℕ) → sleeps k ≡ true)
      → i ≤ length steps
      → length steps ≤ fuel + i
      → Upto i st
      → Upto (length steps) (send_from send sleeps fuel steps st i)
  unfolding send_from
  send_from-Upto zero i st lasts h f u = let same : i ≡ length steps = omega arith in rw (← same) u
  send_from-Upto (suc fuel) i st lasts h f u = elim (Bool-cases (ltb i (length steps))) [
    | inr e ↦ let same : i ≡ length steps = ground arith in rw e (rw (← same) u)
    | inl e ↦
        let (later, inside, u') = send_step_group-Upto i st lasts (ground arith) u in
        rw e (
          send_from-Upto fuel (send_step_group send sleeps steps st i).1
            (send_step_group send sleeps steps st i).0 lasts inside (omega arith) u')
  ]

  -- If every wait lasts to its end, the client starts exactly the requests of the steps that are no
  -- waits, each once and in their order, alone or in a parallel group. What it observes at such a step
  -- is the answer to the request with the step's number, and nothing at a wait.
  pub send_steps-requested :
      (k : ℕ)
      → ((n : ℕ) → sleeps n ≡ true)
      → k < length steps
      → ((send_steps send sleeps steps).requests ≡ requested 1 steps)
        × (get_elem? (send_steps send sleeps steps).observations k ≡ observed k)
  unfolding send_steps
  send_steps-requested k lasts h =
      let start : Upto 0 (record { observations = blank steps; requests = [] }) = record {
        size = length-blank steps;
        done = λ j l. absurd (omega arith);
        pending = λ j l m. get_elem?-blank steps j m;
        asked = refl;
      } in
      let all_sent =
        send_from-Upto (length steps) 0 (record { observations = blank steps; requests = [] }) lasts
          (omega arith) (omega arith) start in
      let sent = send_steps send sleeps steps in
      (
        sym (append-nil sent.requests)
            ∙ (ap (λ xs. sent.requests ++ requested (length steps + 1) xs) (sym (drop-length steps))
                ∙ all_sent.asked),
        all_sent.done k h,
      )
