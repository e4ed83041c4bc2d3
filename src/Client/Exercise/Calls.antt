-- ===== src/Client/Exercise/Calls.antt =====
-- pkg/client/runner.go: theorems about the calls and the result of `exercise`.
use mecone.Prelude.{
  ℕ, ◌+◌, ◌≡◌, ◌≢◌, ◌↔◌, ◌⊎◌, inl, inr, Bool, true, none, some, if◌then◌else◌, refl, ◌∙◌, List, [],
  ◌∷◌, Str, eq_str_refl, err, Result-cases, Bool-cases, Option-cases, arith,
}
use mecone.Maps
use mecone.Maps.{str_key}
use mecone.Protocol.{Log}
use mecone.Protocol.Ids.{new_id}
use mecone.TestDef.{Test}
use mecone.TestDef.Script.{script}
use mecone.Results.{Outcome, pass, fail, error, TestResult}
use mecone.Check.{Patterns, Message, Failure, verdict, verdict_from}
use mecone.Client.{send_steps}
use mecone.Client.Exercise.{
  Exchange, Call, put_script, get_log, delete_script, judge, exercise_uploaded, exercise,
}
use mecone.Origin.Store.{Store, put, get, remove, fresh}
use mecone.Origin.Store.Answers.{IsValid, view, view-put}
use mecone.Protocol.{Script}

-- What a call does to the origin's store, at a time that the origin reads.
abbrev applied : ℕ → Call → Store → Store
applied now (put_script id sc) s = put id sc now s
applied now (get_log id) s = s
applied now (delete_script id) s = remove id s

-- The calls in their order; one that does not arrive at the origin changes nothing there.
abbrev pub serve : (Call → Bool) → (ℕ → ℕ) → ℕ → List Call → Store → Store
serve arrives clock n [] s = s
serve arrives clock n (c ∷ calls) s =
    serve arrives clock (n + 1) calls (if arrives c then applied (clock n) c s else s)

get_eq : (id : Str) (s : Store) → get id s ≡ Maps.lookup id s.tests
unfolding get
get_eq id s = refl

-- The last call decides whether the store still has the script.
serve_deleting :
    (arrives : Call → Bool) (clock : ℕ → ℕ) (n : ℕ) (id : Str) (s : Store)
    → get id s ≢ none
    → (get id (serve arrives clock n (delete_script id ∷ []) s) ≡ none)
      ↔ (arrives (delete_script id) ≡ true)
unfolding remove get
serve_deleting arrives clock n id s h = elim (Bool-cases (arrives (delete_script id))) [
  | inl e ↦
      rw e ((λ _. refl), (λ _. ground (arith, Maps.lookup-delete id id s.tests, eq_str_refl id)))
  | inr e ↦ rw e ((λ k. absurd (h k)), (λ k. absurd (cc)))
]

get-put :
    (id : Str) (sc : Script) (now : ℕ) (s : Store) → IsValid s → get id (put id sc now s) ≢ none
unfolding get
get-put id sc now s v missing =
    let held : view (put id sc now s) id ≡ some (fresh sc now) =
      view-put id id sc now s v ∙ rw (eq_str_refl id) refl in
    ground arith

verdict_from-error : (o : Outcome) (fails : List Failure) → o ≢ error → verdict_from o fails ≢ error
unfolding verdict_from
verdict_from-error o [] n = n
verdict_from-error o (f ∷ fails) n = ground (arith, verdict_from-error fail fails (λ e. cc))

module _ (patterns : Patterns) (render : Message → Str) where
  judge-error :
      (res : TestResult) (t : Test) (x : Exchange) (log : Log)
      → (judge patterns render res t
          (send_steps (x.send (new_id x.bytes)) x.sleeps t.steps).observations
          log).outcome
        ≢ error
  unfolding judge verdict
  judge-error res t x log = verdict_from-error pass _ (λ e. cc)

  uploaded_calls :
      (x : Exchange) (res : TestResult) (t : Test)
      → ((exercise_uploaded patterns render x res t).1 ≡ [])
        ⊎ ((exercise_uploaded patterns render x res t).1 ≡ get_log (new_id x.bytes) ∷ [])
  unfolding exercise_uploaded
  uploaded_calls x res t = elim (Bool-cases x.canceled) [
    | inl c ↦ inl (rw (c, exercise_uploaded) refl)
    | inr c ↦ elim (Result-cases (x.fetch (new_id x.bytes))) [
      | inr (e, f) ↦ inr (rw (c, exercise_uploaded, f) refl)
      | inl (log, f) ↦ inr (rw (c, exercise_uploaded, f) refl)
    ]
  ]

  -- Once the upload of its script was answered, and so arrived at a valid store, a test leaves nothing
  -- at the origin under the ID of its run exactly if the deletion that it ends with arrives, whatever
  -- its steps and the fetch of its log come to. Its calls are served alone, in their order and at any
  -- times, and the error of a deletion that is lost is not looked at.
  pub exercise-serve :
      (x : Exchange) (res : TestResult) (t : Test) (arrives : Call → Bool) (clock : ℕ → ℕ)
      (s : Store)
      → IsValid s
      → x.put (new_id x.bytes) (script t) ≡ none
      → arrives (put_script (new_id x.bytes) (script t)) ≡ true
      → (get (new_id x.bytes) (serve arrives clock 0 (exercise patterns render x res t).1 s) ≡ none)
        ↔ (arrives (delete_script (new_id x.bytes)) ≡ true)
  unfolding exercise
  exercise-serve x res t arrives clock s v uploaded arrived =
      let id = new_id x.bytes in
      let held = get-put id (script t) (clock 0) s v in
      elim (uploaded_calls x res t) [
        | inl e ↦
            rw (exercise, uploaded, e, arrived)
              (serve_deleting arrives clock 1 id (put id (script t) (clock 0) s) held)
        | inr e ↦
            rw (exercise, uploaded, e, arrived)
              (elim (Bool-cases (arrives (get_log id))) [
                | inl a ↦
                    rw a (serve_deleting arrives clock 2 id (put id (script t) (clock 0) s) held)
                | inr a ↦
                    rw a (serve_deleting arrives clock 2 id (put id (script t) (clock 0) s) held)
              ])
      ]

  -- A result of a test is an error exactly if the script could not be uploaded, the run was cancelled
  -- during the steps, or the origin's log could not be fetched; no verdict on the observations is one.
  pub exercise-error_iff :
      (x : Exchange) (res : TestResult) (t : Test)
      → ((exercise patterns render x res t).0.outcome ≡ error) ↔ (
          (x.put (new_id x.bytes) (script t) ≢ none)
          ⊎ (x.canceled ≡ true)
          ⊎ ((e : Str) × (x.fetch (new_id x.bytes) ≡ err e)))
  unfolding exercise exercise_uploaded
  exercise-error_iff x res t = elim (Option-cases (x.put (new_id x.bytes) (script t))) [
    | inr (e, p) ↦ (λ _. inl (λ n. cc), λ _. ground arith)
    | inl n ↦ elim (Bool-cases x.canceled) [
      | inl c ↦ (λ _. inr (inl c), λ _. ground arith)
      | inr c ↦ elim (Result-cases (x.fetch (new_id x.bytes))) [
        | inr (e, f) ↦ (λ _. inr (inr (e, f)), λ _. ground arith)
        | inl (log, f) ↦ (
          λ h. absurd (ground (arith, judge-error res t x log)),
          λ h. elim h [
            | inl p ↦ absurd (p n)
            | inr (inl p) ↦ absurd (cc)
            | inr (inr (e, p)) ↦ absurd (cc)
          ],
        )
      ]
    ]
  ]
