-- ===== src/Client/Exercise.antt =====
-- pkg/client/runner.go: `exercise`, one test from the upload of its script to its verdict, with
-- Failure.String of pkg/check/check.go and Result.With of pkg/results/results.go. What the network
-- does during one exercise is an `Exchange`.
pub mod Calls
use mecone.Prelude.{
  ℕ, ◌+◌, Bool, Option, none, some, List, [], ◌∷◌, ◌++◌, map, Str, str, Result, ok, err,
  if◌then◌else◌,
}
use mecone.Strconv.{itoa}
use mecone.Protocol.{Script, Log}
use mecone.Protocol.Ids.{new_id}
use mecone.TestDef.{Step, Test}
use mecone.TestDef.Script.{script}
use mecone.Results.{Outcome, error, TestResult}
use mecone.Check.{Patterns, Observation, Message, Failure, evaluate, verdict}
use mecone.Client.{send_steps, step_records}

-- The random bytes, the answers of the control plane, what `send` observes of each request, which waits
-- last to their end, and whether the run is cancelled by the end of the steps. An answer that is an
-- error is its text.
pub record Exchange : Type 0 where
  pub bytes : List ℕ
  pub put : Str → Script → Option Str
  pub send : Str → ℕ → Step → Observation
  pub sleeps : ℕ → Bool
  pub canceled : Bool
  pub fetch : Str → Result Str Log

-- A call of the control plane.
pub data Call : Type 0 where
  put_script : (id : Str) → Script → Call
  get_log : (id : Str) → Call
  delete_script : (id : Str) → Call

-- func (r Result) With
abbrev pub with_outcome : TestResult → Outcome → List Str → TestResult
with_outcome res o messages = record res { outcome = o; messages = messages }

-- `patterns` is package `regexp`, and `render` is package `fmt`, which makes a message of its parts.
module _ (patterns : Patterns) (render : Message → Str) where
  -- func (f Failure) String
  unfoldable pub failure_string : Failure → Str
  failure_string f = str "step " ++ (itoa f.step ++ (str ": " ++ render f.message))

  -- the end of `exercise`, from the log on
  unfoldable pub judge : TestResult → Test → List Observation → Log → TestResult
  judge res t obs log =
      let fails = evaluate patterns t obs log in
      with_outcome
        (record res {
          origin_proto = elim log [ [] ↦ res.origin_proto | e ∷ _ ↦ e.proto ];
          steps = step_records t.steps obs log;
        })
        (verdict fails) (map failure_string fails)

  -- `exercise` once the script is uploaded, with the call that fetches the log
  unfoldable pub exercise_uploaded : Exchange → TestResult → Test → TestResult × List Call
  exercise_uploaded x res t =
      let id = new_id x.bytes in
      if x.canceled then (with_outcome res error (str "canceled" ∷ []), []) else elim (x.fetch id) [
        | err e ↦
            (with_outcome res error ((str "fetching origin log: " ++ e) ∷ []), get_log id ∷ [])
        | ok log ↦ (
          judge res t (send_steps (x.send id) x.sleeps t.steps).observations log,
          get_log id ∷ [],
        )
      ]

  -- func (r *Runner) exercise: the result, and the calls of the control plane in their order. The error
  -- of the last one is discarded.
  unfoldable pub exercise : Exchange → TestResult → Test → TestResult × List Call
  exercise x res t =
      let id = new_id x.bytes in
      elim (x.put id (script t)) [
        | some e ↦ (
          with_outcome res error ((str "uploading script: " ++ e) ∷ []),
          put_script id (script t) ∷ [],
        )
        | none ↦
            let (res', calls) = exercise_uploaded x res t in
            (res', put_script id (script t) ∷ (calls ++ delete_script id ∷ []))
      ]
