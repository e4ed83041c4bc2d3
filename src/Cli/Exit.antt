-- ===== src/Cli/Exit.antt =====
-- pkg/cli/cli.go: theorems about the exit code.
use mecone.Prelude.{◌≡◌, refl, ◌↔◌, ◌⊎◌, Bool, true, false, List, [], ◌∷◌, Str, arith}
use mecone.Cli.{
  exit_ok, exit_usage, Returned, done, asked_help, usage_error, is_help, lookup, status, exit_of,
  run,
}

module _ (work : Str → List Str → Returned) (written : Bool) where
  -- A success: usage that was asked for and written, or a command that ran to its end or printed its
  -- own help.
  abbrev pub Succeeds : List Str → Type 0
  Succeeds [] = ⊥
  Succeeds (name ∷ args) =
      ((is_help name ≡ true) × (written ≡ true))
      ⊎ ((is_help name ≡ false)
          × (lookup name ≡ true)
          × ((work name args ≡ done) ⊎ (work name args ≡ asked_help)))

  -- A mistake in the command line: no command, an unknown one, or arguments that it refuses.
  abbrev pub Misused : List Str → Type 0
  Misused [] = Unit
  Misused (name ∷ args) =
      (is_help name ≡ false)
      × ((lookup name ≡ false) ⊎ ((lookup name ≡ true) × (work name args ≡ usage_error)))

  -- The exit code is 0 exactly for a success, and 2 exactly for a mistake in the command line, even if
  -- the usage cannot be written.
  pub run_iff :
      (args : List Str)
      → ((run work written args ≡ exit_ok) ↔ Succeeds args)
        × ((run work written args ≡ exit_usage) ↔ Misused args)
  unfolding run status exit_of
  run_iff [] = ((λ h. absurd (cc), λ h. absurd h), (λ _. tt, λ _. refl))
  run_iff (name ∷ args) = ground arith
