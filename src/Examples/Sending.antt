-- ===== src/Examples/Sending.antt =====
-- The steps of a test as the client sends them, of pkg/client.
use mecone.Prelude.{ℕ, ◌≡◌, refl, true, some, List, [], ◌∷◌, pos, arith, get_elem?}
use mecone.TestDef.{Step, is_wait}
use mecone.Check.{Observation}
use mecone.Client.{zero_observation, send_steps}
use mecone.Client.Groups.{requested}
use mecone.Client.Steps.{observed, send_steps-requested}
use mecone.Examples.Requests.{get_page}

-- An answer whose status is the number of its step.
abbrev numbered_answer : ℕ → Step → Observation
numbered_answer n s = record zero_observation { status = pos n }

abbrev together : Step
together = record get_page { parallel = true }

abbrev four_steps : List Step
four_steps = get_page ∷ together ∷ together ∷ record get_page { wait = some (pos 5) } ∷ []

send_steps-requested_example :
    ((send_steps numbered_answer (λ _. true) four_steps).requests ≡ requested 1 four_steps)
    × (get_elem? (send_steps numbered_answer (λ _. true) four_steps).observations 2
        ≡ observed numbered_answer (λ _. true) four_steps 2)
send_steps-requested_example =
    send_steps-requested numbered_answer (λ _. true) four_steps 2 (λ n. refl) (omega arith)

-- The wait sends nothing.
requested-four_steps : requested 1 four_steps ≡ 1 ∷ 2 ∷ 3 ∷ []
unfolding is_wait
requested-four_steps = refl
