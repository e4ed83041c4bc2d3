-- ===== src/Orchestrate/Cleanup.antt =====
-- pkg/orchestrate/orchestrate.go: what a test of a target starts and stops, and where its results are
-- from.
use mecone.Prelude.{◌≡◌, Bool, Option, none, some, List, [], ◌∷◌, Str, eq_str, ok, ℤ, if◌then◌else◌}
use mecone.Config.{Config, Target}
use mecone.Target.{Vars}
use mecone.Orchestrate.{
  Course, Event, origin_up, origin_down, target_up, target_down, exercised, reported, Got, vars,
  await_target, control_url, trusts_any, origin_port,
}

-- What is up after the events, the last one started first. There is none where something is taken down
-- that is not the last one that is up, or the client is run through a URL that is not the one of the
-- target that is up.
abbrev pub leaves : List Event → List Event → Option (List Event)
leaves up [] = some up
leaves up (reported m ∷ events) = leaves up events
leaves up (origin_up addr ∷ events) = leaves (origin_up addr ∷ up) events
leaves up (target_up url ∷ events) = leaves (target_up url ∷ up) events
leaves (origin_up addr ∷ up) (origin_down ∷ events) = leaves up events
leaves (target_up url ∷ up) (target_down u ∷ events) =
    let rest = leaves up events in if eq_str url u then rest else none
leaves (target_up url ∷ up) (exercised u control ∷ events) =
    let rest = leaves (target_up url ∷ up) events in if eq_str url u then rest else none
leaves _ _ = none

module _ (linux : Bool) (hostname : Str) (join_host_port : Str → Str → Str) (insecure : Bool) where
  -- The client gave these results through the URL of the target that was started, for the origin that
  -- listens, after the wait for it.
  pub record Through (c : Config) (t : Target) (x : Course) (host : Str) (g : Got) : Type 0 where
    pub addr : Str
    pub variables : Vars
    pub url : Str
    pub port : ℤ
    pub listens : x.listen (join_host_port host (origin_port t)) ≡ ok addr
    pub prepared : vars linux hostname join_host_port insecure c t x addr ≡ ok variables
    pub starts : x.start variables ≡ ok url
    pub awaited : await_target linux hostname join_host_port insecure t x url variables ≡ none
    pub control : x.port_of addr ≡ ok port
    pub client :
        x.client url
          (control_url linux hostname join_host_port insecure host port)
          (trusts_any linux hostname join_host_port insecure t)
        ≡ ok g
