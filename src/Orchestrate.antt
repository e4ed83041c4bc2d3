-- ===== src/Orchestrate.antt =====
-- pkg/orchestrate/orchestrate.go: the test of one target of a catalog, from its own origin to the stop
-- of what was started. What each step comes to is a `Course`; the events are what is started and
-- stopped, the run of the client, and the messages. The targets run side by side under a semaphore, each on its own state.
pub mod Cleanup
use mecone.Prelude.{
  ◌+◌, Bool, not, ◌||◌, Option, none, some, List, [], ◌∷◌, ◌++◌, Str, str, eq_str, ℤ, pos, leb_ℤ,
  Result, ok, err, if◌then◌else◌,
}
use mecone.Strconv.{itoa_int}
use mecone.Config
use mecone.Config.{
  Config, Target, or_str, managed, joins_network, port, listen_host, loopback_host, all_interfaces,
}
use mecone.Target.{Vars, origin_host}
use mecone.Results.{TestResult, Run}

-- func originPort
unfoldable pub origin_port : Target → Str
origin_port t = elim t.proxy [
  | none ↦ str "0"
  | some p ↦ if leb_ℤ p.origin_port (pos 0) then str "0" else itoa_int p.origin_port
]

-- func (o Options) controlHost, of what ListenHost returns
unfoldable pub control_host : Str → Str
control_host h = if eq_str h all_interfaces then loopback_host else h

-- what one run of the client gives to the run of the target
pub record Got : Type 0 where
  pub target : Str
  pub protocols : List Str
  pub results : List TestResult

-- What the steps of one test come to: the address of the origin that listens, its port, the port that a
-- managed target gets, the base URL of the target started with some variables, the wait for it, the
-- output it left, the pause after it, the run of the client through a target's URL, with the URL of the
-- control plane and whether certificates are not verified, and the stop of the target. An error is its
-- text.
pub record Course : Type 0 where
  pub listen : Str → Result Str Str
  pub port_of : Str → Result Str ℤ
  pub free_port : Result Str ℤ
  pub start : Vars → Result Str Str
  pub ready : (url : Str) → Vars → Option Str
  pub logs : Str
  pub settled : Option Str
  pub client : (url : Str) → (control : Str) → (insecure : Bool) → Result Str Got
  pub stop : (url : Str) → Option Str

-- What happens in a test, in its order. `target_down` is the call of Stop, which may fail.
pub data Event : Type 0 where
  origin_up : (addr : Str) → Event
  origin_down : Event
  target_up : (url : Str) → Event
  target_down : (url : Str) → Event
  exercised : (url : Str) → (control : Str) → Event
  reported : (message : Str) → Event

abbrev pub new_run : Target → Run
new_run t = record { name = t.name; target = []; protocols = []; error = []; results = [] }

-- the run of a target after `test`
unfoldable pub finished : Target → Result Str Got → Run
finished t (err e) = record (new_run t) { error = e }
finished t (ok g) = record (new_run t) {
  target = g.target;
  protocols = g.protocols;
  results = g.results;
}

-- `linux` and `hostname` are what the host names of a target depend on, `join_host_port` is
-- net.JoinHostPort, and `insecure` is an option of the run.
module _ (linux : Bool) (hostname : Str) (join_host_port : Str → Str → Str) (insecure : Bool) where
  -- the variables before the port of the target is known
  abbrev pub base_vars : Config → Target → ℤ → Vars
  base_vars c t origin = record {
    name = t.name;
    listen_host = loopback_host;
    listen_port = pos 0;
    origin_host = or_str c.origin.advertise (origin_host linux hostname t);
    origin_port = origin;
    work_dir = [];
    config_file = [];
  }

  abbrev joins : Target → Option ℤ
  joins t = elim t.docker [
    | none ↦ none
    | some d ↦ if joins_network d then some (Config.port d) else none
  ]

  -- func (o Options) vars
  unfoldable pub vars : Config → Target → Course → Str → Result Str Vars
  vars c t x addr = elim (x.port_of addr) [
    | err e ↦ err e
    | ok origin ↦
        (if not (managed t) then ok (base_vars c t origin) else elim (joins t) [
          | some p ↦ ok (record (base_vars c t origin) { listen_port = p })
          | none ↦ elim x.free_port [
            | err e ↦ err (str "allocating a port for " ++ (t.name ++ (str ": " ++ e)))
            | ok p ↦ ok (record (base_vars c t origin) { listen_port = p })
          ]
        ])
  ]

  -- func (Options) await
  unfoldable pub await_target : Target → Course → Str → Vars → Option Str
  await_target t x url v = elim (x.ready url v) [
    | some e ↦
        (if not (eq_str x.logs [])
          then some (e ++ (str "; last output from the target:\n" ++ x.logs))
          else some e)
    | none ↦ if leb_ℤ t.settle (pos 0) then none else x.settled
  ]

  abbrev pub control_url : Str → ℤ → Str
  control_url host port = str "http://" ++ join_host_port (control_host host) (itoa_int port)

  abbrev pub trusts_any : Target → Bool
  trusts_any t = elim t.proxy [ none ↦ insecure | some p ↦ insecure || p.insecure ]

  -- func (o Options) exercise, where ListenHost returned `host`
  unfoldable pub exercise_target : Target → Course → Str → Str → Str → Result Str Got × List Event
  exercise_target t x host addr url = elim (x.port_of addr) [
    | err e ↦ (err e, [])
    | ok port ↦ (
      x.client url (control_url host port) (trusts_any t),
      exercised url (control_url host port) ∷ [],
    )
  ]

  -- func (o Options) stop
  unfoldable pub stop_target : Target → Course → Str → List Event
  stop_target t x url = elim (x.stop url) [
    | none ↦ target_down url ∷ []
    | some e ↦ target_down url ∷ reported (t.name ++ (str ": stopping: " ++ e)) ∷ []
  ]

  -- the end of `test`, once the target is started
  unfoldable pub test_started :
      Target → Course → Str → Str → Vars → Str → Result Str Got × List Event
  test_started t x host addr v url = elim (await_target t x url v) [
    | some e ↦ (err e, [])
    | none ↦ exercise_target t x host addr url
  ]

  -- `test` once the origin listens; the deferred stop of the target runs at its end
  unfoldable pub test_listening : Config → Target → Course → Str → Str → Result Str Got × List Event
  test_listening c t x host addr = elim (vars c t x addr) [
    | err e ↦ (err e, [])
    | ok v ↦ elim (x.start v) [
      | err e ↦ (err e, [])
      | ok url ↦
          (let (got, events) = test_started t x host addr v url in
            (got, target_up url ∷ (events ++ stop_target t x url)))
    ]
  ]

  -- func (o Options) test; the deferred stop of the origin runs last
  unfoldable pub test : Config → Target → Course → Str → Result Str Got × List Event
  test c t x host = elim (x.listen (join_host_port host (origin_port t))) [
    | err e ↦ (err (str "origin: " ++ e), [])
    | ok addr ↦
        (let (got, events) = test_listening c t x host addr in
          (got, origin_up addr ∷ (events ++ origin_down ∷ [])))
  ]

  -- o.report(t.Name + ": " + err.Error()), where `test` ended with an error
  abbrev pub failure_report : Target → Result Str Got → List Event
  failure_report t (err e) = reported (t.name ++ (str ": " ++ e)) ∷ []
  failure_report t (ok g) = []

  -- func (o Options) one, for a target that gets its slot, or is cancelled before; none where
  -- ListenHost panics, at an empty entry of the catalog
  unfoldable pub one : Config → Bool → Target → Course → Option (Run × List Event)
  one c canceled t x =
      if canceled
      then some (record (new_run t) { error = str "canceled before start" }, [])
      else elim (listen_host c) [
        | none ↦ none
        | some host ↦
            (let (got, events) = test c t x host in
              some (
                finished t got,
                reported (t.name ++ str ": starting tests")
                    ∷ (events
                        ++ (failure_report t got
                            ++ reported (t.name ++ str ": done testing") ∷ [])),
              ))
      ]

  abbrev with_run : Option (Run × List Event) → Option (List Run) → Option (List Run)
  with_run none runs = none
  with_run (some (run, events)) none = none
  with_run (some (run, events)) (some runs) = some (run ∷ runs)

  -- func Run: the runs of the targets, in the order of the catalog
  unfoldable pub run_all : Config → List (Target × Bool × Course) → Option (List Run)
  run_all c [] = some []
  run_all c ((t, canceled, x) ∷ targets) = with_run (one c canceled t x) (run_all c targets)
