-- ===== src/Examples/Catalogs.antt =====
-- A catalog of two targets, of pkg/config, the wait for one and the test of one, of pkg/target and
-- pkg/orchestrate.
use mecone.Prelude.{
  ℕ, ◌≡◌, ◌≢◌, refl, ◌↔◌, Bool, true, false, Option, none, some, [], ◌∷◌, ◌++◌, Str, str, pos, ok,
  arith, leb, ◌==◌, if◌then◌else◌,
}
use mecone.Config.{Target, Config}
use mecone.Target.{ready, out_of_fuel, wait_ready}
use mecone.Target.Waiting.{Answers, wait_ready-ready}
use mecone.Orchestrate.{Course}
use mecone.Config.Validate.{Url, validate}
use mecone.Config.Validate.Accepted.{ValidConfig, validate-ValidConfig_iff}

abbrev local_url : Str → Option Url
local_url s = some (record { scheme = str "http"; host = str "localhost" })

abbrev pub rooted : Str → Bool
rooted [] = false
rooted (c ∷ s) = c == b'/'

abbrev running : Target
running = record {
  name = str "running";
  proxy = some (record { url = str "http://localhost"; insecure = false; origin_port = pos 9000 });
  docker = none;
  process = none;
  readiness = none;
  settle = pos 0;
  base_dir = [];
}

abbrev contained : Target
contained = record running {
  name = str "contained";
  proxy = none;
  docker = some (record {
    image = str "proxy";
    tag = [];
    network = str "mesh";
    container_port = pos 0;
    command = [];
    args = [];
    env = [];
    volumes = [];
    pull = [];
    files = [];
  });
}

abbrev pub catalog : Config
catalog = record {
  run = record {
    protocols = str "h1" ∷ [];
    suites = str "caching" ∷ str "storage" ∷ [];
    tests = str "storage-*" ∷ [];
    levels = [];
    suites_dir = [];
    concurrency = pos 0;
    targets = pos 0;
    timeout = pos 0;
    insecure = false;
  };
  origin = record { listen = []; advertise = [] };
  targets = some running ∷ some contained ∷ [];
  notice = [];
  dir = [];
}

validate-ValidConfig_iff_example :
    (validate local_url rooted catalog ≡ []) ↔ ValidConfig local_url rooted catalog
validate-ValidConfig_iff_example = validate-ValidConfig_iff local_url rooted catalog

-- A target whose second probe is answered.
abbrev second_probe : ℕ → Option Str
second_probe n = if n == 2 then none else some (str "refused")

abbrev after_nine : ℕ → Bool
after_nine n = leb 9 n

wait_ready-ready_example :
    (wait_ready second_probe after_nine (λ n. true) 9 ≢ out_of_fuel)
    × ((wait_ready second_probe after_nine (λ n. true) 9 ≡ ready)
        ↔ ((k : ℕ) × Answers second_probe after_nine (λ n. true) 1 k))
wait_ready-ready_example = wait_ready-ready second_probe after_nine (λ n. true) 9 (omega arith) refl

-- A test whose client reports no results, and whose target cannot be stopped.
abbrev stuck : Course
stuck = record {
  listen = λ addr. ok (str "127.0.0.1:9000");
  port_of = λ addr. ok (pos 9000);
  free_port = ok (pos 9001);
  start = λ v. ok (str "http://127.0.0.1:9001");
  ready = λ url v. none;
  logs = [];
  settled = none;
  client = λ url control any. ok (record { target = url; protocols = []; results = [] });
  stop = λ url. some (str "no such container");
}

abbrev host_port : Str → Str → Str
host_port host p = host ++ (str ":" ++ p)
