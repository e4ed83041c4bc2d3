-- ===== src/Config.antt =====
-- pkg/config: the configuration file of a catalog of targets, with the defaults that its accessors
-- apply. A pointer that a file may leave out is an Option, and so is an entry of the list of targets.
-- Reading and decoding the file is the libraries'. Durations are in nanoseconds.
pub mod Validate
use mecone.Prelude.{
  ℕ, ◌+◌, Bool, true, false, ◌&&◌, ◌||◌, not, Option, none, some, List, [], ◌∷◌, ◌++◌, Str, str,
  eq_str, ℤ, pos, leb_ℤ, if◌then◌else◌,
}
use mecone.Protocol.{info_path}

-- type File struct
pub record File : Type 0 where
  pub source : Str
  pub content : Str
  pub target : Str

-- type Proxy struct
pub record Proxy : Type 0 where
  pub url : Str
  pub insecure : Bool
  pub origin_port : ℤ

-- type Docker struct
pub record Docker : Type 0 where
  pub image : Str
  pub tag : Str
  pub network : Str
  pub container_port : ℤ
  pub command : List Str
  pub args : List Str
  pub env : List Str
  pub volumes : List Str
  pub pull : Str
  pub files : List File

-- type Process struct
pub record Process : Type 0 where
  pub start : Str
  pub stop : Str
  pub background : Bool
  pub work_dir : Str
  pub env : List Str
  pub files : List File

-- type Readiness struct
pub record Readiness : Type 0 where
  pub path : Str
  pub status : List ℤ
  pub timeout : ℤ
  pub interval : ℤ

-- type Target struct
pub record Target : Type 0 where
  pub name : Str
  pub proxy : Option Proxy
  pub docker : Option Docker
  pub process : Option Process
  pub readiness : Option Readiness
  pub settle : ℤ
  pub base_dir : Str

-- type Run struct
pub record RunSettings : Type 0 where
  pub protocols : List Str
  pub suites : List Str
  pub tests : List Str
  pub levels : List Str
  pub suites_dir : Str
  pub concurrency : ℤ
  pub targets : ℤ
  pub timeout : ℤ
  pub insecure : Bool

-- type Origin struct
pub record OriginSettings : Type 0 where
  pub listen : Str
  pub advertise : Str

-- type Config struct
pub record Config : Type 0 where
  pub run : RunSettings
  pub origin : OriginSettings
  pub targets : List (Option Target)
  pub notice : Str
  pub dir : Str

abbrev pub or_str : Str → Str → Str
or_str s default = if eq_str s [] then default else s

abbrev pub or_positive : ℤ → ℕ → ℤ
or_positive v default = if leb_ℤ v (pos 0) then pos default else v

-- func (d *Docker) Ref
unfoldable pub ref : Docker → Str
ref d = if eq_str d.tag [] then d.image else d.image ++ (str ":" ++ d.tag)

-- func (d *Docker) JoinsNetwork
unfoldable pub joins_network : Docker → Bool
joins_network d = not (eq_str d.network []) && not (eq_str d.network (str "host"))

-- func (d *Docker) Port
unfoldable pub port : Docker → ℤ
port d = or_positive d.container_port 8080

-- func (d *Docker) PullPolicy
unfoldable pub pull_policy : Docker → Str
pull_policy d = or_str d.pull (str "missing")

-- type Kind
pub data Kind : Type 0 where
  kind_proxy kind_docker kind_process : Kind

-- func (t *Target) Kind
unfoldable pub kind : Target → Kind
kind t = elim t.docker [
  | some _ ↦ kind_docker
  | none ↦ elim t.process [ some _ ↦ kind_process | none ↦ kind_proxy ]
]

-- func (t *Target) Managed
unfoldable pub managed : Target → Bool
managed t = elim (kind t) [ kind_proxy ↦ false | kind_docker ↦ true | kind_process ↦ true ]

-- func (t *Target) Probe
unfoldable pub probe : Target → Readiness
probe t = elim t.readiness [
  | none ↦ record {
    path = info_path;
    status = pos 200 ∷ [];
    timeout = pos 30_000_000_000;
    interval = pos 250_000_000;
  }
  | some r ↦ record {
    path = or_str r.path info_path;
    status = elim r.status [ [] ↦ pos 200 ∷ [] | s ∷ ss ↦ s ∷ ss ];
    timeout = or_positive r.timeout 30_000_000_000;
    interval = or_positive r.interval 250_000_000;
  }
]

-- func (c *Config) TargetConcurrency
unfoldable pub target_concurrency : Config → ℤ
target_concurrency c = or_positive c.run.targets 10

abbrev pub loopback_host : Str
loopback_host = str "127.0.0.1"

abbrev pub all_interfaces : Str
all_interfaces = str "0.0.0.0"

-- the loop of `ListenHost`; none where an empty entry would be dereferenced
unfoldable pub host_for : List (Option Target) → Option Str
host_for [] = some loopback_host
host_for (none ∷ targets) = none
host_for (some t ∷ targets) =
    let rest = host_for targets in
    elim t.docker [ none ↦ rest | some d ↦ if joins_network d then some all_interfaces else rest ]

-- func (c *Config) ListenHost
unfoldable pub listen_host : Config → Option Str
listen_host c = if not (eq_str c.origin.listen []) then some c.origin.listen else host_for c.targets

-- func (c *Config) Path; `is_abs` and `join` are filepath.IsAbs and filepath.Join
unfoldable pub resolve : (Str → Bool) → (Str → Str → Str) → Config → Str → Str
resolve is_abs join c p = if eq_str p [] || is_abs p then p else join c.dir p
