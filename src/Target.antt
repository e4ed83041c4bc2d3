-- ===== src/Target.antt =====
-- pkg/target: the variables of a target and what they expand to, where its files land, and the wait
-- until it is ready. Starting containers and processes is not modelled. `expand` of package `os`,
-- `join_host_port` of `net`, and `is_abs`, `join` and `base` of `filepath` are parameters.
pub mod Waiting
use mecone.Prelude.{
  ℕ, zero, suc, ◌+◌, ◌-◌, ◌/◌, ◌≡◌, Bool, true, false, ◌&&◌, ◌||◌, not, Option, none, some, List,
  [], ◌∷◌, ◌++◌, Str, str, eq_str, ℤ, if◌then◌else◌,
}
use mecone.Maps
use mecone.Maps.{Map, str_key}
use mecone.Strconv.{itoa, itoa_int}
use mecone.Config.{File, Target, Docker, loopback_host}

-- type Vars struct
pub record Vars : Type 0 where
  pub name : Str
  pub listen_host : Str
  pub listen_port : ℤ
  pub origin_host : Str
  pub origin_port : ℤ
  pub work_dir : Str
  pub config_file : Str

module _ (join_host_port : Str → Str → Str) where
  -- func (v Vars) OriginAddr
  unfoldable pub origin_addr : Vars → Str
  origin_addr v = join_host_port v.origin_host (itoa_int v.origin_port)

  -- func (v Vars) OriginURL
  unfoldable pub origin_url : Vars → Str
  origin_url v = str "http://" ++ origin_addr v

  -- func (v Vars) ListenAddr
  unfoldable pub listen_addr : Vars → Str
  listen_addr v = join_host_port v.listen_host (itoa_int v.listen_port)

  -- func (v Vars) originVar
  unfoldable pub origin_var : Vars → Str → Option Str
  origin_var v key =
      if eq_str key (str "ORIGIN_HOST")
      then some v.origin_host
      else if eq_str key (str "ORIGIN_PORT")
      then some (itoa_int v.origin_port)
      else if eq_str key (str "ORIGIN_URL")
      then some (origin_url v)
      else none

  -- func (v Vars) listenVar
  unfoldable pub listen_var : Vars → Str → Option Str
  listen_var v key =
      if eq_str key (str "LISTEN_HOST")
      then some v.listen_host
      else if eq_str key (str "LISTEN_PORT")
      then some (itoa_int v.listen_port)
      else if eq_str key (str "LISTEN_ADDR")
      then some (listen_addr v)
      else none

  -- func (v Vars) lookup
  unfoldable pub lookup_var : Vars → Str → Option Str
  lookup_var v key =
      if eq_str key (str "NAME")
      then some v.name
      else if eq_str key (str "WORKDIR")
      then some v.work_dir
      else if eq_str key (str "CONFIG_FILE")
      then some v.config_file
      else elim (listen_var v key) [ some val ↦ some val | none ↦ origin_var v key ]

  -- the mapping of `expandWith`
  unfoldable pub mapped : Map Str Str → Vars → Str → Str
  mapped extra v key = elim (Maps.lookup key extra) [
    | some val ↦ val
    | none ↦ elim (lookup_var v key) [ some val ↦ val | none ↦ str "${" ++ (key ++ str "}") ]
  ]

  module _ (os_expand : Str → (Str → Str) → Str) where
    -- func (v Vars) expandWith
    unfoldable pub expand_with : Vars → Str → Map Str Str → Str
    expand_with v s extra = os_expand s (mapped extra v)

    -- func (v Vars) Expand
    unfoldable pub expand : Vars → Str → Str
    expand v s = expand_with v s []

    -- func (v Vars) ExpandAll
    unfoldable pub expand_all : Vars → List Str → List Str
    expand_all v [] = []
    expand_all v (s ∷ ss) = expand v s ∷ expand_all v ss

    module _ (is_abs : Str → Bool) (join : Str → Str → Str) where
      -- func targetPaths
      unfoldable pub target_paths : List File → Vars → List Str
      target_paths [] v = []
      target_paths (f ∷ files) v =
          let path = expand v f.target in
          (if not (is_abs path) then join v.work_dir path else path) ∷ target_paths files v

-- `linux` is runtime.GOOS == "linux", and `hostname` what os.Hostname gives.
module _ (linux : Bool) (hostname : Str) where
  -- func NetworkMode
  unfoldable pub network_mode : Docker → Str
  network_mode d =
      if not (eq_str d.network []) then d.network else if linux then str "host" else str "bridge"

  -- func OriginHost
  unfoldable pub origin_host : Target → Str
  origin_host t = elim t.docker [
    | none ↦ loopback_host
    | some d ↦
        let mode = network_mode d in
        (if eq_str mode (str "host") && linux
          then loopback_host
          else if eq_str mode (str "host") || eq_str mode (str "bridge")
          then str "host.docker.internal"
          else hostname)
  ]

-- type placement
pub data Placement : Type 0 where
  in_place staged : Placement

-- func hostPath
unfoldable pub host_path : (Str → Str → Str) → (Str → Str) → Str → Str → ℕ → Placement → Str
host_path join base target work_dir i in_place = target
host_path join base target work_dir i staged = join work_dir (itoa i ++ (str "-" ++ base target))

-- How the wait for a target ends; `out_of_fuel` marks a model's end.
pub data Readied : Type 0 where
  ready out_of_fuel : Readied
  not_ready : (attempts : ℕ) → (reason : Str) → Readied
  wait_canceled : (reason : Str) → Readied

-- Of each attempt, `probe` gives its error or none, `expired` says whether the deadline has passed
-- after it, and `sleeps` whether the pause after it lasts to its end.
module _ (probe : ℕ → Option Str) (expired sleeps : ℕ → Bool) where
  -- the loop of `WaitReady`, from an attempt on
  unfoldable pub wait_from : ℕ → ℕ → Readied
  wait_from zero attempt = out_of_fuel
  wait_from (suc fuel) attempt =
      let rest = wait_from fuel (attempt + 1) in
      elim (probe attempt) [
        | none ↦ ready
        | some reason ↦
            (if expired attempt
              then not_ready attempt reason
              else if not (sleeps attempt)
              then wait_canceled reason
              else rest)
      ]

  -- func WaitReady, of at most so many attempts
  unfoldable pub wait_ready : ℕ → Readied
  wait_ready fuel = wait_from fuel 1

  -- The attempts before this one failed, and the wait went on.
  abbrev pub Failed : ℕ → Type 0
  Failed n = (reason : Str) × (probe n ≡ some reason) × (expired n ≡ false) × (sleeps n ≡ true)
