-- ===== src/Config/Validate/Kinds.antt =====
-- pkg/config/validate.go: what valid settings of the client, probes, files and kinds of targets
-- are.
use mecone.Prelude.{
  ℕ, ◌+◌, ◌≡◌, ◌≢◌, refl, ◌↔◌, ◌⊎◌, inl, inr, Bool, true, false, ◌&&◌, ◌||◌, not, Option, none,
  some, List, [], ◌∷◌, Str, str, eq_str, eq_str_iff, ℤ, pos, ◌≤ℤ◌, ok, err, Result-cases,
  Bool-cases, Option-cases, arith, ◌==◌, if◌then◌else◌, length, All, Any, demand, demand_for, both,
  each_iff,
}
use mecone.Proto
use mecone.Proto.{contains}
use mecone.Strings.{contains_substring}
use mecone.TestDef.{levels}
use mecone.Config.{File, Proxy, Docker, Process, Readiness, Target, RunSettings, pull_policy}
use mecone.Config.Validate.{
  Problem, bad_protocol, relative_url, bad_origin_port, bad_file, one_text, Url, is_port,
  is_negative, is_empty, validate_run, validate_readiness, defined, validate_proxy,
  validate_file_target, validate_files, validate_docker, validate_process, validate_kind,
}

pub contains_iff : (xs : List Str) (x : Str) → (contains xs x ≡ true) ↔ Any (λ y. y ≡ x) xs
unfolding contains
contains_iff [] x = (λ h. absurd (cc), λ h. absurd h)
contains_iff (y ∷ xs) x = ground (arith, eq_str_iff y x, contains_iff xs x)

abbrev pub IsPort : ℤ → Type 0
IsPort v = (pos 0 ≤ℤ v) × (v ≤ℤ pos 65535)

is_port_iff : (v : ℤ) → (is_port v ≡ true) ↔ IsPort v
is_port_iff v = ground arith

not_empty_iff : (s : Str) → (not (is_empty s) ≡ true) ↔ (s ≢ [])
not_empty_iff s = ground (arith, eq_str_iff s [])

pub not_negative_iff : (v : ℤ) → (not (is_negative v) ≡ true) ↔ (pos 0 ≤ℤ v)
not_negative_iff v = ground arith

-- Settings of the client.
abbrev pub ValidRun : RunSettings → Type 0
ValidRun r =
    All (λ p. (q : Str) × (Proto.parse p ≡ ok q)) r.protocols
    × (All (λ l. Any (λ m. m ≡ l) levels) r.levels × (pos 0 ≤ℤ r.timeout))

protocol_iff :
    (p : Str)
    → (elim (Proto.parse p) as (λ _. List Problem) [ ok _ ↦ [] | err _ ↦ bad_protocol p ∷ [] ] ≡ [])
      ↔ ((q : Str) × (Proto.parse p ≡ ok q))
protocol_iff p = elim (Result-cases (Proto.parse p)) [
  | inl (q, e) ↦ (λ _. (q, e), λ _. rw e refl)
  | inr (x, e) ↦ (λ h. absurd (ground arith), λ (q, k). absurd (cc))
]

pub validate_run_iff : (r : RunSettings) → (validate_run r ≡ []) ↔ ValidRun r
unfolding validate_run
validate_run_iff r = both (each_iff _ r.protocols protocol_iff) (
    both (each_iff _ r.levels (λ l. demand_for _ _ (contains_iff levels l)))
      (demand_for _ _ (not_negative_iff r.timeout)))

abbrev pub ValidReadiness : Readiness → Type 0
ValidReadiness r =
    All (λ s. (pos 100 ≤ℤ s) × (s ≤ℤ pos 999)) r.status
    × ((pos 0 ≤ℤ r.timeout) × (pos 0 ≤ℤ r.interval))

pub validate_readiness_iff : (r : Readiness) → (validate_readiness r ≡ []) ↔ ValidReadiness r
unfolding validate_readiness
validate_readiness_iff r =
    both (each_iff _ r.status (λ s. demand_for _ _ (ground arith))) (demand_for _ _ (ground arith))

module _ (parse_url : Str → Option Url) (is_abs : Str → Bool) where
  -- Exactly one of source and content, and a target that is absolute in a container and relative for
  -- a process.
  abbrev pub ValidFile : Bool → File → Type 0
  ValidFile absolute f =
      (((f.source ≡ []) × (f.content ≢ [])) ⊎ ((f.source ≢ []) × (f.content ≡ [])))
      × ((f.target ≢ []) × (is_abs f.target ≡ absolute))

  one_text_iff :
      (at : Str) (i : ℕ) (f : File)
      → ((if is_empty f.source
            then demand (not (is_empty f.content)) (bad_file at i one_text)
            else demand (is_empty f.content) (bad_file at i one_text))
          ≡ [])
        ↔ (((f.source ≡ []) × (f.content ≢ [])) ⊎ ((f.source ≢ []) × (f.content ≡ [])))
  one_text_iff at i f = ground (arith, eq_str_iff f.source [], eq_str_iff f.content [])

  file_target_iff :
      (at : Str) (absolute : Bool) (i : ℕ) (f : File)
      → ((elim (validate_file_target parse_url is_abs f.target absolute) as (λ _. List Problem) [
        | some p ↦ bad_file at i p ∷ []
        | none ↦ []
      ])
          ≡ [])
        ↔ ((f.target ≢ []) × (is_abs f.target ≡ absolute))
  unfolding validate_file_target
  file_target_iff at true i f = ground (arith, eq_str_iff f.target [])
  file_target_iff at false i f = ground (arith, eq_str_iff f.target [])

  validate_files_iff :
      (at : Str) (absolute : Bool) (i : ℕ) (files : List File)
      → (validate_files parse_url is_abs at absolute i files ≡ []) ↔ All (ValidFile absolute) files
  unfolding validate_files
  validate_files_iff at absolute i [] = (λ _. tt, λ _. refl)
  validate_files_iff at absolute i (f ∷ files) =
      both (both (one_text_iff at i f) (file_target_iff at absolute i f))
        (validate_files_iff at absolute (i + 1) files)

  abbrev pub ValidProxy : Proxy → Type 0
  ValidProxy p =
      (u : Url) × ((parse_url p.url ≡ some u)
        × (((u.scheme ≡ str "http") ⊎ (u.scheme ≡ str "https"))
            × ((u.host ≢ []) × IsPort p.origin_port)))

  url_iff :
      (p : Proxy) (u : Url)
      → ((if (not (eq_str u.scheme (str "http")) && not (eq_str u.scheme (str "https")))
              || is_empty u.host
            then relative_url p.url ∷ []
            else demand (is_port p.origin_port) (bad_origin_port p.origin_port))
          ≡ [])
        ↔ (((u.scheme ≡ str "http") ⊎ (u.scheme ≡ str "https"))
            × ((u.host ≢ []) × IsPort p.origin_port))
  url_iff p u = ground (
    arith,
    eq_str_iff u.scheme (str "http"),
    eq_str_iff u.scheme (str "https"),
    eq_str_iff u.host [],
  )

  validate_proxy_iff : (p : Proxy) → (validate_proxy parse_url is_abs p ≡ []) ↔ ValidProxy p
  unfolding validate_proxy
  validate_proxy_iff p = elim (Option-cases (parse_url p.url)) [
    | inl n ↦ (λ h. absurd (ground arith), λ (u, (k, rest)). absurd (cc))
    | inr (u, e) ↦
        rw (e, validate_proxy)
          (
            λ h. (u, (refl, (url_iff p u).0 h)),
            λ (u', (k, rest)). let same : u ≡ u' = cc in (url_iff p u).1 (rw same rest),
          )
  ]

  abbrev pub ValidDocker : Docker → Type 0
  ValidDocker d =
      (d.image ≢ [])
      × (((d.pull ≡ []) ⊎ Any (λ m. m ≡ d.pull) (str "missing" ∷ str "always" ∷ str "never" ∷ []))
          × (IsPort d.container_port × All (ValidFile true) d.files))

  pull_iff :
      (d : Docker)
      → (contains (str "missing" ∷ str "always" ∷ str "never" ∷ []) (pull_policy d) ≡ true)
        ↔ ((d.pull ≡ []) ⊎ Any (λ m. m ≡ d.pull) (str "missing" ∷ str "always" ∷ str "never" ∷ []))
  unfolding pull_policy
  pull_iff d = elim (Bool-cases (eq_str d.pull [])) [
    | inl e ↦ (
      λ _. inl ((eq_str_iff d.pull []).0 e),
      λ _.
          rw (e, pull_policy)
            ((contains_iff (str "missing" ∷ str "always" ∷ str "never" ∷ []) (str "missing")).1
              (inl refl)),
    )
    | inr e ↦
        rw (e, pull_policy)
          (
            λ h. inr ((contains_iff _ d.pull).0 h),
            λ h. elim h [
              | inl n ↦ absurd (let k = (eq_str_iff d.pull []).1 n in cc)
              | inr m ↦ (contains_iff _ d.pull).1 m
            ],
          )
  ]

  validate_docker_iff : (d : Docker) → (validate_docker parse_url is_abs d ≡ []) ↔ ValidDocker d
  unfolding validate_docker
  validate_docker_iff d = both (demand_for _ _ (not_empty_iff d.image)) (
      both (demand_for _ _ (pull_iff d)) (
        both (demand_for _ _ (is_port_iff d.container_port))
          (validate_files_iff (str "docker") true 0 d.files)))

  -- A proxy that is left in the background needs a command that stops it without naming a process.
  abbrev pub ValidProcess : Process → Type 0
  ValidProcess p =
      (p.start ≢ [])
      × ((p.background ≡ true → p.stop ≢ [])
          × ((p.background ≡ true → contains_substring p.stop (str "${PID}") ≡ false)
              × All (ValidFile false) p.files))

  validate_process_iff : (p : Process) → (validate_process parse_url is_abs p ≡ []) ↔ ValidProcess p
  unfolding validate_process
  validate_process_iff p = both (demand_for _ _ (not_empty_iff p.start)) (
      both
        (demand_for (not (p.background && is_empty p.stop)) _
          (ground (arith, eq_str_iff p.stop [])))
        (both
          (demand_for (not (p.background && contains_substring p.stop (str "${PID}"))) _
            (ground arith))
          (validate_files_iff (str "process") false 0 p.files)))

  -- Exactly one of the kinds, with what that kind needs.
  abbrev pub ValidKind : Option Proxy → Option Docker → Option Process → Type 0
  ValidKind (some p) none none = ValidProxy p
  ValidKind none (some d) none = ValidDocker d
  ValidKind none none (some p) = ValidProcess p
  ValidKind _ _ _ = ⊥

  kinds_iff :
      (t : Target) (p : Option Proxy) (d : Option Docker) (q : Option Process)
      → (((length (defined (record t { proxy = p; docker = d; process = q })) == 1) ≡ true)
          × (validate_kind parse_url is_abs (record t { proxy = p; docker = d; process = q }) ≡ []))
        ↔ ValidKind p d q
  unfolding defined validate_kind
  kinds_iff t none none none = (λ (c, h). absurd (cc), λ v. absurd v)
  kinds_iff t none none (some q) =
      (λ (c, h). (validate_process_iff q).0 h, λ v. (refl, (validate_process_iff q).1 v))
  kinds_iff t none (some d) none =
      (λ (c, h). (validate_docker_iff d).0 h, λ v. (refl, (validate_docker_iff d).1 v))
  kinds_iff t none (some d) (some q) = (λ (c, h). absurd (cc), λ v. absurd v)
  kinds_iff t (some p) none none =
      (λ (c, h). (validate_proxy_iff p).0 h, λ v. (refl, (validate_proxy_iff p).1 v))
  kinds_iff t (some p) none (some q) = (λ (c, h). absurd (cc), λ v. absurd v)
  kinds_iff t (some p) (some d) none = (λ (c, h). absurd (cc), λ v. absurd v)
  kinds_iff t (some p) (some d) (some q) = (λ (c, h). absurd (cc), λ v. absurd v)

  pub kind_iff :
      (t : Target)
      → (((length (defined t) == 1) ≡ true) × (validate_kind parse_url is_abs t ≡ []))
        ↔ ValidKind t.proxy t.docker t.process
  kind_iff t = kinds_iff t t.proxy t.docker t.process
