-- ===== src/Config/Validate/Accepted.antt =====
-- pkg/config/validate.go: what a valid configuration is, and theorems about `Validate`.
use mecone.Prelude.{
  ℕ, ◌+◌, ◌≡◌, ◌≢◌, refl, sym, ◌↔◌, inl, inr, Bool, true, false, not, Option, none, some, List, [],
  ◌∷◌, Str, eq_str, eq_str_iff, pos, ◌≤ℤ◌, arith, ◌==◌, length, All, Any, All-members, demand_for,
  both, map_iff,
}
use mecone.Regexp.{match_string}
use mecone.Proto.{contains}
use mecone.Proto.Lists.{Distinct}
use mecone.Config.{Readiness, Target, Config}
use mecone.Config.Validate.{
  Problem, duplicate, bad_name, not_one_kind, negative_settle, in_target, Url, name_pattern,
  is_negative, defined, validate_readiness, validate_kind, validate_target, validate_targets,
  validate,
}
use mecone.Config.Validate.Kinds.{
  contains_iff, not_negative_iff, ValidRun, validate_run_iff, ValidReadiness,
  validate_readiness_iff, ValidKind, kind_iff,
}

module _ (parse_url : Str → Option Url) (is_abs : Str → Bool) where
  abbrev ValidTarget : Target → Type 0
  ValidTarget t =
      (match_string name_pattern t.name ≡ true)
      × (ValidKind parse_url is_abs t.proxy t.docker t.process
          × (((r : Readiness) → t.readiness ≡ some r → ValidReadiness r) × (pos 0 ≤ℤ t.settle)))

  readiness_iff :
      (o : Option Readiness)
      → ((elim o as (λ _. List Problem) [ some r ↦ validate_readiness r | none ↦ [] ]) ≡ [])
        ↔ ((r : Readiness) → o ≡ some r → ValidReadiness r)
  readiness_iff none = (λ _ r e. absurd (cc), λ _. refl)
  readiness_iff (some q) = (
    λ h r e. let same : q ≡ r = cc in rw (← same) ((validate_readiness_iff q).0 h),
    λ h. (validate_readiness_iff q).1 (h q refl),
  )

  validate_target_iff : (t : Target) → (validate_target parse_url is_abs t ≡ []) ↔ ValidTarget t
  unfolding validate_target
  validate_target_iff t =
      let parts =
        both (demand_for (match_string name_pattern t.name) (bad_name t.name) (λ x. x, λ x. x)) (
          both (demand_for (length (defined t) == 1) (not_one_kind (defined t)) (λ x. x, λ x. x)) (
            both {P = validate_kind parse_url is_abs t ≡ []} (λ x. x, λ x. x)
              (both (readiness_iff t.readiness) (
                demand_for (not (is_negative t.settle)) negative_settle
                  (not_negative_iff t.settle))))) in
      (
        λ h.
            let (n, (c, (k, rest))) = parts.0 h in
            (n, ((kind_iff parse_url is_abs t).0 (c, k), rest)),
        λ (n, (v, rest)).
            let (c, k) = (kind_iff parse_url is_abs t).1 v in parts.1 (n, (c, (k, rest))),
      )

  -- The names of the entries that are there.
  abbrev names : List (Option Target) → List Str
  names [] = []
  names (none ∷ targets) = names targets
  names (some t ∷ targets) = t.name ∷ names targets

  abbrev ValidEntry : Option Target → Type 0
  ValidEntry none = ⊥
  ValidEntry (some t) = ValidTarget t

  not-contains_iff :
      (seen : List Str) (n : Str) → (not (contains seen n) ≡ true) ↔ (¬ Any (λ m. m ≡ n) seen)
  not-contains_iff seen n = ground (arith, contains_iff seen n)

  -- None of the names is among those seen before.
  abbrev Unseen : List Str → List Str → Type 0
  Unseen seen ns = All (λ n. ¬ Any (λ m. m ≡ n) seen) ns

  Unseen-cons :
      (seen : List Str) (n : Str) (ns : List Str)
      → Unseen (n ∷ seen) ns ↔ (Unseen seen ns × (contains ns n ≡ false))
  unfolding contains
  Unseen-cons seen n [] = (λ _. (tt, refl), λ _. tt)
  Unseen-cons seen n (x ∷ ns) =
      let rest = Unseen-cons seen n ns in
      (
        λ (h, hs).
            let (a, b) = rest.0 hs in
            let other : eq_str x n ≢ true = λ e. h (inl (sym ((eq_str_iff x n).0 e))) in
            ((λ m. h (inr m), a), ground arith),
        λ ((h, hs), e).
            let other : n ≢ x =
              λ same. (let k = (eq_str_iff x n).1 (sym same) in absurd (ground arith)) in
            (λ m. elim m [ inl same ↦ other same | inr k ↦ h k ], rest.1 (hs, ground arith)),
      )

  validate_targets_iff :
      (seen : List Str) (i : ℕ) (targets : List (Option Target))
      → (validate_targets parse_url is_abs seen i targets ≡ [])
        ↔ (All ValidEntry targets × (Unseen seen (names targets) × Distinct (names targets)))
  unfolding validate_targets
  validate_targets_iff seen i [] = (λ _. (tt, (tt, tt)), λ _. refl)
  validate_targets_iff seen i (none ∷ targets) = (λ h. absurd (cc), λ h. absurd h.0.0)
  validate_targets_iff seen i (some t ∷ targets) =
      let here =
        demand_for (not (contains seen t.name)) (duplicate t.name) (not-contains_iff seen t.name) in
      let valid = validate_target_iff t in
      let nested = map_iff (in_target t.name) (validate_target parse_url is_abs t) in
      let split = Unseen-cons seen t.name (names targets) in
      let parts = both here (
        both (λ e. valid.0 (nested.0 e), λ v. nested.1 (valid.1 v))
          (validate_targets_iff (t.name ∷ seen) (i + 1) targets)) in
      (
        λ h.
            let (n, (v, (vs, (u, d)))) = parts.0 h in
            let (us, c) = split.0 u in ((v, vs), ((n, us), (c, d))),
        λ ((v, vs), ((n, us), (c, d))). parts.1 (n, (v, (vs, (split.1 (us, c), d)))),
      )

  -- Settings of the client that are valid, targets that are, each under a name of its own, and no
  -- empty entry among them.
  abbrev pub ValidConfig : Config → Type 0
  ValidConfig c = ValidRun c.run × (All ValidEntry c.targets × Distinct (names c.targets))

  -- Validation finds no problem exactly if the settings of the client are valid, no entry of the
  -- catalog is empty, no two targets have the same name, and each target has a proper name, is of
  -- exactly one kind, and has what that kind needs.
  pub validate-ValidConfig_iff : (c : Config) → (validate parse_url is_abs c ≡ []) ↔ ValidConfig c
  unfolding validate
  validate-ValidConfig_iff c =
      let parts = both (validate_run_iff c.run) (validate_targets_iff [] 0 c.targets) in
      (
        λ h. let (r, (vs, (u, d))) = parts.0 h in (r, (vs, d)),
        λ (r, (vs, d)). parts.1 (r, (vs, (All-members _ (names c.targets) (λ n m k. k), d))),
      )
