-- ===== src/Report/Changes.antt =====
-- pkg/report/report.go: `Compare`, the results whose outcome changed between two runs.
use mecone.Prelude.{
  ◌≡◌, ◌≢◌, refl, sym, ap, ◌∙◌, ◌↔◌, inl, inr, Bool, not, Option, none, some, List, [], ◌∷◌, Str,
  eq_str, Bool-cases, Option-cases, arith, if◌then◌else◌, Any,
}
use mecone.Maps
use mecone.Maps.{Map, str_key}
use mecone.Strings.{leb_str}
use mecone.Strings.Order.{leb_str_total, leb_str_trans}
use mecone.Sorting.{sort, IsSorted, sort-IsSorted, sort-Any}
use mecone.Results.{Outcome, eq_outcome, eq_outcome_iff, TestResult, Run, key}
use mecone.Report.{Change}

-- The loop that fills `before`: a later result with the same key wins.
unfoldable pub before_from : Map Str Outcome → List TestResult → Map Str Outcome
before_from m [] = m
before_from m (r ∷ results) = before_from (Maps.insert (key r) r.outcome m) results

-- The second loop of `Compare`.
unfoldable pub changed : Map Str Outcome → List TestResult → List Change
changed before [] = []
changed before (r ∷ results) = elim (Maps.lookup (key r) before) [
  | some prev ↦
      if not (eq_outcome prev r.outcome)
      then record { key = key r; from = prev; to = r.outcome } ∷ changed before results
      else changed before results
  | none ↦ changed before results
]

-- strings.Compare on the keys, at most 0
unfoldable pub key_order : Change → Change → Bool
key_order a b = leb_str a.key b.key

-- func Compare
unfoldable pub compare : Run → Run → List Change
unfolding before_from changed key_order
compare base cur = sort key_order (changed (before_from [] base.results) cur.results)

-- The outcome of the last result with the key, or the one given.
abbrev pub last_outcome : Option Outcome → Str → List TestResult → Option Outcome
last_outcome o k [] = o
last_outcome o k (r ∷ results) =
    last_outcome (if eq_str (key r) k then some r.outcome else o) k results

before-last :
    (m : Map Str Outcome) (k : Str) (results : List TestResult)
    → Maps.lookup k (before_from m results) ≡ last_outcome (Maps.lookup k m) k results
unfolding before_from
before-last m k [] = refl
before-last m k (r ∷ results) =
    before-last (Maps.insert (key r) r.outcome m) k results
    ∙ ap (λ o. last_outcome o k results) (Maps.lookup-insert (key r) k r.outcome m)

Any-iff :
    {A : Type 0} (P Q : A → Type 0) (xs : List A) → ((x : A) → P x ↔ Q x) → Any P xs ↔ Any Q xs
Any-iff P Q [] h = (λ a. a, λ a. a)
Any-iff P Q (x ∷ xs) h = ground (arith, h x, Any-iff P Q xs h)

module _ (before : Map Str Outcome) (c : Change) where
  -- The same, by the map of the base run.
  abbrev TurnedFrom : TestResult → Type 0
  TurnedFrom r =
      (key r ≡ c.key)
      × (r.outcome ≡ c.to)
      × (Maps.lookup (key r) before ≡ some c.from)
      × (c.from ≢ c.to)

  entry :
      (r : TestResult) (prev : Outcome) (same : (r.outcome ≡ prev) → ⊥)
      → Maps.lookup (key r) before ≡ some prev
      → (record { key = key r; from = prev; to = r.outcome } ≡ c) ↔ TurnedFrom r
  entry r prev other e = (
    λ h. (
      ap (λ d. d.key) h,
      ap (λ d. d.to) h,
      e ∙ ap (λ d. some d.from) h,
      λ k. other (ap (λ d. d.to) h ∙ sym k ∙ sym (ap (λ d. d.from) h)),
    ),
    λ (k, o, l, _). let p : prev ≡ c.from = cc in rw (k, o, p) refl,
  )

  changed-Any :
      (results : List TestResult)
      → Any (λ d. d ≡ c) (changed before results) ↔ Any TurnedFrom results
  unfolding changed
  changed-Any [] = (λ h. h, λ h. h)
  changed-Any (r ∷ results) = elim (Option-cases (Maps.lookup (key r) before)) [
    | inl e ↦ ground (arith, changed-Any results)
    | inr (prev, e) ↦ elim (Bool-cases (eq_outcome prev r.outcome)) [
      | inl s ↦ ground (arith, changed-Any results, eq_outcome_iff prev r.outcome)
      | inr s ↦ ground (arith, changed-Any results, eq_outcome_iff prev r.outcome, entry r prev)
    ]
  ]

-- A change is listed exactly if some result of the current run has its key and its new outcome,
-- the last result of the base run with that key had its old outcome, and the two differ.
pub compare-changed :
    (base cur : Run) (c : Change)
    → Any (λ d. d ≡ c) (compare base cur)
      ↔ Any
          (λ r.
            (key r ≡ c.key)
            × (r.outcome ≡ c.to)
            × (last_outcome none (key r) base.results ≡ some c.from)
            × (c.from ≢ c.to))
          cur.results
unfolding compare before_from Maps.lookup
compare-changed base cur c =
    let sorted =
      sort-Any key_order (λ d. d ≡ c) (changed (before_from [] base.results) cur.results) in
    let listed = changed-Any (before_from [] base.results) c cur.results in
    let last =
      Any-iff (TurnedFrom (before_from [] base.results) c)
        (λ r.
          (key r ≡ c.key)
          × (r.outcome ≡ c.to)
          × (last_outcome none (key r) base.results ≡ some c.from)
          × (c.from ≢ c.to))
        cur.results (λ r. rw (before-last [] (key r) base.results) (λ h. h, λ h. h)) in
    (λ h. last.0 (listed.0 (sorted.0 h)), λ h. sorted.1 (listed.1 (last.1 h)))

-- The list of changes is in the order of the keys.
compare-IsSorted : (base cur : Run) → IsSorted key_order (compare base cur)
unfolding compare key_order
compare-IsSorted base cur =
    sort-IsSorted key_order (λ a b. leb_str_total a.key b.key)
      (λ a b c. leb_str_trans a.key b.key c.key) (changed (before_from [] base.results) cur.results)
