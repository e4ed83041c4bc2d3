-- ===== src/Corpus/Requires/Search.antt =====
-- pkg/corpus/corpus.go: theorems about what `visit` leaves marked, and about its errors.
use mecone.Prelude.{
  ℕ, zero, suc, ◌<◌, ◌≡◌, ap, ◌∙◌, ◌↔◌, inl, inr, none, some, List, [], ◌∷◌, Str, eq_str,
  eq_str_iff, eq_str_refl, Result, ok, err, Result-cases, Bool-cases, Option-cases, arith, All,
}
use mecone.Maps
use mecone.Maps.{Map, str_key}
use mecone.TestDef.{Decoded}
use mecone.Corpus.{CorpusError, in_cycle, nil_test}
use mecone.Corpus.Marks.{
  All-self, All-In, Edge, Chain, one, more, Grounded, above, keys, In-keys, unmarked, Keeps,
  unmarked-le, unmarked-lt,
}
use mecone.Corpus.Requires.{VisitState, visiting, visited, States, visit_deps, visit}

-- What is visited stays so, and the tests being visited are the same after the search as before.
abbrev pub Moves : States → States → Type 0
Moves st st' =
    (id : Str)
    → (Maps.lookup id st ≡ some visited → Maps.lookup id st' ≡ some visited)
      × ((Maps.lookup id st ≡ some visiting) ↔ (Maps.lookup id st' ≡ some visiting))

Moves-Keeps : (st st' : States) → Moves st st' → Keeps st st'
Moves-Keeps st st' m id e = elim (Option-cases (Maps.lookup id st)) [
  | inl n ↦ n
  | inr (visited, v) ↦ absurd (let k = (m id).0 v in cc)
  | inr (visiting, v) ↦ absurd (let k = (m id).1.0 v in cc)
]

module _ (by_id : Map Str Decoded) where
  visit_deps-Moves :
      (go : Decoded → States → Result CorpusError States)
      → ((t : Decoded) (st st' : States) → go t st ≡ ok st' → Moves st st')
      → (deps : List Str) (st st' : States) → visit_deps go by_id deps st ≡ ok st'
      → Moves st st'
  unfolding visit_deps
  visit_deps-Moves go h [] st st' e =
      let same : st ≡ st' = cc in rw same (λ id. (λ x. x, (λ x. x, λ x. x)))
  visit_deps-Moves go h (dep ∷ deps) st st' e = elim (Option-cases (Maps.lookup dep by_id)) [
    | inl n ↦ absurd (ground arith)
    | inr (t, k) ↦ elim (Result-cases (go t st)) [
      | inr (x, g) ↦ absurd (ground arith)
      | inl (mid, g) ↦
          let first = h t st mid g in
          let rest = visit_deps-Moves go h deps mid st' (ground arith) in
          λ id. (
            λ v. (rest id).0 ((first id).0 v),
            (λ v. (rest id).1.0 ((first id).1.0 v), λ v. (first id).1.1 ((rest id).1.1 v)),
          )
    ]
  ]

  -- Between the two marks of a test the others move.
  Moves-around :
      (t : Decoded) (st mid : States)
      → Maps.lookup t.id st ≡ none
      → Moves (Maps.insert t.id visiting st) mid
      → Moves st (Maps.insert t.id visited mid)
  Moves-around t st mid n inner id = ground (
    arith,
    Maps.lookup-insert t.id id visiting st,
    Maps.lookup-insert t.id id visited mid,
    inner id,
    eq_str_iff t.id id,
  )

  pub visit-Moves :
      (fuel : ℕ) (t : Decoded) (st st' : States) → visit by_id fuel t st ≡ ok st' → Moves st st'
  unfolding visit
  visit-Moves zero t st st' e = absurd (cc)
  visit-Moves (suc fuel) t st st' e = elim (Option-cases (Maps.lookup t.id st)) [
    | inr (visiting, v) ↦ absurd (ground arith)
    | inr (visited, v) ↦
        let same : st ≡ st' = ground arith in rw same (λ id. (λ x. x, (λ x. x, λ x. x)))
    | inl n ↦
        let begun = Maps.insert t.id visiting st in
        elim (Result-cases (visit_deps (visit by_id fuel) by_id t.requires begun)) [
          | inr (x, g) ↦ absurd (ground arith)
          | inl (mid, g) ↦
              let inner =
                visit_deps-Moves (visit by_id fuel) (visit-Moves fuel) t.requires begun mid g in
              let same : Maps.insert t.id visited mid ≡ st' = ground arith in
              rw (← same) (Moves-around t st mid n inner)
        ]
  ]

  -- Everything that is visited is grounded.
  abbrev pub AllGrounded : States → Type 0
  AllGrounded st = (id : Str) → Maps.lookup id st ≡ some visited → Grounded by_id id

  AllGrounded-insert :
      (t : Decoded) (st : States) (v : VisitState)
      → (v ≡ visited → Grounded by_id t.id)
      → AllGrounded st
      → AllGrounded (Maps.insert t.id v st)
  AllGrounded-insert t st v g a id e = elim (Bool-cases (eq_str t.id id)) [
    | inl same ↦
        let it : t.id ≡ id = (eq_str_iff t.id id).0 same in
        let is : v ≡ visited = (let k = Maps.lookup-insert t.id id v st in ground arith) in
        rw (← it) (g is)
    | inr other ↦ a id (ground (arith, Maps.lookup-insert t.id id v st))
  ]

  -- In `by_id` each test stands under its ID.
  module _ (named : (id : Str) (t : Decoded) → Maps.lookup id by_id ≡ some t → t.id ≡ id) where
    visit_deps-Grounded :
        (go : Decoded → States → Result CorpusError States)
        → ((t : Decoded) (st st' : States) → go t st ≡ ok st' → Moves st st')
        → ((t : Decoded) (st st' : States)
            → Maps.lookup t.id by_id ≡ some t
            → AllGrounded st
            → go t st ≡ ok st'
            → AllGrounded st' × (Maps.lookup t.id st' ≡ some visited))
        → (deps : List Str) (st st' : States) → AllGrounded st
        → visit_deps go by_id deps st ≡ ok st'
        → AllGrounded st' × All (Grounded by_id) deps
    unfolding visit_deps
    visit_deps-Grounded go moves h [] st st' a e = let same : st ≡ st' = cc in (rw (← same) a, tt)
    visit_deps-Grounded go moves h (dep ∷ deps) st st' a e =
        elim (Option-cases (Maps.lookup dep by_id)) [
          | inl n ↦ absurd (ground arith)
          | inr (t, k) ↦ elim (Result-cases (go t st)) [
            | inr (x, g) ↦ absurd (ground arith)
            | inl (mid, g) ↦
                let it = named dep t k in
                let (a', seen) = h t st mid (ap (λ d. Maps.lookup d by_id) it ∙ k) a g in
                let (a'', rest) = visit_deps-Grounded go moves h deps mid st' a' (ground arith) in
                (a'', (rw (← it) (a' t.id seen), rest))
          ]
        ]

    pub visit-Grounded :
        (fuel : ℕ) (t : Decoded) (st st' : States)
        → Maps.lookup t.id by_id ≡ some t
        → AllGrounded st
        → visit by_id fuel t st ≡ ok st'
        → AllGrounded st' × (Maps.lookup t.id st' ≡ some visited)
    unfolding visit
    visit-Grounded zero t st st' k a e = absurd (cc)
    visit-Grounded (suc fuel) t st st' k a e = elim (Option-cases (Maps.lookup t.id st)) [
      | inr (visiting, v) ↦ absurd (ground arith)
      | inr (visited, v) ↦ let same : st ≡ st' = ground arith in (rw (← same) a, rw (← same) v)
      | inl n ↦
          let begun = Maps.insert t.id visiting st in
          elim (Result-cases (visit_deps (visit by_id fuel) by_id t.requires begun)) [
            | inr (x, g) ↦ absurd (ground arith)
            | inl (mid, g) ↦
                let (a', deps) =
                  visit_deps-Grounded (visit by_id fuel) (visit-Moves fuel) (visit-Grounded fuel)
                    t.requires begun mid (AllGrounded-insert t st visiting (λ q. absurd (cc)) a)
                    g in
                let same : Maps.insert t.id visited mid ≡ st' = ground arith in
                let it = above t k (λ dep m. All-In (Grounded by_id) t.requires dep deps m) in
                rw (← same) (
                  AllGrounded-insert t mid visited (λ _. it) a',
                  ground (arith, Maps.lookup-insert t.id t.id visited mid, eq_str_refl t.id),
                )
          ]
    ]

    -- What an error of the search means.
    abbrev pub Failure : CorpusError → Type 0
    Failure (in_cycle id) = Chain by_id id id
    Failure nil_test = (a b : Str) × Edge by_id a b × (Maps.lookup b by_id ≡ none)
    Failure _ = ⊥

    -- The tests being visited lead to this one.
    abbrev Leads : Str → States → Type 0
    Leads to st = (id : Str) → Maps.lookup id st ≡ some visiting → Chain by_id id to

    Leads-insert :
        (t : Decoded) (st : States) (dep : Str)
        → Edge by_id t.id dep
        → Leads t.id st
        → Leads dep (Maps.insert t.id visiting st)
    Leads-insert t st dep edge leads id v = elim (Bool-cases (eq_str t.id id)) [
      | inl same ↦ let it : t.id ≡ id = (eq_str_iff t.id id).0 same in rw (← it) (one edge)
      | inr other ↦ more (leads id (ground (arith, Maps.lookup-insert t.id id visiting st))) edge
    ]

    visit_deps-Failure :
        (from : Str) (go : Decoded → States → Result CorpusError States) (fuel : ℕ)
        → ((t : Decoded) (st st' : States) → go t st ≡ ok st' → Moves st st')
        → ((t : Decoded) (st : States) (e : CorpusError)
            → Maps.lookup t.id by_id ≡ some t
            → unmarked st (keys by_id) < fuel
            → Leads t.id st
            → go t st ≡ err e
            → Failure e)
        → (deps : List Str) (st : States) (e : CorpusError) → All (Edge by_id from) deps
        → unmarked st (keys by_id) < fuel
        → ((dep : Str) → Edge by_id from dep → Leads dep st)
        → visit_deps go by_id deps st ≡ err e
        → Failure e
    unfolding visit_deps
    visit_deps-Failure from go fuel moves h [] st e edges small leads q = absurd (cc)
    visit_deps-Failure from go fuel moves h (dep ∷ deps) st e (edge, edges) small leads q =
        elim (Option-cases (Maps.lookup dep by_id)) [
          | inl n ↦ let same : nil_test ≡ e = ground arith in rw (← same) (from, dep, edge, n)
          | inr (t, k) ↦
              let it = named dep t k in
              elim (Result-cases (go t st)) [
                | inr (x, g) ↦
                    let same : x ≡ e = ground arith in
                    rw (← same) (
                      h t st x (ap (λ d. Maps.lookup d by_id) it ∙ k) small (rw it (leads dep edge))
                        g)
                | inl (mid, g) ↦
                    let m = moves t st mid g in
                    visit_deps-Failure from go fuel moves h deps mid e edges
                      (let le = unmarked-le st mid (keys by_id) (Moves-Keeps st mid m) in
                        omega arith)
                      (λ d l id v. leads d l id ((m id).1.1 v)) (ground arith)
              ]
        ]

    pub visit-Failure :
        (fuel : ℕ) (t : Decoded) (st : States) (e : CorpusError)
        → Maps.lookup t.id by_id ≡ some t
        → unmarked st (keys by_id) < fuel
        → Leads t.id st
        → visit by_id fuel t st ≡ err e
        → Failure e
    unfolding visit
    visit-Failure zero t st e k small leads q = absurd (omega arith)
    visit-Failure (suc fuel) t st e k small leads q = elim (Option-cases (Maps.lookup t.id st)) [
      | inr (visiting, v) ↦
          let same : in_cycle t.id ≡ e = ground arith in rw (← same) (leads t.id v)
      | inr (visited, v) ↦ absurd (ground arith)
      | inl n ↦
          let begun = Maps.insert t.id visiting st in
          elim (Result-cases (visit_deps (visit by_id fuel) by_id t.requires begun)) [
            | inl (mid, g) ↦ absurd (ground arith)
            | inr (x, g) ↦
                let same : x ≡ e = ground arith in
                let less = unmarked-lt t.id visiting st (keys by_id) (In-keys by_id t.id t k) n in
                let lower : unmarked begun (keys by_id) < fuel = omega arith in
                rw (← same) (
                  visit_deps-Failure t.id (visit by_id fuel) fuel (visit-Moves fuel)
                    (visit-Failure fuel) t.requires begun x
                    (All-self (Edge by_id t.id) t.requires (λ d m. (t, k, m))) lower
                    (λ d edge. Leads-insert t st d edge leads) g)
          ]
    ]
