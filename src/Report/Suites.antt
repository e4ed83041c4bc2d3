-- ===== src/Report/Suites.antt =====
-- pkg/report/report.go: theorems about the summaries of `Summarize`.
use mecone.Prelude.{
  ℕ, zero, suc, ◌≡◌, ◌≢◌, refl, sym, ap, ◌∙◌, ◌↔◌, inl, inr, Bool, true, false, ◌||◌, none, some,
  List, [], ◌∷◌, ◌++◌, Str, str, eq_str, eq_str_iff, eq_str_refl, Bool-cases, Option-cases, arith,
  if◌then◌else◌, length, get_elem?, any, get_elem?-append, get_elem?-lt,
}
use mathlib.Core.List.{append-nil, append_assoc}
use mecone.Maps
use mecone.Maps.{Map, str_key}
use mecone.Results.{TestResult, Run}
use mecone.Report.{Summary, empty_summary, add_conclusive, add, update, summarize_from, summarize}
use mecone.Report.Scores.{add_all}

-- The results of the summary's own suite, added one by one.
abbrev pub add_own : Summary → List TestResult → Summary
add_own s [] = s
add_own s (r ∷ results) = add_own (if eq_str r.suite s.name then add s r else s) results

-- The suites of the results that are not among those seen, each where it first appears.
abbrev pub new_suites : List Str → List TestResult → List Str
new_suites seen [] = []
new_suites seen (r ∷ results) =
    if any (eq_str r.suite) seen
    then new_suites seen results
    else r.suite ∷ new_suites (seen ++ r.suite ∷ []) results

abbrev names : List Summary → List Str
names [] = []
names (s ∷ suites) = s.name ∷ names suites

abbrev own : List TestResult → List Summary → List Summary
own results [] = []
own results (s ∷ suites) = add_own s results ∷ own results suites

abbrev pub starts : List TestResult → List Str → List Summary
starts results [] = []
starts results (n ∷ ns) = add_own (empty_summary n) results ∷ starts results ns

-- The index holds the position of every name, and each name stands at one position.
abbrev Indexed : Map Str ℕ → List Str → Type 0
Indexed index ns = (n : Str) (j : ℕ) → (Maps.lookup n index ≡ some j) ↔ (get_elem? ns j ≡ some n)

name-add : (s : Summary) (r : TestResult) → (add s r).name ≡ s.name
unfolding add add_conclusive
name-add s r = ground arith

names-update :
    (suites : List Summary) (i : ℕ) (r : TestResult) → names (update suites i r) ≡ names suites
names-update [] i r = refl
names-update (s ∷ suites) zero r = rw (name-add s r) refl
names-update (s ∷ suites) (suc i) r = rw (names-update suites i r) refl

names-append :
    (suites : List Summary) (s : Summary) → names (suites ++ s ∷ []) ≡ names suites ++ s.name ∷ []
names-append [] s = refl
names-append (t ∷ suites) s = rw (names-append suites s) refl

own-append :
    (results : List TestResult) (suites : List Summary) (s : Summary)
    → own results (suites ++ s ∷ []) ≡ own results suites ++ add_own s results ∷ []
own-append results [] s = refl
own-append results (t ∷ suites) s = rw (own-append results suites s) refl

own-missing :
    (suites : List Summary) (r : TestResult) (results : List TestResult)
    → ((j : ℕ) → get_elem? (names suites) j ≢ some r.suite)
    → own (r ∷ results) suites ≡ own results suites
own-missing [] r results h = refl
own-missing (s ∷ suites) r results h =
    let other : eq_str r.suite s.name ≡ false = ground (arith, h 0, eq_str_iff r.suite s.name) in
    rw (other, own-missing suites r results (λ j. h (suc j))) refl

own-update :
    (suites : List Summary) (i : ℕ) (r : TestResult) (results : List TestResult)
    → ((j : ℕ) → (i ≡ j) ↔ (get_elem? (names suites) j ≡ some r.suite))
    → own results (update suites i r) ≡ own (r ∷ results) suites
own-update [] i r results h = refl
own-update (s ∷ suites) zero r results h =
    let same : eq_str r.suite s.name ≡ true =
      ground (arith, (h 0).0 refl, eq_str_iff r.suite s.name) in
    let rest = own-missing suites r results (λ j e. absurd (ground (arith, (h (suc j)).1 e))) in
    rw (same, rest) refl
own-update (s ∷ suites) (suc i) r results h =
    let other : eq_str r.suite s.name ≡ false =
      ground (arith, (h 0).1, eq_str_iff r.suite s.name) in
    let rest =
      own-update suites i r results
        (λ j. (λ e. (h (suc j)).0 (ap suc e), λ e. let k = (h (suc j)).1 e in omega (arith, k))) in
    rw (other, rest) refl

any-get_elem? :
    (n : Str) (ns : List Str) (j : ℕ) → get_elem? ns j ≡ some n → any (eq_str n) ns ≡ true
any-get_elem? n [] j e = absurd (cc)
any-get_elem? n (m ∷ ns) zero e = let same : m ≡ n = cc in ground (arith, eq_str_iff n m)
any-get_elem? n (m ∷ ns) (suc j) e = rw (any-get_elem? n ns j e) (ground arith)

any-missing :
    (n : Str) (ns : List Str) → ((j : ℕ) → get_elem? ns j ≢ some n) → any (eq_str n) ns ≡ false
any-missing n [] h = refl
any-missing n (m ∷ ns) h =
    let other : eq_str n m ≡ false = ground (arith, h 0, eq_str_iff n m) in
    rw other (any-missing n ns (λ j. h (suc j)))

Indexed-append :
    (index : Map Str ℕ) (ns : List Str) (n : Str)
    → Indexed index ns
    → Maps.lookup n index ≡ none
    → Indexed (Maps.insert n (length ns) index) (ns ++ n ∷ [])
Indexed-append index ns n h missing m j =
    let put = Maps.lookup-insert n m (length ns) index in
    let at = get_elem?-append ns n j in
    let other : n ≢ m → get_elem? ns j ≡ some n → ⊥ = λ _ e. absurd (let k = (h n j).1 e in cc) in
    (
      λ e. let lt = get_elem?-lt ns j m in ground (arith, put, at, lt, (h m j).0, eq_str_iff n m),
      λ e. let back = (h m j).1 in ground (arith, put, at, back, eq_str_iff n m, missing, other),
    )

own-nil : (suites : List Summary) → own [] suites ≡ suites
own-nil [] = refl
own-nil (s ∷ suites) = ap (λ l. s ∷ l) (own-nil suites)

any-append : (p : Str → Bool) (xs : List Str) (x : Str) → any p (xs ++ x ∷ []) ≡ any p xs || p x
any-append p [] x = ground arith
any-append p (y ∷ xs) x = ground (arith, any-append p xs x)

-- A result of a suite already seen adds nothing to the suites that are new.
starts-seen :
    (r : TestResult) (results : List TestResult) (seen : List Str) (later : List TestResult)
    → any (eq_str r.suite) seen ≡ true
    → starts (r ∷ results) (new_suites seen later) ≡ starts results (new_suites seen later)
starts-seen r results seen [] h = refl
starts-seen r results seen (l ∷ later) h =
    let more : any (eq_str r.suite) (seen ++ l.suite ∷ []) ≡ true =
      ground (arith, any-append (eq_str r.suite) seen l.suite) in
    let rest = starts-seen r results (seen ++ l.suite ∷ []) later more in
    elim (Bool-cases (any (eq_str l.suite) seen))
      as (λ _.
        starts (r ∷ results) (new_suites seen (l ∷ later))
        ≡ starts results (new_suites seen (l ∷ later))) [
          | inl e ↦ rw e (starts-seen r results seen later h)
          | inr e ↦
              let other : eq_str r.suite l.suite ≡ false =
                ground (arith, eq_str_iff r.suite l.suite) in
              rw (e, other, rest) refl
        ]

module _ (overall : Summary) (index : Map Str ℕ) (suites : List Summary) (r : TestResult)
    (results : List TestResult) where
  summarize_from-some :
      (i : ℕ)
      → Maps.lookup r.suite index ≡ some i
      → summarize_from overall index suites (r ∷ results)
        ≡ summarize_from (add overall r) index (update suites i r) results
  unfolding summarize_from
  summarize_from-some i e = rw (e, summarize_from) refl

  summarize_from-none :
      Maps.lookup r.suite index ≡ none
      → summarize_from overall index suites (r ∷ results)
        ≡ summarize_from
            (add overall r)
            (Maps.insert r.suite (length suites) index)
            (suites ++ add (empty_summary r.suite) r ∷ [])
            results
  unfolding summarize_from
  summarize_from-none e = rw (e, summarize_from) refl

length-names : (suites : List Summary) → length (names suites) ≡ length suites
length-names [] = refl
length-names (s ∷ suites) = ap suc (length-names suites)

-- The summaries at the end of the loop, from those with which it starts.
abbrev final : Summary → List Summary → List TestResult → Summary × List Summary
final overall suites results = (
  add_all overall results,
  own results suites ++ starts results (new_suites (names suites) results),
)

final-update :
    (overall : Summary) (suites : List Summary) (i : ℕ) (r : TestResult) (results : List TestResult)
    → ((j : ℕ) → (i ≡ j) ↔ (get_elem? (names suites) j ≡ some r.suite))
    → final (add overall r) (update suites i r) results ≡ final overall suites (r ∷ results)
final-update overall suites i r results once =
    let seen = any-get_elem? r.suite (names suites) i ((once i).0 refl) in
    rw
      (
        names-update suites i r,
        own-update suites i r results once,
        seen,
        starts-seen r results (names suites) results seen,
      )
      refl

add_own-first :
    (r : TestResult) (results : List TestResult)
    → add_own (add (empty_summary r.suite) r) results
      ≡ add_own (empty_summary r.suite) (r ∷ results)
add_own-first r results = rw (eq_str_refl r.suite) refl

final-append :
    (overall : Summary) (suites : List Summary) (s : Summary) (r : TestResult)
    (results : List TestResult)
    → s.name ≡ r.suite
    → add_own s results ≡ add_own (empty_summary r.suite) (r ∷ results)
    → ((j : ℕ) → get_elem? (names suites) j ≢ some r.suite)
    → final (add overall r) (suites ++ s ∷ []) results ≡ final overall suites (r ∷ results)
final-append overall suites s r results called starting never =
    let seen : any (eq_str r.suite) (names suites ++ r.suite ∷ []) ≡ true =
      ground (arith, any-append (eq_str r.suite) (names suites) r.suite, eq_str_refl r.suite) in
    let missing = any-missing r.suite (names suites) never in
    let fresh = starts-seen r results (names suites ++ r.suite ∷ []) results seen in
    let left : final (add overall r) (suites ++ s ∷ []) results ≡ (
      add_all (add overall r) results,
      (own results suites ++ add_own s results ∷ [])
          ++ starts results (new_suites (names suites ++ r.suite ∷ []) results),
    ) =
      rw (own-append results suites s, names-append suites s, called) refl in
    let news = starts results (new_suites (names suites ++ r.suite ∷ []) results) in
    let right : final overall suites (r ∷ results) ≡ (
      add_all (add overall r) results,
      own results suites ++ add_own (empty_summary r.suite) (r ∷ results) ∷ news,
    ) =
      rw (missing, own-missing suites r results never, fresh) refl in
    left
    ∙ ap (λ l. (add_all (add overall r) results, l))
        (append_assoc (own results suites) (add_own s results ∷ []) news)
    ∙ ap (λ o. (add_all (add overall r) results, own results suites ++ o ∷ news)) starting
    ∙ sym right

-- The loop of `Summarize`, started with an index of the suites.
summarize_from-final :
    (overall : Summary) (index : Map Str ℕ) (suites : List Summary) (results : List TestResult)
    → Indexed index (names suites)
    → summarize_from overall index suites results ≡ final overall suites results
unfolding summarize_from
summarize_from-final overall index suites [] h = rw (own-nil suites, append-nil suites) refl
summarize_from-final overall index suites (r ∷ results) h =
    elim (Option-cases (Maps.lookup r.suite index)) [
      | inl e ↦
          let never : (j : ℕ) → get_elem? (names suites) j ≢ some r.suite =
            λ j k. let l = (h r.suite j).1 k in cc in
          summarize_from-none overall index suites r results e
          ∙ summarize_from-final (add overall r) (Maps.insert r.suite (length suites) index)
              (suites ++ add (empty_summary r.suite) r ∷ []) results
              (rw
                (
                  names-append suites (add (empty_summary r.suite) r),
                  name-add (empty_summary r.suite) r,
                  sym (length-names suites),
                )
                (Indexed-append index (names suites) r.suite h e))
          ∙ final-append overall suites (add (empty_summary r.suite) r) r results
              (name-add (empty_summary r.suite) r) (add_own-first r results) never
      | inr (i, e) ↦
          let once : (j : ℕ) → (i ≡ j) ↔ (get_elem? (names suites) j ≡ some r.suite) =
            λ j. (λ k. rw (sym k) ((h r.suite i).0 e), λ k. let l = (h r.suite j).1 k in cc) in
          summarize_from-some overall index suites r results i e
          ∙ summarize_from-final (add overall r) index (update suites i r) results
              (rw (names-update suites i r) h)
          ∙ final-update overall suites i r results once
    ]

-- `Summarize` counts all results in the overall summary. Its suites are those of the results in
-- order of first appearance, each once, and each one's summary counts exactly its own results.
pub summarize-suites :
    (run : Run)
    → summarize run ≡ (
      add_all (empty_summary (str "overall")) run.results,
      starts run.results (new_suites [] run.results),
    )
unfolding summarize Maps.lookup
summarize-suites run =
    summarize_from-final (empty_summary (str "overall")) [] [] run.results
      (λ n j. (λ e. absurd (ground arith), λ e. absurd (cc)))
