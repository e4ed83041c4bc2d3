-- ===== src/Examples/Suites.antt =====
-- A suite with a group that holds one test twice and an empty entry, of pkg/corpus.
use mecone.Prelude.{
  ◌≡◌, ◌≢◌, refl, ◌↔◌, Bool, true, Option, none, some, [], ◌∷◌, Str, str, eq_str, All, Any, filter,
}
use mecone.Maps
use mecone.TestDef.{Decoded}
use mecone.Corpus.{
  Corpus, Filter, Group, Suite, empty_corpus, add, index_test, unknown_requires, unknown_deps,
  has_suite,
}
use mecone.Corpus.Marks.{Grounded}
use mecone.Corpus.Requires.{check_requires, visit, visit_all, visit_deps}
use mecone.Corpus.Requires.Cycles.{check_requires_iff}
use mecone.Corpus.Selection.{check_filter, select, unless_empty}
use mecone.Corpus.Selection.Closure.{Needed, select-Needed}
use mecone.Corpus.Loaded.{IsLoaded, add-IsLoaded, index_test-IsLoaded}
use mecone.Examples.Texts.{fixed_times}
use mecone.Examples.Checks.{literal}
use mecone.Examples.Definitions.{decoded_test}

abbrev basics : Group
basics = record {
  id = str "basics";
  title = str "Basics";
  refs = [];
  tests = some decoded_test ∷ none ∷ some decoded_test ∷ [];
}

abbrev caching : Suite
caching = record { id = str "caching"; title = str "Caching"; groups = basics ∷ [] }

empty-IsLoaded : IsLoaded fixed_times literal empty_corpus
unfolding Maps.lookup
empty-IsLoaded = record {
  cited = tt;
  indexed = tt;
  distinct = λ i j t u a b same. absurd (cc);
  named = λ id t k. absurd (cc);
}

add-IsLoaded_example : IsLoaded fixed_times literal (add fixed_times literal caching empty_corpus).0
add-IsLoaded_example = add-IsLoaded fixed_times literal caching empty_corpus empty-IsLoaded

-- A test that requires the first one, and one that nothing asks for.
abbrev pub again : Decoded
again = record decoded_test { id = str "again"; requires = str "page" ∷ [] }

abbrev other : Decoded
other = record decoded_test { id = str "other" }

abbrev pub indexed : Decoded → Corpus → Corpus
indexed t c = (index_test fixed_times literal (str "chained/basics") t c).0

abbrev pub chained_corpus : Corpus
chained_corpus = record (indexed other (indexed again (indexed decoded_test empty_corpus))) {
  suites = caching ∷ [];
}

cited : (t : Decoded) → t.refs ≡ decoded_test.refs → t.refs ≢ []
cited t same e = cc

indexed-IsLoaded :
    (t : Decoded) (c : Corpus)
    → t.refs ≡ decoded_test.refs
    → IsLoaded fixed_times literal c
    → IsLoaded fixed_times literal (indexed t c)
indexed-IsLoaded t c same v =
    index_test-IsLoaded fixed_times literal (str "chained/basics") t c (cited t same) v

pub chained-IsLoaded : IsLoaded fixed_times literal chained_corpus
chained-IsLoaded =
    let v =
      indexed-IsLoaded other _ refl
        (indexed-IsLoaded again _ refl (indexed-IsLoaded decoded_test _ refl empty-IsLoaded)) in
    record { cited = v.cited; indexed = v.indexed; distinct = v.distinct; named = v.named }

check_requires_iff_example :
    (check_requires chained_corpus ≡ [])
    ↔ All (λ t. Grounded chained_corpus.by_id t.id) chained_corpus.tests
check_requires_iff_example = check_requires_iff fixed_times literal chained_corpus chained-IsLoaded

abbrev same_name : Str → Str → Option Bool
same_name p name = some (eq_str p name)

abbrev only_again : Filter
only_again = record { suites = str "caching" ∷ []; ids = str "again" ∷ []; levels = [] }

pub chained-accepted : check_requires chained_corpus ≡ []
unfolding check_requires unknown_requires unknown_deps visit visit_all visit_deps index_test
    Maps.insert Maps.lookup eq_str
chained-accepted = refl

only_again-checked : check_filter same_name chained_corpus only_again ≡ none
unfolding check_filter index_test has_suite eq_str
only_again-checked = refl

select-Needed_example :
    (keep : Decoded → Bool) × ((t : Decoded)
      → Any (λ u. u ≡ t) chained_corpus.tests
      → (keep t ≡ true)
        ↔ Needed same_name chained_corpus.by_id only_again chained_corpus.tests t.id)
    × (select same_name chained_corpus only_again ≡ unless_empty (filter keep chained_corpus.tests))
select-Needed_example =
    select-Needed same_name fixed_times literal chained_corpus only_again chained-IsLoaded
      chained-accepted only_again-checked
