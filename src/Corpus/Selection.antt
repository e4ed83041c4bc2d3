-- ===== src/Corpus/Selection.antt =====
-- pkg/corpus/corpus.go: `Select`, the tests that a filter asks for and all that those require. A map of
-- flags that are only ever set is a map to the unit type. The fuel of the search is one more than there
-- are tests.
pub mod Closure
use mecone.Prelude.{
  ℕ, zero, suc, ◌+◌, Bool, not, Option, none, some, List, [], ◌∷◌, Str, Result, ok, err,
  if◌then◌else◌, length,
}
use mecone.Maps
use mecone.Maps.{Map, str_key}
use mecone.TestDef.{Decoded}
use mecone.Corpus.{Corpus, Filter, matches, has_suite}

-- An error of `Select`. `nil_test` marks the use of a test that no ID stands for, and `exhausted` a
-- search that ran out of fuel.
pub data SelectError : Type 0 where
  unknown_suite bad_pattern : (name : Str) → SelectError
  no_tests nil_test exhausted : SelectError

abbrev pub Chosen : Type 0
Chosen = Map Str Unit

-- the loop of `include`, with `include` itself as its first argument
unfoldable pub include_deps :
    (Decoded → Chosen → Result SelectError Chosen)
    → Map Str Decoded
    → List Str
    → Chosen
    → Result SelectError Chosen
include_deps go by_id [] chosen = ok chosen
include_deps go by_id (dep ∷ deps) chosen = elim (Maps.lookup dep by_id) [
  | none ↦ err nil_test
  | some t ↦ elim (go t chosen) [ err e ↦ err e | ok chosen' ↦ include_deps go by_id deps chosen' ]
]

-- func (c *Corpus) include
unfoldable pub include : Map Str Decoded → ℕ → Decoded → Chosen → Result SelectError Chosen
include by_id zero t chosen = err exhausted
include by_id (suc fuel) t chosen = elim (Maps.lookup t.id chosen) [
  | some _ ↦ ok chosen
  | none ↦ include_deps (include by_id fuel) by_id t.requires (Maps.insert t.id tt chosen)
]

-- the loop of `Select`
abbrev pub kept : Chosen → List Decoded → List Decoded
kept chosen [] = []
kept chosen (t ∷ tests) = elim (Maps.lookup t.id chosen) [
  | some _ ↦ t ∷ kept chosen tests
  | none ↦ kept chosen tests
]

abbrev pub unless_empty : List Decoded → Result SelectError (List Decoded)
unless_empty [] = err no_tests
unless_empty (t ∷ tests) = ok (t ∷ tests)

-- `path_match pattern name` is path.Match, where none is a malformed pattern.
module _ (path_match : Str → Str → Option Bool) where
  -- the loop of `choose`
  unfoldable pub choose_from :
      Map Str Decoded → Filter → List Decoded → Chosen → Result SelectError Chosen
  choose_from by_id f [] chosen = ok chosen
  choose_from by_id f (t ∷ tests) chosen =
      if matches path_match f t
      then elim (include by_id (length by_id + 1) t chosen) [
        | err e ↦ err e
        | ok chosen' ↦ choose_from by_id f tests chosen'
      ]
      else choose_from by_id f tests chosen

  -- func (c *Corpus) choose
  unfoldable pub choose : Corpus → Filter → Result SelectError Chosen
  choose c f = choose_from c.by_id f c.tests []

  abbrev check_patterns : List Str → Option SelectError
  check_patterns [] = none
  check_patterns (p ∷ ps) = elim (path_match p []) [
    | none ↦ some (bad_pattern p)
    | some _ ↦ check_patterns ps
  ]

  abbrev check_suites : Corpus → List Str → List Str → Option SelectError
  check_suites c [] patterns = check_patterns patterns
  check_suites c (s ∷ suites) patterns =
      if not (has_suite c s) then some (unknown_suite s) else check_suites c suites patterns

  -- func (c *Corpus) checkFilter
  unfoldable pub check_filter : Corpus → Filter → Option SelectError
  check_filter c f = check_suites c f.suites f.ids

  -- func (c *Corpus) Select
  unfoldable pub select : Corpus → Filter → Result SelectError (List Decoded)
  select c f = elim (check_filter c f) [
    | some e ↦ err e
    | none ↦ elim (choose c f) [ err e ↦ err e | ok chosen ↦ unless_empty (kept chosen c.tests) ]
  ]
