-- ===== src/Corpus.antt =====
-- pkg/corpus/corpus.go: the tests of the suites, under their IDs, and the selection of tests. Reading
-- and decoding the files is the libraries', and so is path.Match. A test is not changed any more once
-- it is in the corpus, so a map of tests stands for a map of pointers to them.
pub mod Loaded
pub mod Marks
pub mod Requires
pub mod Selection
use mecone.Prelude.{
  ◌+◌, ◌/◌, Bool, true, false, ◌&&◌, not, Option, none, some, List, [], ◌∷◌, ◌++◌, Str, str, eq_str,
  ltb, ◌==◌, if◌then◌else◌, length, any,
}
use mecone.Maps
use mecone.Maps.{Map, str_key}
use mecone.Strings.{trim_space}
use mecone.Protocol.Lines.{Times}
use mecone.Proto.{contains}
use mecone.TestDef.{Decoded, valid_id, ref_valid}
use mecone.TestDef.Validate.{Problem, validate}
use mecone.Check.{Patterns}

-- type Group struct, with entries that a file may leave empty
pub record Group : Type 0 where
  pub id : Str
  pub title : Str
  pub refs : List Str
  pub tests : List (Option Decoded)

-- type Suite struct
pub record Suite : Type 0 where
  pub id : Str
  pub title : Str
  pub groups : List Group

-- type Corpus struct
pub record Corpus : Type 0 where
  pub suites : List Suite
  pub tests : List Decoded
  pub by_id : Map Str Decoded

-- the corpus that `Load` starts with
abbrev pub empty_corpus : Corpus
empty_corpus = record { suites = []; tests = []; by_id = [] }

-- An error that ends loading. `nil_test` marks the use of a test that no ID stands for, and `exhausted`
-- a search that ran out of fuel.
pub data CorpusError : Type 0 where
  bad_suite_id bad_group_id no_group_title empty_test : (at : Str) → CorpusError
  bad_group_ref : (at ref : Str) → CorpusError
  invalid_test : (at : Str) → List Problem → CorpusError
  no_refs already_used unknown_required : (id at : Str) → CorpusError
  in_cycle : (id : Str) → CorpusError
  nil_test exhausted : CorpusError

-- func blank
unfoldable pub blank : Str → Bool
blank s = eq_str (trim_space s) []

abbrev bad_refs : Str → List Str → List CorpusError
bad_refs at [] = []
bad_refs at (r ∷ refs) =
    if not (ref_valid r) then bad_group_ref at r ∷ bad_refs at refs else bad_refs at refs

-- func checkGroup
unfoldable pub check_group : Str → Group → List CorpusError
check_group at g =
    (if not (valid_id g.id) then bad_group_id at ∷ [] else [])
    ++ ((if blank g.title then no_group_title at ∷ [] else []) ++ bad_refs at g.refs)

module _ (times : Times) (patterns : Patterns) where
  -- t.Suite, t.Group = s.ID, g.ID, and the group's refs for a test without refs
  abbrev pub placed : Suite → Group → Decoded → Decoded
  placed s g t = record t { suite = s.id; group = g.id }

  abbrev pub referenced : Group → Decoded → Decoded
  referenced g t = elim t.refs [ [] ↦ record t { refs = g.refs } | _ ∷ _ ↦ t ]

  -- the end of `addTest`, from the search for the ID on
  unfoldable pub index_test : Str → Decoded → Corpus → Corpus × List CorpusError
  index_test at t c = elim (Maps.lookup t.id c.by_id) [
    | some prev ↦ (c, already_used t.id at ∷ [])
    | none ↦ (record c { tests = c.tests ++ t ∷ []; by_id = Maps.insert t.id t c.by_id }, [])
  ]

  -- func (c *Corpus) addTest
  unfoldable pub add_test :
      Str → Suite → Group → Option Decoded → Corpus → Corpus × List CorpusError
  add_test at s g none c = (c, empty_test at ∷ [])
  add_test at s g (some t) c = elim (validate times patterns (placed s g t)) [
    | p ∷ ps ↦ (c, invalid_test at (p ∷ ps) ∷ [])
    | [] ↦ elim ((referenced g (placed s g t)).refs) [
      | [] ↦ (c, no_refs t.id at ∷ [])
      | _ ∷ _ ↦ index_test at (referenced g (placed s g t)) c
    ]
  ]

  -- the loop of `addGroup`, with the errors so far
  unfoldable pub add_tests :
      Str
      → Suite
      → Group
      → List (Option Decoded)
      → Corpus × List CorpusError
      → Corpus × List CorpusError
  add_tests at s g [] acc = acc
  add_tests at s g (t ∷ tests) (c, errs) =
      let (c', more) = add_test at s g t c in add_tests at s g tests (c', errs ++ more)

  -- func (c *Corpus) addGroup
  unfoldable pub add_group : Suite → Group → Corpus → Corpus × List CorpusError
  add_group s g c =
      let at = s.id ++ (str "/" ++ g.id) in add_tests at s g g.tests (c, check_group at g)

  -- the loop of `add`, with the errors so far
  unfoldable pub add_groups :
      Suite → List Group → Corpus × List CorpusError → Corpus × List CorpusError
  add_groups s [] acc = acc
  add_groups s (g ∷ groups) (c, errs) =
      let (c', more) = add_group s g c in add_groups s groups (c', errs ++ more)

  -- func (c *Corpus) add
  unfoldable pub add : Suite → Corpus → Corpus × List CorpusError
  add s c =
      let (c', errs) =
        add_groups s s.groups (c, if not (valid_id s.id) then bad_suite_id s.id ∷ [] else []) in
      (record c' { suites = c'.suites ++ s ∷ [] }, errs)

-- func (c *Corpus) unknownRequires
unfoldable pub unknown_deps : Map Str Decoded → Str → List Str → List CorpusError
unknown_deps by_id id [] = []
unknown_deps by_id id (dep ∷ deps) = elim (Maps.lookup dep by_id) [
  | none ↦ unknown_required dep id ∷ unknown_deps by_id id deps
  | some _ ↦ unknown_deps by_id id deps
]

unfoldable pub unknown_requires : Map Str Decoded → List Decoded → List CorpusError
unknown_requires by_id [] = []
unknown_requires by_id (t ∷ tests) =
    unknown_deps by_id t.id t.requires ++ unknown_requires by_id tests

-- type Filter struct
pub record Filter : Type 0 where
  pub suites : List Str
  pub ids : List Str
  pub levels : List Str

-- `path_match pattern name` is path.Match, where none is a malformed pattern.
module _ (path_match : Str → Str → Option Bool) where
  abbrev any_match : Str → List Str → Bool
  any_match id [] = false
  any_match id (p ∷ ps) = elim (path_match p id) [ some true ↦ true | _ ↦ any_match id ps ]

  -- func (f Filter) matches
  unfoldable pub matches : Filter → Decoded → Bool
  matches f t =
      if ltb 0 (length f.suites) && not (contains f.suites t.suite)
      then false
      else if ltb 0 (length f.levels) && not (contains f.levels t.level)
      then false
      else if length f.ids == 0
      then true
      else any_match t.id f.ids

-- func (c *Corpus) hasSuite
unfoldable pub has_suite : Corpus → Str → Bool
has_suite c id = any (λ s. eq_str s.id id) c.suites
