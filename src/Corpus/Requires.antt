-- ===== src/Corpus/Requires.antt =====
-- pkg/corpus/corpus.go: `checkRequires`, the search for cycles among the requirements. The fuel of the
-- search is one more than there are tests.
pub mod Cycles
pub mod Search
use mecone.Prelude.{ℕ, zero, suc, ◌+◌, none, some, List, [], ◌∷◌, Str, Result, ok, err, length}
use mecone.Maps
use mecone.Maps.{Map, str_key}
use mecone.TestDef.{Decoded}
use mecone.Corpus.{Corpus, CorpusError, in_cycle, nil_test, exhausted, unknown_requires}

-- type visitState; a test that is not visited has no entry
pub data VisitState : Type 0 where
  visiting visited : VisitState

abbrev pub States : Type 0
States = Map Str VisitState

-- the loop of `visit`, with `visit` itself as its first argument
unfoldable pub visit_deps :
    (Decoded → States → Result CorpusError States)
    → Map Str Decoded
    → List Str
    → States
    → Result CorpusError States
visit_deps go by_id [] st = ok st
visit_deps go by_id (dep ∷ deps) st = elim (Maps.lookup dep by_id) [
  | none ↦ err nil_test
  | some t ↦ elim (go t st) [ err e ↦ err e | ok st' ↦ visit_deps go by_id deps st' ]
]

-- func (c *Corpus) visit
unfoldable pub visit : Map Str Decoded → ℕ → Decoded → States → Result CorpusError States
visit by_id zero t st = err exhausted
visit by_id (suc fuel) t st = elim (Maps.lookup t.id st) [
  | some visiting ↦ err (in_cycle t.id)
  | some visited ↦ ok st
  | none ↦ elim (visit_deps (visit by_id fuel) by_id t.requires (Maps.insert t.id visiting st)) [
    | err e ↦ err e
    | ok st' ↦ ok (Maps.insert t.id visited st')
  ]
]

-- the loop of `checkRequires`
unfoldable pub visit_all : Map Str Decoded → List Decoded → States → List CorpusError
visit_all by_id [] st = []
visit_all by_id (t ∷ tests) st = elim (visit by_id (length by_id + 1) t st) [
  | err e ↦ e ∷ []
  | ok st' ↦ visit_all by_id tests st'
]

-- func (c *Corpus) checkRequires
unfoldable pub check_requires : Corpus → List CorpusError
check_requires c = elim (unknown_requires c.by_id c.tests) [
  | e ∷ errs ↦ e ∷ errs
  | [] ↦ visit_all c.by_id c.tests []
]
