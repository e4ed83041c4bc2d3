-- ===== src/Report/Ranking.antt =====
-- pkg/report/targets.go: labels, the order of the targets and the search for a baseline. The label
-- of a run that the loop of `newBaselines` met last wins.
use mecone.Prelude.{
  ◌≡◌, refl, ap, ◌∙◌, Bool, not, Option, none, some, List, [], ◌∷◌, Str, eq_str, ℤ, pos, negsuc,
  leb_ℤ, if◌then◌else◌,
}
use mecone.Maps
use mecone.Maps.{Map, str_key}
use mecone.Sorting.{sort}
use mecone.Results.{Run, Report}
use mecone.Report.{summarize, score, scored}

-- func runLabel
unfoldable pub run_label : Run → Str
run_label run = if not (eq_str run.name []) then run.name else run.target

-- func sortScore
unfoldable pub sort_score : Run → ℤ
sort_score run =
    if not (eq_str run.error [])
    then negsuc 0
    else let (overall, _) = summarize run in
      if not (scored overall) then negsuc 0 else pos (score overall)

-- sortScore(b) - sortScore(a), at most 0
unfoldable pub score_order : Run → Run → Bool
unfolding sort_score
score_order a b = leb_ℤ (sort_score b) (sort_score a)

-- func byScoreDesc
unfoldable pub by_score_desc : List Run → List Run
unfolding score_order
by_score_desc runs = sort score_order runs

-- type baselines struct
pub record Baselines : Type 0 where
  pub by_label : Map Str Run
  pub only : Option Run

unfoldable pub label_all : Map Str Run → List Run → Map Str Run
unfolding run_label
label_all m [] = m
label_all m (run ∷ runs) = label_all (Maps.insert (run_label run) run m) runs

abbrev only_run : List Run → List Run → Option Run
only_run (_ ∷ []) (run ∷ []) = some run
only_run _ _ = none

-- func newBaselines
unfoldable pub new_baselines : Report → Option Report → Baselines
unfolding label_all
new_baselines rep none = record { by_label = []; only = none }
new_baselines rep (some baseline) = record {
  by_label = label_all [] baseline.runs;
  only = only_run rep.runs baseline.runs;
}

-- func (b baselines) find
unfoldable pub find : Baselines → Run → Option Run
unfolding run_label
find b run = elim (Maps.lookup (run_label run) b.by_label) [ some prev ↦ some prev | none ↦ b.only ]

-- The last of the runs with a label, or the one given.
abbrev pub last_labelled : Option Run → Str → List Run → Option Run
last_labelled o l [] = o
last_labelled o l (run ∷ runs) =
    last_labelled (if eq_str (run_label run) l then some run else o) l runs

label_all-lookup :
    (m : Map Str Run) (l : Str) (runs : List Run)
    → Maps.lookup l (label_all m runs) ≡ last_labelled (Maps.lookup l m) l runs
unfolding label_all
label_all-lookup m l [] = refl
label_all-lookup m l (run ∷ runs) =
    label_all-lookup (Maps.insert (run_label run) run m) l runs
    ∙ ap (λ o. last_labelled o l runs) (Maps.lookup-insert (run_label run) l run m)

-- A baseline with the label of the run is found, the last one if there are several.
find-labelled :
    (rep baseline : Report) (run prev : Run)
    → last_labelled none (run_label run) baseline.runs ≡ some prev
    → find (new_baselines rep (some baseline)) run ≡ some prev
unfolding find new_baselines Maps.lookup
find-labelled rep baseline run prev h =
    let found = label_all-lookup [] (run_label run) baseline.runs ∙ h in rw (found, find) refl
