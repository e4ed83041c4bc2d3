-- ===== src/Cli/Settings.antt =====
-- pkg/cli/catalog.go: theorems about the settings that hold after `apply`.
use mecone.Prelude.{
  ◌≡◌, ◌≢◌, refl, ap, ◌∙◌, inl, inr, Bool, true, false, ◌&&◌, not, List, [], ◌∷◌, ◌++◌, Str, str,
  eq_str, eq_str_iff, Bool-cases, arith, if◌then◌else◌, All, ℤ, pos, leb_ℤ,
}
use mecone.Strings.{split, join, trim_space, contains_rune}
use mecone.Proto.{contains}
use mecone.Config.{Config, resolve}
use mecone.Cli.{
  ClientFlags, trimmed, split_list, or_joined, apply_selectors, apply_strings, apply_scalars, apply,
}

-- A name that a list of them keeps: not empty, without a comma, and without spaces around it.
abbrev pub Clean : Str → Type 0
Clean x = (x ≢ []) × ((trim_space x ≡ x) × (contains_rune x b',' ≡ false))

split-last : (x : Str) → contains_rune x b',' ≡ false → split b',' x ≡ x ∷ []
unfolding split contains_rune
split-last [] h = refl
split-last (c ∷ x) h = ground (arith, split-last x)

split-append :
    (x s : Str) → contains_rune x b',' ≡ false → split b',' (x ++ b',' ∷ s) ≡ x ∷ split b',' s
unfolding split contains_rune
split-append [] s h = ground arith
split-append (c ∷ x) s h = ground (arith, split-append x s)

split-join :
    (x : Str) (xs : List Str) → All Clean (x ∷ xs) → split b',' (join (x ∷ xs) (str ",")) ≡ x ∷ xs
unfolding join
split-join x [] ((n, (t, c)), cs) = split-last x c
split-join x (y ∷ ys) ((n, (t, c)), cs) =
    split-append x (join (y ∷ ys) (str ",")) c ∙ ap (λ zs. x ∷ zs) (split-join y ys cs)

trimmed-Clean : (xs : List Str) → All Clean xs → trimmed xs ≡ xs
unfolding trimmed
trimmed-Clean [] cs = refl
trimmed-Clean (x ∷ xs) ((n, (t, c)), cs) = elim (Bool-cases (eq_str x [])) [
  | inl e ↦ absurd (n ((eq_str_iff x []).0 e))
  | inr e ↦ rw (t, trimmed, e, trimmed-Clean xs cs) refl
]

-- The list that holds for a selector: the flag's if it was given or the file has none, else the file's.
abbrev pub chosen : Bool → List Str → Str → List Str
chosen given [] flag = split_list flag
chosen given (x ∷ xs) flag = if given then split_list flag else x ∷ xs

chosen-or_joined :
    (given : Bool) (xs : List Str) (flag : Str)
    → All Clean xs
    → split_list (or_joined given xs flag) ≡ chosen given xs flag
unfolding split_list
chosen-or_joined given [] flag cs = refl
chosen-or_joined true (x ∷ xs) flag cs = refl
chosen-or_joined false (x ∷ xs) flag cs =
    ap trimmed (split-join x xs cs) ∙ trimmed-Clean (x ∷ xs) cs

-- What the setting of a flag is: the flag's where it was given or the file has no setting, else the
-- file's.
abbrev pub settled : {A : Type 0} → Bool → Bool → A → A → A
settled true has file flag = flag
settled false false file flag = flag
settled false true file flag = file

abbrev pub positive : ℤ → Bool
positive v = not (leb_ℤ v (pos 0))

settled_if :
    {A : Type 0} (given has : Bool) (file flag : A)
    → (if not given && has then file else flag) ≡ settled given has file flag
settled_if true has file flag = refl
settled_if false true file flag = refl
settled_if false false file flag = refl

abbrev pub listed : List Str → Bool
listed [] = false
listed (x ∷ xs) = true

or_joined-settled :
    (given : Bool) (xs : List Str) (flag : Str)
    → or_joined given xs flag ≡ settled given (listed xs) (join xs (str ",")) flag
or_joined-settled true [] flag = refl
or_joined-settled false [] flag = refl
or_joined-settled true (x ∷ xs) flag = refl
or_joined-settled false (x ∷ xs) flag = refl

given-or_joined :
    (given : Bool) (xs : List Str) (flag : Str) → given ≡ true → or_joined given xs flag ≡ flag
given-or_joined given [] flag h = refl
given-or_joined given (x ∷ xs) flag h = rw h refl

-- The settings that hold for each flag, where `given` has the names of those that were given.
pub record Settled (is_abs : Str → Bool) (join_path : Str → Str → Str) (cfg : Config)
    (given : List Str) (c after : ClientFlags) : Type 0 where
  pub suites :
      split_list after.suites ≡ chosen (contains given (str "suites")) cfg.run.suites c.suites
  pub tests : split_list after.tests ≡ chosen (contains given (str "tests")) cfg.run.tests c.tests
  pub levels :
      split_list after.levels ≡ chosen (contains given (str "levels")) cfg.run.levels c.levels
  pub protos :
      after.protos
      ≡ settled
          (contains given (str "proto"))
          (listed cfg.run.protocols)
          (join cfg.run.protocols (str ","))
          c.protos
  pub as_given :
      ((contains given (str "suites") ≡ true) → after.suites ≡ c.suites)
      × ((contains given (str "tests") ≡ true) → after.tests ≡ c.tests)
      × ((contains given (str "levels") ≡ true) → after.levels ≡ c.levels)
  pub concurrency :
      after.concurrency
      ≡ settled
          (contains given (str "concurrency"))
          (positive cfg.run.concurrency)
          cfg.run.concurrency
          c.concurrency
  pub timeout :
      after.timeout
      ≡ settled
          (contains given (str "timeout"))
          (positive cfg.run.timeout)
          cfg.run.timeout
          c.timeout
  pub insecure :
      after.insecure ≡ settled (contains given (str "insecure")) cfg.run.insecure true c.insecure
  pub suites_dir :
      after.suites_dir
      ≡ settled
          (contains given (str "suites-dir"))
          (not (eq_str cfg.run.suites_dir []))
          (resolve is_abs join_path cfg cfg.run.suites_dir)
          c.suites_dir
  pub notice : after.notice ≡ cfg.notice

-- `apply`, with the test of the directory at the directory.
apply_eq :
    (is_abs : Str → Bool) (join_path : Str → Str → Str) (cfg : Config) (given : List Str)
    (c : ClientFlags)
    → apply is_abs join_path cfg given c
      ≡ record (apply_scalars cfg.run given
          (apply_strings cfg.run given (record c { notice = cfg.notice }))) {
            suites_dir =
                (if not (contains given (str "suites-dir")) && not (eq_str cfg.run.suites_dir [])
                  then resolve is_abs join_path cfg cfg.run.suites_dir
                  else c.suites_dir);
          }
unfolding apply apply_scalars apply_strings apply_selectors
apply_eq is_abs join_path cfg given c =
    elim (Bool-cases
      (not (contains given (str "suites-dir")) && not (eq_str cfg.run.suites_dir []))) [
        | inl e ↦ rw (e, apply) refl
        | inr e ↦ rw (e, apply) refl
      ]

-- A flag that was given wins over the file, and else the file's setting holds, if it has one. This is so
-- of the selectors, the protocols, the concurrency, the timeout, the insecure flag and the directory of
-- the suites; the notice is always the file's. The names that a file lists are those that the command
-- reads from the flag's list, as the file has them, if none is empty, holds a comma, or has spaces
-- around it.
pub apply-Settled :
    (is_abs : Str → Bool) (join_path : Str → Str → Str) (cfg : Config) (given : List Str)
    (c : ClientFlags)
    → All Clean cfg.run.suites
    → All Clean cfg.run.tests
    → All Clean cfg.run.levels
    → Settled is_abs join_path cfg given c (apply is_abs join_path cfg given c)
unfolding apply_scalars apply_strings apply_selectors
apply-Settled is_abs join_path cfg given c suites tests levels =
    let s = chosen-or_joined (contains given (str "suites")) cfg.run.suites c.suites suites in
    let t = chosen-or_joined (contains given (str "tests")) cfg.run.tests c.tests tests in
    let l = chosen-or_joined (contains given (str "levels")) cfg.run.levels c.levels levels in
    let dir =
      settled_if (contains given (str "suites-dir")) (not (eq_str cfg.run.suites_dir []))
        (resolve is_abs join_path cfg cfg.run.suites_dir) c.suites_dir in
    rw (apply_eq is_abs join_path cfg given c) (record {
      suites = s;
      tests = t;
      levels = l;
      protos = or_joined-settled (contains given (str "proto")) cfg.run.protocols c.protos;
      as_given = (
        given-or_joined (contains given (str "suites")) cfg.run.suites c.suites,
        given-or_joined (contains given (str "tests")) cfg.run.tests c.tests,
        given-or_joined (contains given (str "levels")) cfg.run.levels c.levels,
      );
      concurrency =
          settled_if (contains given (str "concurrency")) (positive cfg.run.concurrency)
            cfg.run.concurrency c.concurrency;
      timeout =
          settled_if (contains given (str "timeout")) (positive cfg.run.timeout) cfg.run.timeout
            c.timeout;
      insecure = settled_if (contains given (str "insecure")) cfg.run.insecure true c.insecure;
      suites_dir = dir;
      notice = refl;
    })
