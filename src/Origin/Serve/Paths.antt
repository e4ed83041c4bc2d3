-- ===== src/Origin/Serve/Paths.antt =====
-- The routes of pkg/origin/control.go and TestPath of pkg/protocol/ids.go: which test a request path
-- leads to.
use mathlib.Core.List.{append-nil}
use mecone.Prelude.{
  ◌<◌, ◌≡◌, ◌≢◌, refl, ap, ◌∙◌, inl, inr, Bool, true, false, none, some, List, [], ◌∷◌, ◌++◌, Str,
  str, eq_str, eq_str_iff, Bool-cases, arith, length, all, if◌then◌else◌,
}
use mecone.Strings.{trim_prefix, split, cut, cut_prefix}
use mecone.Strings.Laws.{
  cut_prefix-append, cut-one, cut-one_missing, split-one, split-one_missing, Without,
}
use mecone.Protocol.{test_prefix}
use mecone.Protocol.Ids.{valid_id, is_lower_hex, test_path}
use mecone.Protocol.Ids.Isolation.{length-valid_id, suffix, test_path-eq-suffix}
use mecone.Origin.Serve.{clean_segments, is_clean, path_id}

hex-Without_slash : (s : Str) → all is_lower_hex s ≡ true → Without b'/' s
unfolding is_lower_hex
hex-Without_slash [] h = tt
hex-Without_slash (c ∷ s) h = (λ e. ground arith, hex-Without_slash s (ground arith))

valid_id-Without_slash : (id : Str) → valid_id id ≡ true → Without b'/' id
unfolding valid_id
valid_id-Without_slash [] v = tt
valid_id-Without_slash (c ∷ id) v = hex-Without_slash (c ∷ id) (ground arith)

-- A well-formed ID is longer than the segments that a multiplexer takes out.
valid_id-neq : (id other : Str) → valid_id id ≡ true → length other < 32 → eq_str id other ≡ false
valid_id-neq id other v short = elim (Bool-cases (eq_str id other)) [
  | inr e ↦ e
  | inl e ↦
      let same = (eq_str_iff id other).0 e in
      let len = length-valid_id id v in
      let both : length id ≡ length other = ap length same in absurd (omega arith)
]

-- The path of a test is clean if what the test appends is: no empty segment but at its end, and none of
-- dots.
abbrev pub appends_clean : Str → Bool
appends_clean [] = true
appends_clean (c ∷ file) = clean_segments (split b'/' (trim_prefix (c ∷ file) (str "/")))

clean_segments-some :
    (segment : Str) (rest : List Str)
    → eq_str segment [] ≡ false
    → eq_str segment (str ".") ≡ false
    → eq_str segment (str "..") ≡ false
    → rest ≢ []
    → clean_segments (segment ∷ rest) ≡ clean_segments rest
unfolding clean_segments
clean_segments-some segment [] a b c n = absurd (n refl)
clean_segments-some segment (next ∷ more) a b c n = rw (a, b, c) refl

is_clean-append :
    (rest : Str) → is_clean (test_prefix ++ rest) ≡ clean_segments (str "t" ∷ split b'/' rest)
unfolding is_clean cut_prefix split
is_clean-append rest = refl

split-some : (s : Str) → split b'/' s ≢ []
unfolding split
split-some [] h = cc
split-some (c ∷ s) h = ground (arith, split-some s)

is_clean-test_path :
    (id file : Str) → valid_id id ≡ true → is_clean (test_path id file) ≡ appends_clean file
unfolding clean_segments eq_str
is_clean-test_path id [] v =
    let alone : test_path id [] ≡ test_prefix ++ id =
      test_path-eq-suffix id [] ∙ ap (λ s. test_prefix ++ s) (append-nil id) in
    rw
      (
        alone,
        is_clean-append id,
        clean_segments-some (str "t") (split b'/' id) refl refl refl (split-some id),
        split-one_missing b'/' id (valid_id-Without_slash id v),
        clean_segments,
        valid_id-neq id (str ".") v (omega arith),
        valid_id-neq id (str "..") v (omega arith),
      )
      refl
is_clean-test_path id (c ∷ file) v =
    let more = trim_prefix (c ∷ file) (str "/") in
    rw
      (
        test_path-eq-suffix id (c ∷ file),
        is_clean-append (id ++ b'/' ∷ more),
        clean_segments-some (str "t") (split b'/' (id ++ b'/' ∷ more)) refl refl refl
            (split-some (id ++ b'/' ∷ more)),
        split-one b'/' id more (valid_id-Without_slash id v),
        clean_segments-some id (split b'/' more) (valid_id-neq id [] v (omega arith))
            (valid_id-neq id (str ".") v (omega arith)) (valid_id-neq id (str "..") v (omega arith))
            (split-some more),
      )
      refl

cut-suffix : (id file : Str) → valid_id id ≡ true → (cut (id ++ suffix file) (str "/")).0 ≡ id
cut-suffix id [] v = rw (append-nil id, cut-one_missing b'/' id (valid_id-Without_slash id v)) refl
cut-suffix id (c ∷ file) v =
    rw (cut-one b'/' id (trim_prefix (c ∷ file) (str "/")) (valid_id-Without_slash id v)) refl

-- For a request other than CONNECT, the path that TestPath makes for a test leads the origin's routes to the test's ID, if the
-- multiplexer takes what the test appends as it is: no segment of dots, and no empty one but at the end.
-- Every other path is redirected and leads to no test.
pub path_id-test_path :
    (id file : Str)
    → valid_id id ≡ true
    → path_id (test_path id file) ≡ (if appends_clean file then some id else none)
unfolding path_id
path_id-test_path id file v = elim (Bool-cases (appends_clean file)) [
  | inr e ↦ rw (path_id, is_clean-test_path id file v, e) refl
  | inl e ↦
      rw
        (
          path_id,
          is_clean-test_path id file v,
          e,
          test_path-eq-suffix id file,
          cut_prefix-append test_prefix (id ++ suffix file),
          cut-suffix id file v,
          valid_id-neq id [] v (omega arith),
        )
        refl
]
