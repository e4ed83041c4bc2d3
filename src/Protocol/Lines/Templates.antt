-- ===== src/Protocol/Lines/Templates.antt =====
-- pkg/protocol/lines.go: theorems about expandTemplates, with the texts that its results are
-- compared with.
use mathlib.Core.List.{append_assoc}
use mathlib.Core.Path.{subst}
use mecone.Prelude.{
  ℕ, zero, suc, ◌<◌, ◌≡◌, refl, ◌≢◌, true, false, none, ◌++◌, Str, ℤ, Result, ok, err, length, inl,
  inr, Bool-cases, Result-cases, arith, ◌∙◌, sym,
}
use mecone.Strings.{cut}
use mecone.Strings.Laws.{
  Lacks, length-cut, cut-before-Lacks, cut-missing-Lacks, cut-missing, cut-found,
}
use mecone.Protocol.Lines.{
  Times, TemplateError, exhausted, template_open, template_close, parse_template, expand_loop,
  expand_templates, expand, check_templates,
}

-- A text that parses does not run out of fuel.
parse_template-ne-exhausted : (times : Times) (t : Str) → parse_template times t ≢ err exhausted
unfolding parse_template
parse_template-ne-exhausted times t = ground arith

abbrev IsOk : Result TemplateError Str → Type 0
IsOk (ok _) = Unit
IsOk (err _) = ⊥

-- Two results fail alike, or both succeed.
abbrev Alike : Result TemplateError Str → Result TemplateError Str → Type 0
Alike (ok _) (ok _) = Unit
Alike (err e) (err e') = e ≡ e'
Alike _ _ = ⊥

-- `v` with its templates replaced, at the time `now`, is `out`: an opening brace belongs to a
-- template, the template ends at the next closing brace, and its name says the offset.
pub data Renders (times : Times) (now : ℕ) : Str → Str → Type 0 where
  plain : {v : Str} → Lacks template_open v → Renders times now v v
  fill :
      (before name after out : Str) (d : ℤ)
      → Lacks template_open before
      → Lacks template_close name
      → parse_template times name ≡ ok d
      → Renders times now after out
      → Renders times now
          (before ++ (template_open ++ (name ++ (template_close ++ after))))
          (before ++ (times.http_date now d ++ out))

module _ (times : Times) where
  -- The loop needs fewer rounds than `rest` has characters.
  expand_loop-ends :
      (fuel now : ℕ) (out rest : Str)
      → length rest < fuel
      → expand_loop times fuel now out rest ≢ err exhausted
  unfolding expand_loop
  expand_loop-ends zero now out rest h = absurd (omega arith)
  expand_loop-ends (suc fuel) now out rest h =
      let (name, after, closed) = cut rest template_close in
      let (before, rest', found) = cut after template_open in
      elim (Result-cases (parse_template times name)) [
        | inl (d, e) ↦ ground (
          arith,
          length-cut rest template_close,
          length-cut after template_open,
          expand_loop-ends fuel now (out ++ (times.http_date now d ++ before)) rest',
        )
        | inr (x, e) ↦ ground (arith, parse_template-ne-exhausted times name)
      ]

  -- Expansion never runs out of fuel, whatever the text.
  pub expand_templates-ends : (v : Str) (now : ℕ) → expand_templates times v now ≢ err exhausted
  unfolding expand_templates
  expand_templates-ends v now = ground (
    arith,
    length-cut v template_open,
    expand_loop-ends (length v) now (cut v template_open).0 (cut v template_open).1,
  )

  -- The loop fails alike whatever the time and whatever is written so far.
  expand_loop-Alike :
      (fuel now now' : ℕ) (out out' rest : Str)
      → Alike (expand_loop times fuel now out rest) (expand_loop times fuel now' out' rest)
  unfolding expand_loop
  expand_loop-Alike zero now now' out out' rest = refl
  expand_loop-Alike (suc fuel) now now' out out' rest =
      let (name, after, closed) = cut rest template_close in
      let (before, rest', found) = cut after template_open in
      elim (Result-cases (parse_template times name)) [
        | inl (d, e) ↦ ground (
          arith,
          expand_loop-Alike fuel now now' (out ++ (times.http_date now d ++ before))
              (out' ++ (times.http_date now' d ++ before)) rest',
        )
        | inr (x, e) ↦ ground arith
      ]

  expand_templates-Alike :
      (v : Str) (now now' : ℕ)
      → Alike (expand_templates times v now) (expand_templates times v now')
  unfolding expand_templates
  expand_templates-Alike v now now' = ground (
    arith,
    expand_loop-Alike (length v) now now' (cut v template_open).0 (cut v template_open).0
        (cut v template_open).1,
  )

  -- What the loop appends: the rest with its templates replaced.
  record Tail (now : ℕ) (rest tail : Str) : Type 0 where
    name : Str
    after : Str
    expanded : Str
    offset : ℤ
    split : rest ≡ name ++ (template_close ++ after)
    no_close : Lacks template_close name
    parsed : parse_template times name ≡ ok offset
    renders : Renders times now after expanded
    wrote : tail ≡ times.http_date now offset ++ expanded

  Tail-Renders :
      (now : ℕ) (before rest tail : Str)
      → Lacks template_open before
      → Tail now rest tail
      → Renders times now (before ++ (template_open ++ rest)) (before ++ tail)
  Tail-Renders now before rest tail h t =
      rw (t.split, t.wrote)
        (fill before t.name t.after t.expanded t.offset h t.no_close t.parsed t.renders)

  -- The text after a closed template, in the round that ends the loop and in one that goes on.
  last_Renders :
      (now : ℕ) (after : Str)
      → (cut after template_open).2 ≡ false
      → Renders times now after (cut after template_open).0
  last_Renders now after missing =
      rw (cut-missing after template_open missing) (plain (cut-missing-Lacks _ _ after missing))

  next_Renders :
      (now : ℕ) (after tail : Str)
      → (cut after template_open).2 ≡ true
      → Tail now (cut after template_open).1 tail
      → Renders times now after ((cut after template_open).0 ++ tail)
  next_Renders now after tail found t =
      subst (λ v. Renders times now v ((cut after template_open).0 ++ tail))
        (sym (cut-found after template_open found))
        (Tail-Renders now _ _ tail (cut-before-Lacks _ _ after) t)

  expand_loop-Tail :
      (fuel now : ℕ) (out rest result : Str)
      → expand_loop times fuel now out rest ≡ ok result
      → (tail : Str) × (result ≡ out ++ tail) × Tail now rest tail
  unfolding expand_loop
  expand_loop-Tail zero now out rest result h = cc
  expand_loop-Tail (suc fuel) now out rest result h =
      let (name, after, closed) = cut rest template_close in
      let (before, rest', found) = cut after template_open in
      elim (Result-cases (parse_template times name)) [
        | inr (x, e) ↦ absurd (ground arith)
        | inl (d, e) ↦
            let date = times.http_date now d in
            let ends : closed ≡ true = ground arith in
            let tail_of = λ (expanded : Str) (r : Renders times now after expanded).
              let t : Tail now rest (date ++ expanded) = record {
                name = name;
                after = after;
                expanded = expanded;
                offset = d;
                split = cut-found rest template_close ends;
                no_close = cut-before-Lacks _ _ rest;
                parsed = e;
                renders = r;
                wrote = refl;
              } in
              t in
            elim (Bool-cases found) [
              | inl more ↦
                  let (tail, wrote, t) =
                    expand_loop-Tail fuel now (out ++ (date ++ before)) rest' result
                      (ground arith) in
                  (
                    date ++ (before ++ tail),
                    wrote ∙ simp append_assoc,
                    tail_of (before ++ tail) (next_Renders now after tail more t),
                  )
              | inr last ↦
                  (date ++ before, ground arith, tail_of before (last_Renders now after last))
            ]
      ]

  -- A successful expansion replaces exactly the templates of the text, each by its date.
  pub expand_templates-Renders :
      (v : Str) (now : ℕ) (out : Str)
      → expand_templates times v now ≡ ok out
      → Renders times now v out
  unfolding expand_templates
  expand_templates-Renders v now out h = elim (Bool-cases (cut v template_open).2) [
    | inl found ↦
        let (tail, wrote, t) =
          expand_loop-Tail (length v) now (cut v template_open).0 (cut v template_open).1 out
            (ground arith) in
        rw wrote (next_Renders now v tail found t)
    | inr missing ↦
        let same : v ≡ out = ground arith in rw (← same) (plain (cut-missing-Lacks _ _ v missing))
  ]

  -- A value that passes validation is expanded at every time: `Expand` never leaves it as written,
  -- and what it writes is the text with its templates replaced.
  pub check_templates-expand :
      (v : Str) (now : ℕ)
      → check_templates times v ≡ none
      → Renders times now v (expand times v now)
  unfolding check_templates expand
  check_templates-expand v now h = elim (Result-cases (expand_templates times v now)) [
    | inl (out, e) ↦ rw (e, expand) (expand_templates-Renders v now out e)
    | inr (x, e) ↦ absurd (ground (arith, expand_templates-Alike v 0 now))
  ]
