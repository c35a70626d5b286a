-- ===== src/Config/EnvFile/Merge/RoundTrip.antt =====
-- Reading the file that `mergeEnvFile` makes gives the updates, and what the file gave before.
use ragpolyglot_demo.Base.{
  or_option, ◌≤◌, ◌≡◌, refl, sym, ap, ◌∙◌, false, ◌&&◌, not, Option, none, some, List, [], ◌∷◌,
  ◌++◌, ◌==◌, ◌⊎◌, inl, inr, any-append, arith, All-append, if◌then◌else◌, All, Bool-cases,
  Option-cases,
}
use ragpolyglot_demo.Base.Text.{Text, str_eq, str_eq_iff, trim, trim_start}
use ragpolyglot_demo.Base.Dict.{Dict, lookup, NodupKeys}
use ragpolyglot_demo.Config.EnvFile.{
  drop_cr, lines_from, lines, lines_or_none, assignment, merge_line, merge_lines, new_lines,
  appendix, join, newline, close, merge_updates, merge_env_file, parse_env_assignments, ends_blank,
  is_last, ends_with_newline,
}
use ragpolyglot_demo.Config.EnvFile.Lines.{
  set_to, value_of, value_of-append, IsBreak, IsLine, value_of-join, value_of-break, lookup-parse,
  newline-IsBreak,
}
use ragpolyglot_demo.Config.EnvFile.Format.{assignment-assignment_line, assignment_line-no_break}
use ragpolyglot_demo.Config.EnvFile.Merge.{
  IsPlain, merge_at-keeps, merge_lines-keeps, hits, times, line-absent, line-missed, line-hit,
}

module _ (k : Text) where
  set_to-miss :
      (a : Option (Text × Text)) (old : Option Text) → hits k a ≡ false → set_to k a old ≡ old
  set_to-miss none old h = refl
  set_to-miss (some (j, w)) old h = rw h refl

  -- Lines that do not assign to the key leave its value alone.
  value_of-missed : (ls : List Text) (old : Option Text) → times k ls ≡ 0 → value_of k ls old ≡ old
  unfolding value_of
  value_of-missed [] old h = refl
  value_of-missed (l ∷ ls) old h = elim (Bool-cases (hits k (assignment l))) [
    | inl e ↦ ground (arith, e, h)
    | inr e ↦ value_of-missed ls _ (ground (arith, e, h)) ∙ set_to-miss (assignment l) old e
  ]

  -- A key without an update keeps its value.
  merge_lines-absent :
      (ls : List Text) (m : Dict Text) (old : Option Text)
      → IsPlain m
      → NodupKeys m
      → All IsLine ls
      → lookup k m ≡ none
      → (value_of k (merge_lines ls m).0 old ≡ value_of k ls old)
        × (lookup k (merge_lines ls m).1 ≡ none)
  unfolding merge_lines merge_line value_of
  merge_lines-absent [] m old p n l h = (refl, h)
  merge_lines-absent (raw ∷ rest) m old p n l h =
      let (same, absent) = line-absent k raw (assignment raw) m refl p h in
      let (_, p', n') = merge_at-keeps raw (assignment raw) m p n l.0 in
      let (e, absent') = merge_lines-absent rest (merge_line raw m).1 _ p' n' l.1 absent in
      (e ∙ ap (value_of k rest) (same old), absent')

  -- A key with an update gets it, or it stays among the updates that are appended.
  merge_lines-present :
      (ls : List Text) (m : Dict Text) (v : Text) (old : Option Text)
      → IsPlain m
      → NodupKeys m
      → All IsLine ls
      → lookup k m ≡ some v
      → times k ls ≤ 1
      → or_option (lookup k (merge_lines ls m).1) (value_of k (merge_lines ls m).0 old) ≡ some v
  unfolding merge_lines merge_line value_of
  merge_lines-present [] m v old p n l h t = ap (λ o. or_option o old) h
  merge_lines-present (raw ∷ rest) m v old p n l h t =
      let (_, p', n') = merge_at-keeps raw (assignment raw) m p n l.0 in
      elim (Bool-cases (hits k (assignment raw))) [
        | inl e ↦
            let (written, absent) = line-hit k raw (assignment raw) m v p h e in
            let (kept, absent') = merge_lines-absent rest (merge_line raw m).1 _ p' n' l.1 absent in
            ap
              (λ o. or_option o (
                value_of k (merge_lines rest (merge_line raw m).1).0
                  (set_to k (assignment (merge_line raw m).0) old)))
              absent'
            ∙ kept
            ∙ ap (value_of k rest) (written old)
            ∙ value_of-missed rest (some v) (ground (arith, e, t))
        | inr e ↦
            let (_, present) = line-missed k raw (assignment raw) m v refl p h e in
            merge_lines-present rest (merge_line raw m).1 v _ p' n' l.1 present
              (ground (arith, e, t))
      ]

  latest :
      (j w : Text) (m : Dict Text) (old : Option Text)
      → lookup j m ≡ none
      → or_option (lookup k m) (if str_eq k j then some w else old)
        ≡ or_option (if str_eq k j then some w else lookup k m) old
  latest j w m old h = elim (Bool-cases (str_eq k j)) [
    | inl e ↦
        rw e (ap (λ o. or_option o (some w)) (ap (λ t. lookup t m) ((str_eq_iff k j).0 e) ∙ h))
    | inr e ↦ rw e refl
  ]

  -- What the appended lines assign.
  value_of-new_lines :
      (m : Dict Text) (old : Option Text)
      → IsPlain m
      → NodupKeys m
      → value_of k (new_lines m) old ≡ or_option (lookup k m) old
  unfolding value_of new_lines lookup
  value_of-new_lines [] old p n = refl
  value_of-new_lines ((j, w) ∷ m) old p n =
      value_of-new_lines m _ p.2 n.1
      ∙ ap (λ a. or_option (lookup k m) (set_to k a old)) (assignment-assignment_line j w p.0 p.1)
      ∙ latest j w m old n.0

  value_of-appendix :
      (out : List Text) (m : Dict Text) (old : Option Text)
      → IsPlain m
      → NodupKeys m
      → value_of k (appendix out m) old ≡ or_option (lookup k m) old
  unfolding value_of lookup assignment trim trim_start
  value_of-appendix out [] old p n = refl
  value_of-appendix out ((j, w) ∷ m) old p n = elim (Bool-cases (ends_blank out)) [
    | inl e ↦ rw e (value_of-new_lines ((j, w) ∷ m) old p n)
    | inr e ↦ rw e (value_of-new_lines ((j, w) ∷ m) old p n)
  ]

  value_of-close :
      (content nl t : Text) (old : Option Text)
      → IsBreak nl
      → value_of k (lines (close content nl t)) old ≡ value_of k (lines t) old
  value_of-close content nl t old b =
      elim (Bool-cases (is_last 10 content && not (ends_with_newline nl t))) [
        | inl e ↦ rw e (value_of-break k t nl old b)
        | inr e ↦ rw e refl
      ]

  value_of-lines_or_none :
      (content : Text) → value_of k (lines_or_none content) none ≡ value_of k (lines content) none
  unfolding value_of lines_from assignment trim trim_start
  value_of-lines_or_none [] = refl
  value_of-lines_or_none (c ∷ s) = refl

  times-lines_or_none : (content : Text) → times k (lines_or_none content) ≤ times k (lines content)
  times-lines_or_none [] = omega arith
  times-lines_or_none (c ∷ s) = omega arith

-- No line has a line break in it.
drop_cr-IsLine : (l : Text) → IsLine l → IsLine (drop_cr l)
unfolding drop_cr
drop_cr-IsLine [] h = h
drop_cr-IsLine (c ∷ s) h = ground (arith, h, drop_cr-IsLine s)

lines_from-IsLine : (cur s : Text) → IsLine cur → All IsLine (lines_from cur s)
unfolding lines_from
lines_from-IsLine cur [] h = (h, tt)
lines_from-IsLine cur (c ∷ s) h = elim (Bool-cases (c == 10)) [
  | inl e ↦ rw e (drop_cr-IsLine cur h, lines_from-IsLine [] s refl)
  | inr e ↦ rw e (
      lines_from-IsLine (cur ++ c ∷ []) s
        (any-append (λ d. d == 10) cur (c ∷ []) ∙ ground (arith, h, e)))
]

lines_or_none-IsLine : (content : Text) → All IsLine (lines_or_none content)
lines_or_none-IsLine [] = tt
lines_or_none-IsLine (c ∷ s) = lines_from-IsLine [] (c ∷ s) refl

new_lines-IsLine : (m : Dict Text) → IsPlain m → All IsLine (new_lines m)
unfolding new_lines
new_lines-IsLine [] p = tt
new_lines-IsLine ((j, w) ∷ m) p = (assignment_line-no_break j w p.0 p.1, new_lines-IsLine m p.2)

appendix-IsLine : (out : List Text) (m : Dict Text) → IsPlain m → All IsLine (appendix out m)
appendix-IsLine out [] p = tt
appendix-IsLine out ((j, w) ∷ m) p = elim (Bool-cases (ends_blank out)) [
  | inl e ↦ rw e (refl, new_lines-IsLine ((j, w) ∷ m) p)
  | inr e ↦ rw e (refl, (refl, new_lines-IsLine ((j, w) ∷ m) p))
]

module _ (k : Text) where
  value_of-merge_lines :
      (content : Text) (updates : Dict Text)
      → IsPlain updates
      → NodupKeys updates
      → (lookup k updates ≡ none) ⊎ (times k (lines content) ≤ 1)
      → or_option
          (lookup k (merge_lines (lines_or_none content) updates).1)
          (value_of k (merge_lines (lines_or_none content) updates).0 none)
        ≡ or_option (lookup k updates) (value_of k (lines content) none)
  value_of-merge_lines content m p n c = elim (Option-cases (lookup k m)) [
    | inl e ↦
        let (kept, absent) =
          merge_lines-absent k (lines_or_none content) m none p n (lines_or_none-IsLine content)
            e in
        ap (λ o. or_option o (value_of k (merge_lines (lines_or_none content) m).0 none)) absent
        ∙ kept
        ∙ value_of-lines_or_none k content
        ∙ ap (λ o. or_option o (value_of k (lines content) none)) (sym e)
    | inr (v, e) ↦
        merge_lines-present k (lines_or_none content) m v none p n (lines_or_none-IsLine content) e
          (elim c [
            | inl absent ↦ cc (e, absent)
            | inr t ↦ omega (arith, t, times-lines_or_none k content)
          ])
        ∙ ap (λ o. or_option o (value_of k (lines content) none)) (sym e)
  ]

  lookup-merge_updates :
      (content : Text) (updates : Dict Text)
      → IsPlain updates
      → NodupKeys updates
      → (lookup k updates ≡ none) ⊎ (times k (lines content) ≤ 1)
      → lookup k (parse_env_assignments (merge_updates content updates))
        ≡ or_option (lookup k updates) (lookup k (parse_env_assignments content))
  lookup-merge_updates content m p n c =
      let b = newline-IsBreak content in
      let (l, p', n') =
        merge_lines-keeps (lines_or_none content) m p n (lines_or_none-IsLine content) in
      let out = (merge_lines (lines_or_none content) m).0 in
      let remaining = (merge_lines (lines_or_none content) m).1 in
      let all = out ++ appendix out remaining in
      lookup-parse k (merge_updates content m)
      ∙ value_of-close k content (newline content) (join (newline content) all) none b
      ∙ value_of-join k (newline content) all none b
          (All-append IsLine out (appendix out remaining) l (appendix-IsLine out remaining p'))
      ∙ value_of-append k out (appendix out remaining) none
      ∙ value_of-appendix k out remaining (value_of k out none) p' n'
      ∙ value_of-merge_lines content m p n c
      ∙ ap (or_option (lookup k m)) (sym (lookup-parse k content))

  -- Writing updates into a `.env` text and reading it again gives, for a key with an update, the
  -- new value, and for any other key the value it had. The updates have distinct keys, and their
  -- keys and values are plain: they have nothing to escape and no line break. A key with an
  -- update stands on at most one line of the text.
  pub lookup-merge_env_file :
      (content : Text) (updates : Dict Text)
      → IsPlain updates
      → NodupKeys updates
      → (lookup k updates ≡ none) ⊎ (times k (lines content) ≤ 1)
      → lookup k (parse_env_assignments (merge_env_file content updates))
        ≡ or_option (lookup k updates) (lookup k (parse_env_assignments content))
  unfolding merge_env_file lookup
  lookup-merge_env_file content [] p n c = refl
  lookup-merge_env_file content ((j, w) ∷ m) p n c = lookup-merge_updates content ((j, w) ∷ m) p n c
