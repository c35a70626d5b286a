-- ===== src/Config/EnvFile/Lines.antt =====
-- What the lines of a file assign to one key, and that it does not matter how they are separated.
use ragpolyglot_demo.Base.{
  ◌≡◌, refl, sym, ap, ◌∙◌, true, false, Option, none, some, List, [], ◌∷◌, ◌++◌, ◌==◌, ◌⊎◌, inl,
  inr, any, any-append, append-nil, append_assoc, arith, if◌then◌else◌, All, Bool-cases,
}
use ragpolyglot_demo.Base.Text.{Text, str_eq, trim, trim_start, is_space}
use ragpolyglot_demo.Base.Trim.{trim-snoc}
use ragpolyglot_demo.Base.Dict.{Dict, lookup, lookup-insert}
use ragpolyglot_demo.Config.EnvFile.{
  drop_cr, lines_from, lines, assignment, key_value, clean, set_assigned, assign_all,
  parse_env_assignments, join, newline, has_crlf,
}

drop_cr-cases : (l : Text) → (drop_cr l ≡ l) ⊎ (l ≡ drop_cr l ++ 13 ∷ [])
unfolding drop_cr
drop_cr-cases [] = inl refl
drop_cr-cases (c ∷ []) = ground arith
drop_cr-cases (c ∷ d ∷ s) = ground (arith, drop_cr-cases (d ∷ s))

cr_is_space : is_space 13 ≡ true
unfolding is_space
cr_is_space = refl

assignment-snoc : (l : Text) → assignment (l ++ 13 ∷ []) ≡ assignment l
unfolding assignment
assignment-snoc l = ap (λ t. clean (key_value t)) (trim-snoc l 13 cr_is_space)

assignment-drop_cr : (l : Text) → assignment (drop_cr l) ≡ assignment l
assignment-drop_cr l = elim (drop_cr-cases l) [
  | inl e ↦ ap assignment e
  | inr e ↦ sym (assignment-snoc (drop_cr l)) ∙ sym (ap assignment e)
]

-- A line break of either kind.
abbrev pub IsBreak : Text → Type 0
IsBreak nl = (nl ≡ 10 ∷ []) ⊎ (nl ≡ 13 ∷ 10 ∷ [])

-- There is no line break in a line.
abbrev pub IsLine : Text → Type 0
IsLine l = any (λ c. c == 10) l ≡ false

module _ (k : Text) where
  -- The value of the key behind an assignment, from the one before it.
  abbrev pub set_to : Option (Text × Text) → Option Text → Option Text
  set_to none old = old
  set_to (some (j, v)) old = if str_eq k j then some v else old

  unfoldable pub value_of : List Text → Option Text → Option Text
  value_of [] old = old
  value_of (l ∷ ls) old = value_of ls (set_to (assignment l) old)

  lookup-set_assigned :
      (a : Option (Text × Text)) (out : Dict Text)
      → lookup k (set_assigned a out) ≡ set_to a (lookup k out)
  lookup-set_assigned none out = refl
  lookup-set_assigned (some (j, v)) out = lookup-insert k j v out

  lookup-assign_all :
      (ls : List Text) (out : Dict Text) → lookup k (assign_all ls out) ≡ value_of ls (lookup k out)
  unfolding assign_all value_of
  lookup-assign_all [] out = refl
  lookup-assign_all (l ∷ ls) out =
      lookup-assign_all ls _ ∙ ap (value_of ls) (lookup-set_assigned (assignment l) out)

  pub value_of-append :
      (xs ys : List Text) (old : Option Text)
      → value_of (xs ++ ys) old ≡ value_of ys (value_of xs old)
  unfolding value_of
  value_of-append [] ys old = refl
  value_of-append (x ∷ xs) ys old = value_of-append xs ys _

  -- The lines in front of a line break and behind it.
  lines-break :
      (cur t rest : Text) (old : Option Text)
      → value_of (lines_from cur (t ++ 10 ∷ rest)) old
        ≡ value_of (lines rest) (value_of (lines_from cur t) old)
  unfolding lines_from value_of
  lines-break cur [] rest old =
      ap (λ a. value_of (lines rest) (set_to a old)) (assignment-drop_cr cur)
  lines-break cur (c ∷ t) rest old = elim (Bool-cases (c == 10)) [
    | inl e ↦ rw e (lines-break [] t rest (set_to (assignment (drop_cr cur)) old))
    | inr e ↦ rw e (lines-break (cur ++ c ∷ []) t rest old)
  ]

  -- A text without a line break is one line.
  lines_of_one : (cur t : Text) → any (λ c. c == 10) t ≡ false → lines_from cur t ≡ (cur ++ t) ∷ []
  unfolding lines_from
  lines_of_one cur [] h = ap (λ l. l ∷ []) (sym (append-nil cur))
  lines_of_one cur (c ∷ t) h = elim (Bool-cases (c == 10)) [
    | inl e ↦ ground (arith, e, h)
    | inr e ↦ rw e (
        lines_of_one (cur ++ c ∷ []) t (ground (arith, e, h))
        ∙ ap (λ l. l ∷ []) (append_assoc cur (c ∷ []) t))
  ]

  value_of_one :
      (l : Text) (old : Option Text) → IsLine l → value_of (lines l) old ≡ set_to (assignment l) old
  unfolding value_of
  value_of_one l old h = ap (λ ls. value_of ls old) (lines_of_one [] l h)

  value_of_line :
      (l nl rest : Text) (old : Option Text)
      → IsBreak nl
      → IsLine l
      → value_of (lines (l ++ (nl ++ rest))) old ≡ value_of (lines rest) (set_to (assignment l) old)
  value_of_line l nl rest old (inl e) h =
      rw e (lines-break [] l rest old ∙ ap (value_of (lines rest)) (value_of_one l old h))
  value_of_line l nl rest old (inr e) h = rw e (
      ap (λ t. value_of (lines t) old) (sym (append_assoc l (13 ∷ []) (10 ∷ rest)))
      ∙ lines-break [] (l ++ 13 ∷ []) rest old
      ∙ ap (value_of (lines rest)) (
          value_of_one (l ++ 13 ∷ []) old
            (any-append (λ c. c == 10) l (13 ∷ []) ∙ ground (arith, h))
          ∙ ap (λ a. set_to a old) (assignment-snoc l)))

  nothing_in_empty : (old : Option Text) → value_of (lines []) old ≡ old
  unfolding value_of lines_from assignment trim trim_start
  nothing_in_empty old = refl

  -- Lines that are joined and split again assign what they did.
  pub value_of-join :
      (nl : Text) (ls : List Text) (old : Option Text)
      → IsBreak nl
      → All IsLine ls
      → value_of (lines (join nl ls)) old ≡ value_of ls old
  unfolding join value_of
  value_of-join nl [] old b h = nothing_in_empty old
  value_of-join nl (l ∷ []) old b h = value_of_one l old h.0
  value_of-join nl (l ∷ m ∷ ls) old b h =
      value_of_line l nl (join nl (m ∷ ls)) old b h.0 ∙ value_of-join nl (m ∷ ls) _ b h.1

  lines-cr :
      (cur t : Text) (old : Option Text)
      → value_of (lines_from cur (t ++ 13 ∷ [])) old ≡ value_of (lines_from cur t) old
  unfolding lines_from value_of
  lines-cr cur [] old = ap (λ a. set_to a old) (assignment-snoc cur)
  lines-cr cur (c ∷ t) old = elim (Bool-cases (c == 10)) [
    | inl e ↦ rw e (lines-cr [] t (set_to (assignment (drop_cr cur)) old))
    | inr e ↦ rw e (lines-cr (cur ++ c ∷ []) t old)
  ]

  -- A line break at the end assigns nothing.
  pub value_of-break :
      (t nl : Text) (old : Option Text)
      → IsBreak nl
      → value_of (lines (t ++ nl)) old ≡ value_of (lines t) old
  value_of-break t nl old (inl e) = rw e (lines-break [] t [] old ∙ nothing_in_empty _)
  value_of-break t nl old (inr e) = rw e (
      ap (λ s. value_of (lines s) old) (sym (append_assoc t (13 ∷ []) (10 ∷ [])))
      ∙ lines-break [] (t ++ 13 ∷ []) [] old
      ∙ nothing_in_empty _
      ∙ lines-cr [] t old)

  -- What the file gives the key.
  pub lookup-parse :
      (content : Text) → lookup k (parse_env_assignments content) ≡ value_of (lines content) none
  unfolding parse_env_assignments lookup
  lookup-parse content = lookup-assign_all (lines content) []

pub newline-IsBreak : (content : Text) → IsBreak (newline content)
newline-IsBreak content = elim (Bool-cases (has_crlf content)) [
  | inl e ↦ inr (rw e refl)
  | inr e ↦ inl (rw e refl)
]
