-- ===== src/Config/EnvFile/Format.antt =====
-- A line that the gateway writes is read back as the assignment that was meant.
use ragpolyglot_demo.Base.{
  ℕ, ◌≡◌, refl, ap, ◌∙◌, Bool, true, false, not, ◌||◌, ◌&&◌, some, [], ◌∷◌, ◌++◌, ◌==◌, any, all,
  any-append, arith, Bool-cases, inl, inr,
}
use ragpolyglot_demo.Base.Text.{Text, trim, trim_start, trim_end, is_space, is_empty}
use ragpolyglot_demo.Config.EnvFile.{
  is_first, is_last, split_at_eq, drop_last, strip_quotes, key_value, clean, assignment,
  needs_quotes, escape, format_env_value, assignment_line,
}

-- A key that a line can carry: no white space, `=` or `#` in it, and not empty.
abbrev key_unit : ℕ → Bool
key_unit c = not (is_space c || c == 61 || c == 35)

abbrev pub is_plain_key : Text → Bool
is_plain_key k = not (is_empty k) && all key_unit k

-- A value that is written without an escape: no line break, double quote or backslash in it.
abbrev value_unit : ℕ → Bool
value_unit c = not (c == 10 || c == 34 || c == 92)

abbrev pub is_plain_value : Text → Bool
is_plain_value v = all value_unit v

-- The last unit, if there is one, is no white space.
abbrev EndsTight : Text → Type 0
EndsTight [] = Unit
EndsTight (c ∷ []) = is_space c ≡ false
EndsTight (c ∷ d ∷ s) = EndsTight (d ∷ s)

trim_end_tight : (s : Text) → EndsTight s → trim_end s ≡ s
unfolding trim_end
trim_end_tight [] h = refl
trim_end_tight (c ∷ []) h = ground (arith, h)
trim_end_tight (c ∷ d ∷ s) h = ground (arith, trim_end_tight (d ∷ s) h)

EndsTight-append : (s : Text) (c : ℕ) (t : Text) → EndsTight (c ∷ t) → EndsTight (s ++ c ∷ t)
EndsTight-append [] c t h = h
EndsTight-append (d ∷ []) c t h = h
EndsTight-append (d ∷ e ∷ s) c t h = EndsTight-append (e ∷ s) c t h

trim_tight : (c : ℕ) (s : Text) → is_space c ≡ false → EndsTight (c ∷ s) → trim (c ∷ s) ≡ c ∷ s
unfolding trim trim_start
trim_tight c s h k = rw h (trim_end_tight (c ∷ s) k)

no_space-EndsTight : (s : Text) → any is_space s ≡ false → EndsTight s
no_space-EndsTight [] h = tt
no_space-EndsTight (c ∷ []) h = ground (arith, h)
no_space-EndsTight (c ∷ d ∷ s) h = no_space-EndsTight (d ∷ s) (ground (arith, h))

trim_no_space : (s : Text) → any is_space s ≡ false → trim s ≡ s
unfolding trim trim_start trim_end
trim_no_space [] h = refl
trim_no_space (c ∷ s) h = trim_tight c s (ground (arith, h)) (no_space-EndsTight (c ∷ s) h)

escape_plain : (v : Text) → is_plain_value v ≡ true → escape v ≡ v
unfolding escape
escape_plain [] h = refl
escape_plain (c ∷ v) h = ground (arith, h, escape_plain v)

drop_last-snoc : (v : Text) (c : ℕ) → drop_last (v ++ c ∷ []) ≡ v
unfolding drop_last
drop_last-snoc [] c = refl
drop_last-snoc (a ∷ []) c = refl
drop_last-snoc (a ∷ b ∷ v) c = ap (λ t. a ∷ t) (drop_last-snoc (b ∷ v) c)

is_last-snoc : (v : Text) (c : ℕ) → is_last c (v ++ c ∷ []) ≡ true
is_last-snoc [] c = ground arith
is_last-snoc (a ∷ []) c = ground arith
is_last-snoc (a ∷ b ∷ v) c = is_last-snoc (b ∷ v) c

quote_is_tight : is_space 34 ≡ false
unfolding is_space
quote_is_tight = refl

eq_is_tight : is_space 61 ≡ false
unfolding is_space
eq_is_tight = refl

-- Between double quotes.
abbrev quoted : Text → Text
quoted v = 34 ∷ (v ++ 34 ∷ [])

strip-quoted : (v : Text) → strip_quotes (trim (quoted v)) ≡ v
unfolding strip_quotes
strip-quoted v =
    rw
      (trim_tight 34 (v ++ 34 ∷ []) quote_is_tight (EndsTight-append (34 ∷ v) 34 [] quote_is_tight))
      (rw (is_last-snoc (34 ∷ v) 34) (drop_last-snoc v 34))

needs_no_quotes :
    (v : Text)
    → needs_quotes v ≡ false
    → (any is_space v ≡ false) × (is_first 34 v ≡ false) × (is_first 39 v ≡ false)
needs_no_quotes [] h = ground arith
needs_no_quotes (c ∷ v) h =
    let rest = needs_no_quotes v (ground (arith, h)) in ground (arith, h, rest.0)

strip-bare : (v : Text) → needs_quotes v ≡ false → strip_quotes (trim v) ≡ v
unfolding strip_quotes
strip-bare v h =
    let (spaces, double, single) = needs_no_quotes v h in
    rw (trim_no_space v spaces, double, single) refl

strip-format : (v : Text) → is_plain_value v ≡ true → strip_quotes (trim (format_env_value v)) ≡ v
unfolding format_env_value
strip-format [] h = strip-bare [] refl
strip-format (c ∷ v) h = elim (Bool-cases (needs_quotes (c ∷ v))) [
  | inl e ↦ rw (e, escape_plain (c ∷ v) h) (strip-quoted (c ∷ v))
  | inr e ↦ rw e (strip-bare (c ∷ v) e)
]

format-EndsTight : (v : Text) → EndsTight (61 ∷ format_env_value v)
unfolding format_env_value
format-EndsTight [] = eq_is_tight
format-EndsTight (c ∷ v) = elim (Bool-cases (needs_quotes (c ∷ v))) [
  | inl e ↦ rw e (EndsTight-append (61 ∷ 34 ∷ escape (c ∷ v)) 34 [] quote_is_tight)
  | inr e ↦ rw e (no_space-EndsTight (c ∷ v) (needs_no_quotes (c ∷ v) e).0)
]

split-key : (k rest : Text) → all key_unit k ≡ true → split_at_eq (k ++ 61 ∷ rest) ≡ some (k, rest)
unfolding split_at_eq
split-key [] rest h = refl
split-key (c ∷ k) rest h =
    let n : (c == 61) ≡ false = ground (arith, h) in
    rw (n, split-key k rest (ground (arith, h))) refl

plain_key-space : (k : Text) → all key_unit k ≡ true → any is_space k ≡ false
plain_key-space [] h = refl
plain_key-space (c ∷ k) h = ground (arith, h, plain_key-space k)

-- The line of a plain key and value assigns the value to the key.
pub assignment-assignment_line :
    (k v : Text)
    → is_plain_key k ≡ true
    → is_plain_value v ≡ true
    → assignment (assignment_line k v) ≡ some (k, v)
unfolding assignment
assignment-assignment_line [] v h p = cc
assignment-assignment_line (c ∷ k) v h p =
    let fv = format_env_value v in
    let units : all key_unit (c ∷ k) ≡ true = h in
    let tight : is_space c ≡ false = ground (arith, h) in
    let mark : (c == 35) ≡ false = ground (arith, h) in
    ap (λ t. clean (key_value t))
      (trim_tight c (k ++ 61 ∷ fv) tight (EndsTight-append (c ∷ k) 61 fv (format-EndsTight v)))
    ∙ rw (mark, split-key (c ∷ k) fv units)
        (rw (trim_no_space (c ∷ k) (plain_key-space (c ∷ k) units), strip-format v p) refl)

tight-no_break : (c : ℕ) → is_space c ≡ false → (c == 10) ≡ false
unfolding is_space
tight-no_break c h = ground (arith, h)

key-no_break : (k : Text) → all key_unit k ≡ true → any (λ c. c == 10) k ≡ false
key-no_break [] h = refl
key-no_break (c ∷ k) h = ground (arith, h, tight-no_break c, key-no_break k)

value-no_break : (v : Text) → is_plain_value v ≡ true → any (λ c. c == 10) v ≡ false
value-no_break [] h = refl
value-no_break (c ∷ v) h = ground (arith, h, value-no_break v)

format-no_break :
    (v : Text) → is_plain_value v ≡ true → any (λ c. c == 10) (format_env_value v) ≡ false
unfolding format_env_value
format-no_break [] h = refl
format-no_break (c ∷ v) h = elim (Bool-cases (needs_quotes (c ∷ v))) [
  | inl e ↦
      rw (e, escape_plain (c ∷ v) h)
        (any-append (λ c. c == 10) (c ∷ v) (34 ∷ []) ∙ ground (arith, value-no_break (c ∷ v) h))
  | inr e ↦ rw e (value-no_break (c ∷ v) h)
]

-- Such a line has no line break in it.
pub assignment_line-no_break :
    (k v : Text)
    → is_plain_key k ≡ true
    → is_plain_value v ≡ true
    → any (λ c. c == 10) (assignment_line k v) ≡ false
assignment_line-no_break k v h p =
    any-append (λ c. c == 10) k (61 ∷ format_env_value v)
    ∙ ground (arith, h, key-no_break k, format-no_break v p)
