-- ===== src/Config/EnvFile/Merge.antt =====
-- One round of the loop of `mergeEnvFile`, for the key of the line and for the others.
pub mod RoundTrip
use ragpolyglot_demo.Base.{
  ℕ, ◌+◌, ◌≤◌, ◌≡◌, refl, sym, ap, ◌∙◌, Bool, true, false, ◌||◌, not, Option, none, some, List, [],
  ◌∷◌, ◌++◌, ◌==◌, ◌⊎◌, inl, inr, any, arith, if◌then◌else◌, All, Bool-cases, Option-cases,
}
use ragpolyglot_demo.Base.Text.{Text, str_eq, str_eq_iff}
use ragpolyglot_demo.Base.Dict.{
  Dict, lookup, insert, erase, lookup-erase, NodupKeys, erase-NodupKeys,
}
use ragpolyglot_demo.Config.EnvFile.{
  assignment, assignment_line, replaced, merge_at, merge_line, merge_lines, new_lines,
}
use ragpolyglot_demo.Config.EnvFile.Lines.{set_to, value_of, IsLine}
use ragpolyglot_demo.Config.EnvFile.Format.{
  is_plain_key, is_plain_value, assignment-assignment_line, assignment_line-no_break,
}

-- Every key and value can be written as it is.
abbrev pub IsPlain : Dict Text → Type 0
IsPlain [] = Unit
IsPlain ((k, v) ∷ m) = (is_plain_key k ≡ true) × (is_plain_value v ≡ true) × IsPlain m

lookup-IsPlain :
    (k v : Text) (m : Dict Text)
    → IsPlain m
    → lookup k m ≡ some v
    → (is_plain_key k ≡ true) × (is_plain_value v ≡ true)
unfolding lookup
lookup-IsPlain k v [] p h = cc
lookup-IsPlain k v ((j, w) ∷ m) p h =
    ground (arith, p.0, p.1, str_eq_iff k j, lookup-IsPlain k v m p.2)

erase-IsPlain : (k : Text) (m : Dict Text) → IsPlain m → IsPlain (erase k m)
unfolding erase
erase-IsPlain k [] p = tt
erase-IsPlain k ((j, w) ∷ m) p = ground (arith, erase-IsPlain k m p.2)

pub insert-IsPlain :
    (k v : Text) (m : Dict Text)
    → is_plain_key k ≡ true
    → is_plain_value v ≡ true
    → IsPlain m
    → IsPlain (insert k v m)
unfolding insert
insert-IsPlain k v [] p q h = (p, q, tt)
insert-IsPlain k v ((j, w) ∷ m) p q h = ground (arith, p, q, h, insert-IsPlain k v m p q h.2)

-- What a round of the loop keeps.
replaced-keeps :
    (raw key : Text) (o : Option Text) (m : Dict Text)
    → lookup key m ≡ o
    → IsPlain m
    → NodupKeys m
    → IsLine raw
    → IsLine (replaced raw key o m).0
      × IsPlain (replaced raw key o m).1
      × NodupKeys (replaced raw key o m).1
replaced-keeps raw key none m e p n l = (l, p, n)
replaced-keeps raw key (some v) m e p n l =
    let (k', v') = lookup-IsPlain key v m p e in
    (assignment_line-no_break key v k' v', erase-IsPlain key m p, erase-NodupKeys key m n)

pub merge_at-keeps :
    (raw : Text) (a : Option (Text × Text)) (m : Dict Text)
    → IsPlain m
    → NodupKeys m
    → IsLine raw
    → IsLine (merge_at raw a m).0 × IsPlain (merge_at raw a m).1 × NodupKeys (merge_at raw a m).1
merge_at-keeps raw none m p n l = (l, p, n)
merge_at-keeps raw (some (key, w)) m p n l = replaced-keeps raw key (lookup key m) m refl p n l

pub merge_lines-keeps :
    (ls : List Text) (m : Dict Text)
    → IsPlain m
    → NodupKeys m
    → All IsLine ls
    → All IsLine (merge_lines ls m).0
      × IsPlain (merge_lines ls m).1
      × NodupKeys (merge_lines ls m).1
unfolding merge_lines merge_line
merge_lines-keeps [] m p n l = (tt, p, n)
merge_lines-keeps (raw ∷ rest) m p n l =
    let (l', p', n') = merge_at-keeps raw (assignment raw) m p n l.0 in
    let (ls, q, n'') = merge_lines-keeps rest (merge_line raw m).1 p' n' l.1 in ((l', ls), q, n'')

module _ (k : Text) where
  -- Whether an assignment is to the key.
  abbrev pub hits : Option (Text × Text) → Bool
  hits none = false
  hits (some (j, w)) = str_eq k j

  -- How many lines assign to the key.
  abbrev pub times : List Text → ℕ
  times [] = 0
  times (l ∷ ls) = (if hits (assignment l) then 1 else 0) + times ls

  -- A round for a line that does not concern the key, or whose key has no update.
  abbrev Passes : Text → Option (Text × Text) → Option Text → Text × Dict Text → Type 0
  Passes raw a o out =
      ((old : Option Text) → set_to k (assignment out.0) old ≡ set_to k a old)
      × (lookup k out.1 ≡ o)

  -- A round that writes the value.
  abbrev Writes : Text → Text × Dict Text → Type 0
  Writes v out =
      ((old : Option Text) → set_to k (assignment out.0) old ≡ some v) × (lookup k out.1 ≡ none)

  absent-apart :
      (j v : Text) (m : Dict Text) → lookup j m ≡ some v → lookup k m ≡ none → str_eq k j ≡ false
  absent-apart j v m e h = elim (Bool-cases (str_eq k j)) [
    | inl same ↦ cc (ap (λ t. lookup t m) ((str_eq_iff k j).0 same), e, h)
    | inr apart ↦ apart
  ]

  replaced-other :
      (raw j w : Text) (o' : Option Text) (m : Dict Text) (o : Option Text)
      → assignment raw ≡ some (j, w)
      → lookup j m ≡ o'
      → IsPlain m
      → lookup k m ≡ o
      → (str_eq k j ≡ false) ⊎ (o ≡ none)
      → Passes raw (some (j, w)) o (replaced raw j o' m)
  replaced-other raw j w none m o e e' p h c = ((λ old. ap (λ a. set_to k a old) e), h)
  replaced-other raw j w (some v) m o e e' p h c =
      let (k', v') = lookup-IsPlain j v m p e' in
      let apart : str_eq k j ≡ false = elim c [
        | inl a ↦ a
        | inr n ↦ absent-apart j v m e' (h ∙ n)
      ] in
      (
        (λ old. ap (λ a. set_to k a old) (assignment-assignment_line j v k' v') ∙ rw apart refl),
        lookup-erase k j m ∙ rw apart h,
      )

  pub line-absent :
      (raw : Text) (a : Option (Text × Text)) (m : Dict Text)
      → assignment raw ≡ a
      → IsPlain m
      → lookup k m ≡ none
      → Passes raw a none (merge_at raw a m)
  line-absent raw none m e p h = ((λ old. ap (λ a. set_to k a old) e), h)
  line-absent raw (some (j, w)) m e p h =
      replaced-other raw j w (lookup j m) m none e refl p h (inr refl)

  pub line-missed :
      (raw : Text) (a : Option (Text × Text)) (m : Dict Text) (v : Text)
      → assignment raw ≡ a
      → IsPlain m
      → lookup k m ≡ some v
      → hits a ≡ false
      → Passes raw a (some v) (merge_at raw a m)
  line-missed raw none m v e p h n = ((λ old. ap (λ a. set_to k a old) e), h)
  line-missed raw (some (j, w)) m v e p h n =
      replaced-other raw j w (lookup j m) m (some v) e refl p h (inl n)

  replaced-hit :
      (raw j : Text) (o : Option Text) (m : Dict Text) (v : Text)
      → lookup j m ≡ o
      → IsPlain m
      → o ≡ some v
      → str_eq k j ≡ true
      → Writes v (replaced raw j o m)
  replaced-hit raw j none m v e p h s = cc
  replaced-hit raw j (some v') m v e p h s =
      let (k', p') = lookup-IsPlain j v' m p e in
      (
        (λ old. ap (λ a. set_to k a old) (assignment-assignment_line j v' k' p') ∙ rw s h),
        lookup-erase k j m ∙ rw s refl,
      )

  pub line-hit :
      (raw : Text) (a : Option (Text × Text)) (m : Dict Text) (v : Text)
      → IsPlain m
      → lookup k m ≡ some v
      → hits a ≡ true
      → Writes v (merge_at raw a m)
  line-hit raw none m v p h n = cc
  line-hit raw (some (j, w)) m v p h n =
      replaced-hit raw j (lookup j m) m v refl p
        (ap (λ t. lookup t m) (sym ((str_eq_iff k j).0 n)) ∙ h) n
