-- ===== src/Base/Trim.antt =====
-- Laws of `trim`: it keeps what holds of every unit, is empty on white space alone, starts and
-- ends with no white space, and has no effect a second time.
use ragpolyglot_demo.Base.{
  ℕ, All-if, ◌≡◌, refl, ◌∙◌, true, false, ◌&&◌, [], ◌∷◌, ◌++◌, arith, All, all, ap,
}
use ragpolyglot_demo.Base.Text.{Text, is_space, trim_start, trim_end, trim, is_empty}

module _ {κ} (P : ℕ → Type κ) where
  All-trim_start : (s : Text) → All P s → All P (trim_start s)
  unfolding trim_start
  All-trim_start [] h = tt
  All-trim_start (c ∷ s) h = All-if P (is_space c) _ _ (All-trim_start s h.1) h

  All-trim_end : (s : Text) → All P s → All P (trim_end s)
  unfolding trim_end
  All-trim_end [] h = tt
  All-trim_end (c ∷ s) h =
      All-if P (is_empty (trim_end s) && is_space c) _ _ tt (h.0, All-trim_end s h.1)

  pub All-trim : (s : Text) → All P s → All P (trim s)
  unfolding trim
  All-trim s h = All-trim_end (trim_start s) (All-trim_start s h)

-- The first unit, if there is one, is no white space.
abbrev pub StartsTight : Text → Type 0
StartsTight [] = Unit
StartsTight (c ∷ s) = is_space c ≡ false

trim_start-StartsTight : (s : Text) → StartsTight (trim_start s)
unfolding trim_start
trim_start-StartsTight [] = tt
trim_start-StartsTight (c ∷ s) = ground (arith, trim_start-StartsTight s)

trim_end-StartsTight : (s : Text) → StartsTight s → StartsTight (trim_end s)
unfolding trim_end
trim_end-StartsTight [] h = tt
trim_end-StartsTight (c ∷ s) h = ground arith

pub trim-StartsTight : (s : Text) → StartsTight (trim s)
unfolding trim
trim-StartsTight s = trim_end-StartsTight (trim_start s) (trim_start-StartsTight s)

trim_start_tight : (s : Text) → StartsTight s → trim_start s ≡ s
unfolding trim_start
trim_start_tight [] h = refl
trim_start_tight (c ∷ s) h = ground arith

trim_end_idem : (s : Text) → trim_end (trim_end s) ≡ trim_end s
unfolding trim_end
trim_end_idem [] = refl
trim_end_idem (c ∷ s) = ground (arith, trim_end_idem s)

pub trim_idem : (s : Text) → trim (trim s) ≡ trim s
unfolding trim
trim_idem s =
    ap trim_end (trim_start_tight (trim s) (trim-StartsTight s)) ∙ trim_end_idem (trim_start s)

is_empty-trim_end : (s : Text) → is_empty (trim_end s) ≡ all is_space s
unfolding trim_end
is_empty-trim_end [] = refl
is_empty-trim_end (c ∷ s) = ground (arith, is_empty-trim_end s)

all-trim_start : (s : Text) → all is_space (trim_start s) ≡ all is_space s
unfolding trim_start
all-trim_start [] = refl
all-trim_start (c ∷ s) = ground (arith, all-trim_start s)

pub is_empty-trim : (s : Text) → is_empty (trim s) ≡ all is_space s
unfolding trim
is_empty-trim s = is_empty-trim_end (trim_start s) ∙ all-trim_start s

trim_end-snoc : (s : Text) (c : ℕ) → is_space c ≡ true → trim_end (s ++ c ∷ []) ≡ trim_end s
unfolding trim_end
trim_end-snoc [] c h = ground arith
trim_end-snoc (d ∷ s) c h = ground (arith, trim_end-snoc s c h)

-- White space behind a text is trimmed off.
pub trim-snoc : (s : Text) (c : ℕ) → is_space c ≡ true → trim (s ++ c ∷ []) ≡ trim s
unfolding trim trim_start trim_end
trim-snoc [] c h = ground arith
trim-snoc (d ∷ s) c h = ground (arith, trim-snoc s c h, trim_end-snoc (d ∷ s) c h)
