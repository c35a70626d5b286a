-- ===== src/Base/Order.antt =====
-- The order of `Array.prototype.sort` on strings (by code units), `new Set` of strings in the
-- order of insertion, and ascending lists of strings.
use mathlib.Core.Path.{◌≡◌, refl}
use mathlib.Core.Logic.{inl, inr}
use mathlib.Core.Bool.{Bool, true, false, ◌||◌}
use mathlib.Core.List.{List, [], ◌∷◌, ◌++◌}
use native.Mathlib.Omega.{arith}
use ragpolyglot_demo.Base.Tests.{ltb, ◌==◌, if◌then◌else◌, Bool-cases}
use ragpolyglot_demo.Base.Text.{Text, str_eq, str_eq_iff}

-- `a < b` on strings
unfoldable pub str_lt : Text → Text → Bool
str_lt [] [] = false
str_lt [] (b ∷ t) = true
str_lt (a ∷ s) [] = false
str_lt (a ∷ s) (b ∷ t) = let rest = str_lt s t in if a == b then rest else ltb a b

pub str_lt_irrefl : (s : Text) → str_lt s s ≡ false
unfolding str_lt
str_lt_irrefl [] = refl
str_lt_irrefl (a ∷ s) = ground (arith, str_lt_irrefl s)

pub str_lt_trans : (s t u : Text) → str_lt s t ≡ true → str_lt t u ≡ true → str_lt s u ≡ true
unfolding str_lt
str_lt_trans [] [] u h k = cc
str_lt_trans [] (b ∷ t) [] h k = cc
str_lt_trans [] (b ∷ t) (c ∷ u) h k = refl
str_lt_trans (a ∷ s) [] u h k = cc
str_lt_trans (a ∷ s) (b ∷ t) [] h k = cc
str_lt_trans (a ∷ s) (b ∷ t) (c ∷ u) h k = ground (arith, str_lt_trans s t u)

pub str_lt_total : (s t : Text) → str_lt s t ≡ false → str_lt t s ≡ false → s ≡ t
unfolding str_lt
str_lt_total [] [] h k = refl
str_lt_total [] (b ∷ t) h k = cc
str_lt_total (a ∷ s) [] h k = cc
str_lt_total (a ∷ s) (b ∷ t) h k = ground (arith, str_lt_total s t)

-- `list.includes(a)` and `set.has(a)`
unfoldable pub contains : Text → List Text → Bool
contains a [] = false
contains a (x ∷ xs) = str_eq a x || contains a xs

pub contains-append :
    (a : Text) (xs ys : List Text) → contains a (xs ++ ys) ≡ (contains a xs || contains a ys)
unfolding contains
contains-append a [] ys = refl
contains-append a (x ∷ xs) ys = ground (arith, contains-append a xs ys)

-- No string occurs twice.
abbrev pub Distinct : List Text → Type 0
Distinct [] = Unit
Distinct (x ∷ xs) = (contains x xs ≡ false) × Distinct xs

-- `set.add(x)`
unfoldable pub set_add : List Text → Text → List Text
set_add s x = if contains x s then s else s ++ x ∷ []

-- `new Set(xs)`, from the members already added
unfoldable pub set_from : List Text → List Text → List Text
unfolding set_add
set_from s [] = s
set_from s (x ∷ xs) = set_from (set_add s x) xs

pub contains-set_add :
    (a : Text) (s : List Text) (x : Text) → contains a (set_add s x) ≡ (contains a s || str_eq a x)
unfolding set_add
contains-set_add a s x = elim (Bool-cases (contains x s)) [
  | inl old ↦ rw old (elim (Bool-cases (str_eq a x)) [
    | inl same ↦ rw ((str_eq_iff a x).0 same) (rw old (ground arith))
    | inr other ↦ ground arith
  ])
  | inr new ↦ rw new (unfold contains in ground (arith, contains-append a s (x ∷ [])))
]

pub contains-set_from :
    (a : Text) (s xs : List Text) → contains a (set_from s xs) ≡ (contains a s || contains a xs)
unfolding set_from contains
contains-set_from a s [] = ground arith
contains-set_from a s (x ∷ xs) =
    ground (arith, contains-set_from a (set_add s x) xs, contains-set_add a s x)

Distinct-concat :
    (s : List Text) (x : Text) → Distinct s → contains x s ≡ false → Distinct (s ++ x ∷ [])
unfolding contains
Distinct-concat [] x d n = (refl, tt)
Distinct-concat (y ∷ s) x d n =
    ground
      (arith, Distinct-concat s x d.1, contains-append y s (x ∷ []), str_eq_iff x y, str_eq_iff y x)

set_add-Distinct : (s : List Text) (x : Text) → Distinct s → Distinct (set_add s x)
unfolding set_add
set_add-Distinct s x d = ground (arith, Distinct-concat s x d)

pub set_from-Distinct : (s xs : List Text) → Distinct s → Distinct (set_from s xs)
unfolding set_from
set_from-Distinct s [] d = d
set_from-Distinct s (x ∷ xs) d = set_from-Distinct (set_add s x) xs (set_add-Distinct s x d)

-- `list.sort()`, the strings being compared by code units
unfoldable pub insert_sorted : Text → List Text → List Text
insert_sorted x [] = x ∷ []
insert_sorted x (y ∷ ys) = if str_lt x y then x ∷ y ∷ ys else y ∷ insert_sorted x ys

unfoldable pub sort : List Text → List Text
unfolding insert_sorted
sort [] = []
sort (x ∷ xs) = insert_sorted x (sort xs)
