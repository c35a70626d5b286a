-- ===== src/Base/Sorted.antt =====
-- Ascending lists of strings: what `sort` returns, and that the members determine such a list.
use mathlib.Core.Path.{ap₂}
use ragpolyglot_demo.Base.{sym, ◌≡◌, refl, ◌∙◌, true, false, ◌||◌, List, [], ◌∷◌, arith, All}
use ragpolyglot_demo.Base.Text.{Text, str_eq, str_eq_iff, str_eq_refl}
use ragpolyglot_demo.Base.Order.{
  str_lt, str_lt_irrefl, str_lt_trans, str_lt_total, contains, contains-set_from, set_from,
  set_from-Distinct, Distinct, insert_sorted, sort,
}

-- Every string is smaller than those behind it.
abbrev pub Ascending : List Text → Type 0
Ascending [] = Unit
Ascending (x ∷ xs) = All (λ b. str_lt x b ≡ true) xs × Ascending xs

contains-insert_sorted :
    (a x : Text) (ys : List Text) → contains a (insert_sorted x ys) ≡ (str_eq a x || contains a ys)
unfolding insert_sorted contains
contains-insert_sorted a x [] = refl
contains-insert_sorted a x (y ∷ ys) = ground (arith, contains-insert_sorted a x ys)

pub contains-sort : (a : Text) (xs : List Text) → contains a (sort xs) ≡ contains a xs
unfolding sort contains
contains-sort a [] = refl
contains-sort a (x ∷ xs) = ground (arith, contains-sort a xs, contains-insert_sorted a x (sort xs))

All-insert_sorted :
    (z x : Text) (ys : List Text)
    → str_lt z x ≡ true
    → All (λ b. str_lt z b ≡ true) ys
    → All (λ b. str_lt z b ≡ true) (insert_sorted x ys)
unfolding insert_sorted
All-insert_sorted z x [] h k = (h, tt)
All-insert_sorted z x (y ∷ ys) h k = ground (arith, All-insert_sorted z x ys)

All-below :
    (x y : Text) (ys : List Text)
    → str_lt x y ≡ true
    → All (λ b. str_lt y b ≡ true) ys
    → All (λ b. str_lt x b ≡ true) ys
All-below x y [] h k = tt
All-below x y (z ∷ ys) h k = (str_lt_trans x y z h k.0, All-below x y ys h k.1)

insert_sorted-Ascending :
    (x : Text) (ys : List Text)
    → Ascending ys
    → contains x ys ≡ false
    → Ascending (insert_sorted x ys)
unfolding insert_sorted contains
insert_sorted-Ascending x [] h n = (tt, tt)
insert_sorted-Ascending x (y ∷ ys) h n = ground (
  arith,
  insert_sorted-Ascending x ys h.1,
  All-below x y ys,
  All-insert_sorted y x ys,
  str_lt_total x y,
  str_eq_iff x y,
)

-- Strings with no repetition are sorted to an ascending list.
pub sort-Ascending : (xs : List Text) → Distinct xs → Ascending (sort xs)
unfolding sort
sort-Ascending [] d = tt
sort-Ascending (x ∷ xs) d =
    insert_sorted-Ascending x (sort xs) (sort-Ascending xs d.1) (contains-sort x xs ∙ d.0)

lt_of_contains :
    (x a : Text) (xs : List Text)
    → All (λ b. str_lt x b ≡ true) xs
    → contains a xs ≡ true
    → str_lt x a ≡ true
unfolding contains
lt_of_contains x a [] h k = cc
lt_of_contains x a (y ∷ xs) h k = ground (arith, lt_of_contains x a xs h.1, str_eq_iff a y)

not_contains-below :
    (x : Text) (xs : List Text) → All (λ b. str_lt x b ≡ true) xs → contains x xs ≡ false
not_contains-below x xs h = ground (arith, lt_of_contains x x xs h, str_lt_irrefl x)

abbrev pub SameMembers : List Text → List Text → Type 0
SameMembers xs ys = (a : Text) → contains a xs ≡ contains a ys

head_same :
    (x y : Text) (xs ys : List Text)
    → Ascending (x ∷ xs)
    → Ascending (y ∷ ys)
    → SameMembers (x ∷ xs) (y ∷ ys)
    → x ≡ y
unfolding contains
head_same x y xs ys h k e = ground (
  arith,
  e x,
  e y,
  str_eq_refl x,
  str_eq_refl y,
  str_eq_iff x y,
  str_eq_iff y x,
  lt_of_contains y x ys k.0,
  lt_of_contains x y xs h.0,
  str_lt_trans x y x,
  str_lt_irrefl x,
)

tail_same :
    (x y : Text) (xs ys : List Text)
    → x ≡ y
    → Ascending (x ∷ xs)
    → Ascending (y ∷ ys)
    → SameMembers (x ∷ xs) (y ∷ ys)
    → SameMembers xs ys
unfolding contains
tail_same x y xs ys p h k e a = ground (
  arith,
  e a,
  str_eq_iff a x,
  str_eq_iff a y,
  not_contains-below x xs h.0,
  not_contains-below y ys k.0,
)

-- Two ascending lists with the same members are one list.
pub Ascending-unique :
    (xs ys : List Text) → Ascending xs → Ascending ys → SameMembers xs ys → xs ≡ ys
unfolding contains
Ascending-unique [] [] h k e = refl
Ascending-unique [] (y ∷ ys) h k e = ground (arith, e y, str_eq_refl y)
Ascending-unique (x ∷ xs) [] h k e = ground (arith, e x, str_eq_refl x)
Ascending-unique (x ∷ xs) (y ∷ ys) h k e =
    let p = head_same x y xs ys h k e in
    ap₂ (λ z zs. z ∷ zs) p (Ascending-unique xs ys h.1 k.1 (tail_same x y xs ys p h k e))

-- `[...new Set(ids)].sort()`
abbrev pub canonical : List Text → List Text
canonical ids = sort (set_from [] ids)

pub canonical-Ascending : (ids : List Text) → Ascending (canonical ids)
canonical-Ascending ids = sort-Ascending (set_from [] ids) (set_from-Distinct [] ids tt)

pub contains-canonical : (a : Text) (ids : List Text) → contains a (canonical ids) ≡ contains a ids
contains-canonical a ids = contains-sort a (set_from [] ids) ∙ from_empty
  where
    from_empty : contains a (set_from [] ids) ≡ contains a ids
    from_empty = unfold contains in contains-set_from a [] ids

-- It is one list for each set of strings.
pub canonical_unique : (xs ys : List Text) → SameMembers xs ys → canonical xs ≡ canonical ys
canonical_unique xs ys same =
    Ascending-unique (canonical xs) (canonical ys) (canonical-Ascending xs) (canonical-Ascending ys)
      (λ a. contains-canonical a xs ∙ same a ∙ sym (contains-canonical a ys))
