-- ===== src/Shared/Number.antt =====
-- JavaScript numbers. A finite double is a dyadic fraction, so `finite m k` is m / 2 ^ k; the
-- program compares such values and passes them on.
use ragpolyglot_demo.Base.{ℕ, ◌+◌, ◌*◌, ◌^◌, Bool, true, false, not, ◌&&◌, ltb}
use ragpolyglot_demo.Base.Int.{ℤ, pos, pos_part, neg_part}

pub data Number : Type 0 where
  nan : Number
  infinite : Bool → Number
  finite : ℤ → ℕ → Number

-- A whole number as it is written in the source.
abbrev pub whole : ℕ → Number
whole n = finite (pos n) 0

abbrev pub is_nan : Number → Bool
is_nan nan = true
is_nan _ = false

-- `Number.isFinite(x)`
abbrev pub is_finite : Number → Bool
is_finite (finite _ _) = true
is_finite _ = false

-- `a < b`; an infinity is marked by whether it is negative.
unfoldable pub number_lt : Number → Number → Bool
number_lt (finite a j) (finite b k) =
    ltb (pos_part a * 2 ^ k + neg_part b * 2 ^ j) (pos_part b * 2 ^ j + neg_part a * 2 ^ k)
number_lt (finite a j) (infinite negative) = not negative
number_lt (infinite negative) (finite b k) = negative
number_lt (infinite a) (infinite b) = a && not b
number_lt nan _ = false
number_lt _ nan = false
