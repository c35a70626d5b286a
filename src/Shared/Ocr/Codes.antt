-- ===== src/Shared/Ocr/Codes.antt =====
-- The codes that are accepted.
use ragpolyglot_demo.Base.{◌≡◌, ◌≤◌, true, Option, none, some, [], ◌∷◌, all, length, arith}
use ragpolyglot_demo.Base.Text.{Text, codes, str_eq_iff}
use ragpolyglot_demo.Shared.Json.{Json, as_string}
use ragpolyglot_demo.Shared.Ocr.{
  is_code_unit, matches_ocr_lang, language_code, is_ocr_language_code,
}

-- From 2 to 32 of the units a-z, 0-9, _ and +.
abbrev pub IsPlainCode : Text → Type 0
IsPlainCode s = (all is_code_unit s ≡ true) × (2 ≤ length s) × (length s ≤ 32)

matches-IsPlainCode : (s : Text) → matches_ocr_lang s ≡ true → IsPlainCode s
unfolding matches_ocr_lang
matches-IsPlainCode [] h = cc
matches-IsPlainCode (c ∷ s) h = ground arith

-- The three names that are tested apart match the pattern too.
language_code-matches :
    (value : Option Text) (s : Text) → language_code value ≡ some s → matches_ocr_lang s ≡ true
unfolding matches_ocr_lang
language_code-matches none s h = cc
language_code-matches (some value) s h = ground (
  arith,
  str_eq_iff value (codes "ancient_greek"),
  str_eq_iff value (codes "modern_greek"),
  str_eq_iff value (codes "english"),
)

-- A value that is accepted as the code of a language has 2 to 32 units, each of them a letter from a
-- to z, a digit, an underscore or a plus sign.
pub is_ocr_language_code-IsPlainCode :
    (value : Option Json) (s : Text) → is_ocr_language_code value ≡ some s → IsPlainCode s
unfolding is_ocr_language_code
is_ocr_language_code-IsPlainCode value s h =
    matches-IsPlainCode s (language_code-matches (as_string value) s h)
