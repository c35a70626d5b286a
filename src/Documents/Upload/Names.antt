-- ===== src/Documents/Upload/Names.antt =====
-- The names under which uploads are stored.
use ragpolyglot_demo.Base.{
  ◌≡◌, refl, Bool, true, false, ◌||◌, none, [], ◌∷◌, ◌++◌, ◌==◌, any, arith,
}
use ragpolyglot_demo.Base.Text.{Text, codes, str_eq_iff}
use ragpolyglot_demo.Base.Order.{contains}
use ragpolyglot_demo.Shared.Json.{Js}
use ragpolyglot_demo.Documents.Upload.{allowed_extensions, extension, upload_filename, file_filter}

-- A slash or a backslash.
abbrev pub has_separator : Text → Bool
has_separator name = any (λ c. c == 47 || c == 92) name

has_separator-append : (s t : Text) → has_separator (s ++ t) ≡ (has_separator s || has_separator t)
has_separator-append [] t = refl
has_separator-append (c ∷ s) t = ground (arith, has_separator-append s t)

allowed-has_separator :
    (ext : Text) → contains ext allowed_extensions ≡ true → has_separator ext ≡ false
unfolding contains
allowed-has_separator ext h = ground (
  arith,
  str_eq_iff ext (codes ".txt"),
  str_eq_iff ext (codes ".md"),
  str_eq_iff ext (codes ".markdown"),
  str_eq_iff ext (codes ".json"),
  str_eq_iff ext (codes ".pdf"),
)

-- A file that is accepted is stored under a name without a slash or backslash, whatever its own
-- name, if there is none in the suffix that the gateway makes up.
pub upload_filename-has_separator :
    (js : Js) (extname : Text → Text) (unique_suffix original : Text)
    → file_filter js extname original ≡ none
    → has_separator unique_suffix ≡ false
    → has_separator (upload_filename js extname unique_suffix original) ≡ false
unfolding upload_filename file_filter
upload_filename-has_separator js extname unique_suffix original h k = ground (
  arith,
  h,
  has_separator-append unique_suffix (extension js extname original),
  allowed-has_separator (extension js extname original),
)
