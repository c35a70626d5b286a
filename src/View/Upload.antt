-- ===== src/View/Upload.antt =====
-- apps/react-frontend/src/lib/uploadFile.ts: the check of a file before it is uploaded.
pub mod Accepted
use ragpolyglot_demo.Base.{
  ℕ, Bool, true, false, ◌&&◌, not, Option, none, some, List, [], ◌∷◌, ◌++◌, ◌==◌, take,
  if◌then◌else◌,
}
use ragpolyglot_demo.Base.Text.{Text, codes, str_eq, trim, is_empty}
use ragpolyglot_demo.Base.Order.{contains}
use ragpolyglot_demo.Shared.Json.{Js}

abbrev accepted_extensions : List Text
accepted_extensions =
    codes ".txt" ∷ codes ".md" ∷ codes ".markdown" ∷ codes ".json" ∷ codes ".pdf" ∷ []

-- From the last dot on, `[]` where there is no dot.
unfoldable pub from_last_dot : Text → Text
from_last_dot [] = []
from_last_dot (c ∷ s) =
    let rest = from_last_dot s in
    if not (is_empty rest) then rest else if c == 46 then c ∷ s else []

unfoldable pub starts_with_pdf_magic : List ℕ → Bool
starts_with_pdf_magic (a ∷ b ∷ c ∷ d ∷ bytes) = a == 37 && (b == 80 && (c == 68 && d == 70))
starts_with_pdf_magic _ = false

-- What `validateUploadFile` resolves to, or that the reader fails.
pub data Validation : Type 0 where
  valid : Validation
  invalid : Text → Validation
  read_failed : Validation

abbrev or_none : Text → Text
or_none [] = codes "(none)"
or_none (c ∷ s) = c ∷ s

module _ (js : Js) where
  abbrev lower_suffix : Text → Text
  lower_suffix [] = []
  lower_suffix (c ∷ s) = js.lower (c ∷ s)

  abbrev pub file_extension : Text → Text
  file_extension name = lower_suffix (from_last_dot name)

  abbrev check_head : Text → Text → Option (List ℕ) → Validation
  check_head name ext none = read_failed
  check_head name ext (some head) =
      if str_eq ext (codes ".pdf")
      then if not (starts_with_pdf_magic head)
        then invalid (name ++ codes " is not a valid PDF")
        else valid
      else if starts_with_pdf_magic head
      then invalid (name ++ (codes " looks like a PDF but has extension " ++ ext))
      else valid

  -- `file.slice(0, n)`, read
  abbrev read_head : ℕ → Option (List ℕ) → Option (List ℕ)
  read_head n none = none
  read_head n (some bytes) = some (take n bytes)

  -- The content is `none` where the reader of the file fails.
  unfoldable pub validate_upload_file : Text → Option (List ℕ) → Validation
  validate_upload_file name content =
      if is_empty (trim name)
      then invalid (codes "Title is required.")
      else if not (contains (file_extension name) accepted_extensions)
      then invalid (
          codes "Unsupported file type \""
          ++ (or_none (file_extension name)
              ++ codes "\". Allowed: .txt, .md, .markdown, .json, .pdf"))
      else check_head name (file_extension name) (read_head 5 content)
