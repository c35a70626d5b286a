-- ===== src/Shared/Ocr.antt =====
-- libs/shared/src/lib/types/contracts.ts: the rules on the language of OCR.
pub mod Codes
use ragpolyglot_demo.Base.{
  ℕ, Bool, true, false, ◌&&◌, ◌||◌, not, Option, none, some, List, [], ◌∷◌, ◌==◌, leb, any, all,
  length, if◌then◌else◌, or_else,
}
use ragpolyglot_demo.Base.Text.{Text, codes, str_eq, trim, is_empty}
use ragpolyglot_demo.Shared.Json.{Json, as_string}
use ragpolyglot_demo.Shared.Types.{DocumentStatus, DocumentProgressStage}
use ragpolyglot_demo.Shared.Records.{DocumentSummary}

abbrev pub ocr_language_needed : Text
ocr_language_needed = codes "ocr_language_needed"

abbrev is_text : Option Text → Text → Bool
is_text none t = false
is_text (some s) t = str_eq s t

abbrev is_ocr_stage : Option DocumentProgressStage → Bool
is_ocr_stage (some DocumentProgressStage.extracting) = true
is_ocr_stage (some DocumentProgressStage.waiting_for_ocr) = true
is_ocr_stage _ = false

abbrev is_embedding : Option DocumentProgressStage → Bool
is_embedding (some DocumentProgressStage.embedding) = true
is_embedding _ = false

unfoldable pub show_ocr_language_menu : DocumentSummary → Bool
show_ocr_language_menu doc =
    if is_text doc.error_reason ocr_language_needed
    then true
    else if not (is_text doc.file_ext (codes "pdf"))
    then false
    else if is_ocr_stage doc.progress_stage
    then true
    else not (is_empty (or_else doc.ocr_lang []))

abbrev is_failed : DocumentStatus → Bool
is_failed DocumentStatus.failed = true
is_failed _ = false

abbrev is_at_work : DocumentStatus → Bool
is_at_work DocumentStatus.processing = true
is_at_work DocumentStatus.paused = true
is_at_work _ = false

unfoldable pub can_change_ocr_lang_live : DocumentSummary → Bool
can_change_ocr_lang_live doc =
    if not (is_text doc.file_ext (codes "pdf"))
    then false
    else if is_failed doc.status && is_text doc.error_reason ocr_language_needed
    then true
    else if not (is_at_work doc.status)
    then false
    else not (is_embedding doc.progress_stage)

-- `value.includes('+')`
abbrev has_plus : Text → Bool
has_plus value = any (λ c. c == 43) value

-- The options are the codes that the menu offers.
unfoldable pub ocr_lang_select_value : Option Text → List Text → Text
ocr_lang_select_value code options =
    let value = trim (or_else code []) in
    if is_empty value
    then []
    else if any (λ o. str_eq o value) options
    then value
    else if has_plus value
    then []
    else value

abbrev pub is_letter : ℕ → Bool
is_letter c = leb 97 c && leb c 122

-- `[a-z0-9_+]`
abbrev pub is_code_unit : ℕ → Bool
is_code_unit c = is_letter c || (leb 48 c && leb c 57) || c == 95 || c == 43

-- `/^[a-z][a-z0-9_+]{1,31}$/`
unfoldable pub matches_ocr_lang : Text → Bool
matches_ocr_lang [] = false
matches_ocr_lang (c ∷ s) =
    is_letter c && all is_code_unit s && leb 1 (length s) && leb (length s) 31

abbrev language_code : Option Text → Option Text
language_code none = none
language_code (some value) =
    if str_eq value (codes "ancient_greek")
      || str_eq value (codes "modern_greek")
      || str_eq value (codes "english")
    then some value
    else if matches_ocr_lang value
    then some value
    else none

unfoldable pub is_ocr_language_code : Option Json → Option Text
is_ocr_language_code value = language_code (as_string value)
