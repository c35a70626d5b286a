-- ===== src/Shared/Labels.antt =====
-- libs/shared/src/lib/types/contracts.ts: the labels of the progress of a document.
pub mod Paused
use ragpolyglot_demo.Base.{
  Bool, true, false, Option, none, some, List, [], ◌∷◌, ◌++◌, ◌==◌, map, if◌then◌else◌, or_else,
}
use ragpolyglot_demo.Base.Text.{Text, codes, str_eq}
use ragpolyglot_demo.Shared.Number.{Number, whole, number_lt}
use ragpolyglot_demo.Shared.Json.{Json, Js}
use ragpolyglot_demo.Shared.Types.{DocumentStatus, DocumentProgressStage, SummarizeStatus}
use ragpolyglot_demo.Shared.Records.{DocumentSummary, Nullable}
use ragpolyglot_demo.Shared.Ocr.{ocr_language_needed}

unfoldable pub format_error_reason : Text → Text
format_error_reason reason =
    if str_eq reason ocr_language_needed
    then codes "Could not detect the OCR language. Choose a language and retry."
    else map (λ c. if c == 95 then 32 else c) reason

-- `${n}`
abbrev digits : Js → Number → Text
digits js n = js.to_string (Json.number n)

-- `${done}/${total}`
abbrev ratio : Js → Option Number → Number → Text
ratio js finished total = digits js (or_else finished (whole 0)) ++ (codes "/" ++ digits js total)

-- `paused ? \`Paused · ${label}\` : label`
abbrev paused_label : Bool → Text → Text
paused_label true label = codes "Paused · " ++ label
paused_label false label = label

abbrev is_positive : Number → Bool
is_positive n = number_lt (whole 0) n

abbrev stage_label : Js → Bool → Option DocumentProgressStage → Option Number → Number → Option Text
stage_label js paused (some DocumentProgressStage.waiting_for_ocr) finished total =
    if is_positive total
    then some (
        paused_label paused
          (codes "Waiting for OCR · " ++ (ratio js finished total ++ codes " done")))
    else some (paused_label paused (codes "Waiting for OCR…"))
stage_label js paused (some DocumentProgressStage.extracting) finished total =
    if is_positive total
    then some (paused_label paused (codes "OCR " ++ ratio js finished total))
    else some (paused_label paused (codes "Extracting text…"))
stage_label js paused (some DocumentProgressStage.embedding) finished total =
    if is_positive total
    then some (paused_label paused (codes "Embedding chunks " ++ ratio js finished total))
    else if paused
    then some (codes "Paused")
    else none
stage_label js paused none finished total = if paused then some (codes "Paused") else none

abbrev label_for :
    Js → DocumentStatus → Option DocumentProgressStage → Option Number → Number → Option Text
label_for js DocumentStatus.processing stage finished total =
    stage_label js false stage finished total
label_for js DocumentStatus.paused stage finished total = stage_label js true stage finished total
label_for js _ stage finished total = none

unfoldable pub format_document_progress_label : Js → DocumentSummary → Option Text
format_document_progress_label js doc =
    label_for js doc.status doc.progress_stage doc.progress_done
      (or_else doc.progress_total (whole 0))

abbrev summarize_label : Js → SummarizeStatus → Option Number → Number → Text
summarize_label js SummarizeStatus.running finished total =
    if is_positive total
    then codes "Summarizing " ++ ratio js finished total
    else codes "Summarizing…"
summarize_label js SummarizeStatus.paused finished total =
    if is_positive total
    then codes "Paused · Summarizing " ++ ratio js finished total
    else codes "Paused · Summarizing"
summarize_label js SummarizeStatus.failed finished total = codes "Summarization failed"

abbrev summarize_label_of : Js → Nullable SummarizeStatus → Option Number → Number → Option Text
summarize_label_of js (Nullable.value status) finished total =
    some (summarize_label js status finished total)
summarize_label_of js _ finished total = none

unfoldable pub format_summarize_progress_label : Js → DocumentSummary → Option Text
format_summarize_progress_label js doc =
    summarize_label_of js doc.summarize_status doc.summarize_done
      (or_else doc.summarize_total (whole 0))
