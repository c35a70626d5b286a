-- ===== src/Tests/Labels.antt =====
-- A code of two languages, and the label of a document that is paused.
use ragpolyglot_demo.Base.{◌≡◌, refl, some}
use ragpolyglot_demo.Base.Text.{codes, str_eq}
use ragpolyglot_demo.Shared.Json.{Json}
use ragpolyglot_demo.Shared.Number.{number_lt}
use ragpolyglot_demo.Shared.Types.{DocumentStatus, DocumentProgressStage}
use ragpolyglot_demo.Shared.Records.{DocumentSummary}
use ragpolyglot_demo.Shared.Ocr.{is_ocr_language_code, matches_ocr_lang}
use ragpolyglot_demo.Shared.Ocr.Codes.{IsPlainCode, is_ocr_language_code-IsPlainCode}
use ragpolyglot_demo.Shared.Labels.{format_document_progress_label}
use ragpolyglot_demo.Shared.Labels.Paused.{
  starts_with, is_paused, format_document_progress_label-starts,
}
use ragpolyglot_demo.Tests.Shared.{ascii_js}
use ragpolyglot_demo.Tests.View.{document}

is_ocr_language_code-IsPlainCode_example : IsPlainCode (codes "eng+fra")
unfolding is_ocr_language_code matches_ocr_lang str_eq
is_ocr_language_code-IsPlainCode_example =
    is_ocr_language_code-IsPlainCode (some (Json.string (codes "eng+fra"))) (codes "eng+fra") refl

abbrev waiting : DocumentSummary
waiting = record (document (codes "d1") DocumentStatus.paused) {
  progress_stage = some DocumentProgressStage.waiting_for_ocr;
}

format_document_progress_label-starts_example :
    starts_with (codes "Paused") (codes "Paused · Waiting for OCR…") ≡ is_paused waiting.status
unfolding format_document_progress_label number_lt
format_document_progress_label-starts_example =
    format_document_progress_label-starts ascii_js waiting (codes "Paused · Waiting for OCR…") refl
