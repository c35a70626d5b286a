-- ===== src/View/Mapping.antt =====
-- apps/react-frontend/src/lib/documents.ts: documents and chunks from the JSON of the gateway.
use ragpolyglot_demo.Base.{Option, none, some, List, [], ◌∷◌, or_else}
use ragpolyglot_demo.Base.Text.{Text, codes}
use ragpolyglot_demo.Shared.Number.{Number}
use ragpolyglot_demo.Shared.Json.{
  Json, Fields, Js, property, as_string, as_number, as_object, as_array,
}
use ragpolyglot_demo.Shared.Types.{DocumentStatus, SummarizeStatus}
use ragpolyglot_demo.Shared.Records.{Nullable, DocumentSummary, DocumentChunk}
use ragpolyglot_demo.Shared.Contracts.{
  normalize_document_status, is_document_progress_stage, is_summarize_status, is_ocr_engine,
}

abbrev text_of : Text → Fields → Option Text
text_of name row = as_string (property name row)

abbrev number_of : Text → Fields → Option Number
number_of name row = as_number (property name row)

abbrev null_or_undefined : Option Json → Nullable SummarizeStatus
null_or_undefined (some Json.null) = Nullable.null
null_or_undefined _ = Nullable.undefined

abbrev nullable_of : Option SummarizeStatus → Option Json → Nullable SummarizeStatus
nullable_of (some status) raw = Nullable.value status
nullable_of none raw = null_or_undefined raw

abbrev summary_of : Js → Fields → Option Text → Option Text → Option DocumentSummary
summary_of js row (some id) (some title) = some (record {
  id = id;
  title = title;
  file_ext = text_of (codes "fileExt") row;
  status =
      or_else (normalize_document_status js (property (codes "status") row))
        DocumentStatus.uploading;
  error_reason = text_of (codes "errorReason") row;
  progress_stage = is_document_progress_stage (property (codes "progressStage") row);
  progress_done = number_of (codes "progressDone") row;
  progress_total = number_of (codes "progressTotal") row;
  summarize_status =
      nullable_of (is_summarize_status (property (codes "summarizeStatus") row))
        (property (codes "summarizeStatus") row);
  summarize_done = number_of (codes "summarizeDone") row;
  summarize_total = number_of (codes "summarizeTotal") row;
  summarize_error = text_of (codes "summarizeError") row;
  ocr_lang = text_of (codes "ocrLang") row;
  ocr_engine = is_ocr_engine (property (codes "ocrEngine") row);
  created_at = text_of (codes "createdAt") row;
})
summary_of js row _ _ = none

abbrev summary_of_row : Js → Option Fields → Option DocumentSummary
summary_of_row js none = none
summary_of_row js (some row) =
    summary_of js row (text_of (codes "id") row) (text_of (codes "title") row)

-- `mapDocumentSummary` and `mapApiDocument`
unfoldable pub map_api_document : Js → Json → Option DocumentSummary
map_api_document js item = summary_of_row js (as_object item)

-- `.map(f).filter((v) => v !== null)`
abbrev keep_some {ℓ} : {A : Type ℓ} → Option A → List A → List A
keep_some none rest = rest
keep_some (some a) rest = a ∷ rest

unfoldable pub map_rows {ℓ} : {A : Type ℓ} → (Json → Option A) → List Json → List A
map_rows f [] = []
map_rows f (v ∷ vs) = keep_some (f v) (map_rows f vs)

unfoldable pub map_api_documents : Js → Option Json → List DocumentSummary
map_api_documents js value = map_rows (map_api_document js) (or_else (as_array value) [])

abbrev chunk_of : Fields → Option Text → Option Number → Option Text → Option DocumentChunk
chunk_of row (some document_id) (some index) (some content) = some (record {
  id = number_of (codes "id") row;
  document_id = document_id;
  chunk_index = index;
  content = content;
  created_at = text_of (codes "createdAt") row;
})
chunk_of row _ _ _ = none

abbrev chunk_of_row : Option Fields → Option DocumentChunk
chunk_of_row none = none
chunk_of_row (some row) =
    chunk_of row (text_of (codes "documentId") row) (number_of (codes "chunkIndex") row)
      (text_of (codes "content") row)

unfoldable pub map_api_chunk : Json → Option DocumentChunk
map_api_chunk item = chunk_of_row (as_object item)

unfoldable pub map_api_chunks : Option Json → List DocumentChunk
map_api_chunks value = map_rows map_api_chunk (or_else (as_array value) [])
