-- ===== src/Shared/Contracts.antt =====
-- libs/shared/src/lib/types/contracts.ts: the type guards and the sources of an answer.
use ragpolyglot_demo.Base.{Bool, false, Option, none, some, List, [], ◌∷◌, is_some}
use ragpolyglot_demo.Base.Text.{Text, codes}
use ragpolyglot_demo.Shared.Number.{Number}
use ragpolyglot_demo.Shared.Records.{Source}
use ragpolyglot_demo.Shared.Json.{
  Json, Js, Fields, property, as_string, as_number, as_object, as_array,
}
use ragpolyglot_demo.Shared.Types.{
  DocumentStatus, SummarizeStatus, DocumentProgressStage, OcrEngine, ChatRole, status_name,
  summarize_name, stage_name, engine_name, role_name, find_named,
}

abbrev pub document_statuses : List DocumentStatus
document_statuses =
    DocumentStatus.uploading ∷ DocumentStatus.processing ∷ DocumentStatus.paused
    ∷ DocumentStatus.ready ∷ DocumentStatus.failed ∷ []

abbrev pub active_document_statuses : List DocumentStatus
active_document_statuses = DocumentStatus.uploading ∷ DocumentStatus.processing ∷ []

abbrev pub summarize_statuses : List SummarizeStatus
summarize_statuses = SummarizeStatus.running ∷ SummarizeStatus.paused ∷ SummarizeStatus.failed ∷ []

abbrev pub active_summarize_statuses : List SummarizeStatus
active_summarize_statuses = SummarizeStatus.running ∷ SummarizeStatus.paused ∷ []

abbrev pub document_progress_stages : List DocumentProgressStage
document_progress_stages =
    DocumentProgressStage.waiting_for_ocr ∷ DocumentProgressStage.extracting
    ∷ DocumentProgressStage.embedding ∷ []

abbrev pub ocr_engines : List OcrEngine
ocr_engines = OcrEngine.tesseract ∷ OcrEngine.kraken_cpu ∷ OcrEngine.kraken_gpu ∷ []

abbrev pub chat_roles : List ChatRole
chat_roles = ChatRole.user ∷ ChatRole.assistant ∷ []

-- A guard `typeof value === 'string' && NAMES.includes(value)`: the narrowed value, or `none`.
abbrev guard : {A : Type 0} → (A → Text) → List A → Option Text → Option A
guard name members none = none
guard name members (some s) = find_named name members s

unfoldable pub is_ocr_engine : Option Json → Option OcrEngine
unfolding find_named
is_ocr_engine value = guard engine_name ocr_engines (as_string value)

unfoldable pub is_chat_role : Option Json → Option ChatRole
unfolding find_named
is_chat_role value = guard role_name chat_roles (as_string value)

unfoldable pub is_document_status : Option Json → Option DocumentStatus
unfolding find_named
is_document_status value = guard status_name document_statuses (as_string value)

unfoldable pub is_summarize_status : Option Json → Option SummarizeStatus
unfolding find_named
is_summarize_status value = guard summarize_name summarize_statuses (as_string value)

unfoldable pub is_document_progress_stage : Option Json → Option DocumentProgressStage
unfolding find_named
is_document_progress_stage value = guard stage_name document_progress_stages (as_string value)

-- `String(status ?? '')`
abbrev status_text : Js → Option Json → Text
status_text js none = []
status_text js (some Json.null) = []
status_text js (some value) = js.to_string value

unfoldable pub normalize_document_status : Js → Option Json → Option DocumentStatus
unfolding is_document_status
normalize_document_status js status =
    is_document_status (some (Json.string (js.lower (status_text js status))))

unfoldable pub is_active_document_status : DocumentStatus → Bool
unfolding find_named
is_active_document_status status =
    is_some (find_named status_name active_document_statuses (status_name status))

unfoldable pub is_active_summarize_status : Option SummarizeStatus → Bool
unfolding find_named
is_active_summarize_status none = false
is_active_summarize_status (some status) =
    is_some (find_named summarize_name active_summarize_statuses (summarize_name status))

-- The parts of a source, each of them narrowed; one that is missing makes the source be skipped.
abbrev source_of :
    Option Text → Option Text → Option Text → Option Number → Option Number → Option Source
source_of (some id) (some title) (some content) (some similarity) index = some (record {
  document_id = id;
  document_title = title;
  chunk_content = content;
  similarity = similarity;
  chunk_index = index;
})
source_of _ _ _ _ _ = none

abbrev source_of_row : Option Fields → Option Source
source_of_row none = none
source_of_row (some row) =
    source_of (as_string (property (codes "documentId") row))
      (as_string (property (codes "documentTitle") row))
      (as_string (property (codes "chunkContent") row))
      (as_number (property (codes "similarity") row))
      (as_number (property (codes "chunkIndex") row))

abbrev push_source : Option Source → List Source → List Source
push_source none rest = rest
push_source (some s) rest = s ∷ rest

-- The loop over the items.
unfoldable pub kept_sources : List Json → List Source
kept_sources [] = []
kept_sources (item ∷ rest) = push_source (source_of_row (as_object item)) (kept_sources rest)

abbrev unless_no_source : List Source → Option (List Source)
unless_no_source [] = none
unless_no_source (s ∷ ss) = some (s ∷ ss)

abbrev sources_of : Option (List Json) → Option (List Source)
sources_of none = none
sources_of (some values) = unless_no_source (kept_sources values)

unfoldable pub parse_rag_sources : Option Json → Option (List Source)
parse_rag_sources value = sources_of (as_array value)
