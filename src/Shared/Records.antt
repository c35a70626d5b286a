-- ===== src/Shared/Records.antt =====
-- libs/shared/src/lib/interfaces/interfaces.ts: the records that the services and the UI exchange.
-- An optional property is an `Option`; dates and ids are strings, as in the source.
use ragpolyglot_demo.Base.{Bool, Option, List}
use ragpolyglot_demo.Base.Text.{Text}
use ragpolyglot_demo.Shared.Number.{Number}
use ragpolyglot_demo.Shared.Types.{
  DocumentStatus, SummarizeStatus, DocumentProgressStage, OcrEngine, ChatRole,
}

-- `summarizeStatus?: SummarizeStatus | null` has three states.
pub data Nullable (A : Type 0) : Type 0 where
  undefined null : Nullable A
  value : A → Nullable A

pub record Document : Type 0 where
  pub id : Text
  pub title : Text
  pub file_path : Option Text
  pub file_ext : Option Text
  pub status : DocumentStatus
  pub error_reason : Option Text
  pub progress_stage : Option DocumentProgressStage
  pub progress_done : Option Number
  pub progress_total : Option Number
  pub summarize_status : Nullable SummarizeStatus
  pub summarize_done : Option Number
  pub summarize_total : Option Number
  pub summarize_error : Option Text
  pub uploaded_by : Option Text
  pub ocr_lang : Option Text
  pub ocr_engine : Option OcrEngine
  pub created_at : Text
  pub updated_at : Text

pub record DocumentSummary : Type 0 where
  pub id : Text
  pub title : Text
  pub file_ext : Option Text
  pub status : DocumentStatus
  pub error_reason : Option Text
  pub progress_stage : Option DocumentProgressStage
  pub progress_done : Option Number
  pub progress_total : Option Number
  pub summarize_status : Nullable SummarizeStatus
  pub summarize_done : Option Number
  pub summarize_total : Option Number
  pub summarize_error : Option Text
  pub ocr_lang : Option Text
  pub ocr_engine : Option OcrEngine
  pub created_at : Option Text

pub record RagSearchHit : Type 0 where
  pub document_id : Text
  pub document_title : Option Text
  pub chunk_index : Number
  pub content : Text
  pub similarity : Number

pub record Source : Type 0 where
  pub document_id : Text
  pub document_title : Text
  pub chunk_content : Text
  pub similarity : Number
  pub chunk_index : Option Number

pub record RagResult : Type 0 where
  pub answer : Text
  pub sources : List Source
  pub cache_hit : Option Bool

pub record RagQuery : Type 0 where
  pub query : Text
  pub top_k : Option Number
  pub mode : Option Text
  pub user_id : Option Text
  pub document_ids : Option (List Text)

pub record Message : Type 0 where
  pub role : ChatRole
  pub text : Text
  pub sources : Option (List Source)

pub record ConversationSummary : Type 0 where
  pub id : Text
  pub title : Text
  pub created_at : Text
  pub updated_at : Text
  pub document_ids : Option (List Text)

pub record ConversationMessage : Type 0 where
  pub id : Number
  pub conversation_id : Text
  pub role : ChatRole
  pub text : Text
  pub sources : Option (List Source)
  pub created_at : Text

pub record ChatCompletePayload : Type 0 where
  pub conversation_id : Text
  pub sources : Option (List Source)
  pub error : Option Bool
  pub interrupted : Option Bool
  pub cache_hit : Option Bool

pub record DocumentStatusUpdate : Type 0 where
  pub document_id : Text
  pub status : Option Text
  pub timestamp : Option Text
  pub progress_stage : Option Text
  pub progress_done : Option Number
  pub progress_total : Option Number
  pub summarize_status : Nullable SummarizeStatus
  pub summarize_done : Option Number
  pub summarize_total : Option Number
  pub summarize_error : Option Text

pub record DocumentChunk : Type 0 where
  pub id : Option Number
  pub document_id : Text
  pub chunk_index : Number
  pub content : Text
  pub created_at : Option Text

pub record ChatProgressPayload : Type 0 where
  pub conversation_id : Text
  pub done : Number
  pub total : Number

pub record ChatDeepStatus : Type 0 where
  pub running : Bool
  pub query : Option Text
  pub done : Option Number
  pub total : Option Number
