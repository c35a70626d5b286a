-- ===== src/View/Documents.antt =====
-- apps/react-frontend/src/context/DocumentsProvider.tsx: the list of documents in the browser.
pub mod Updates
pub mod Ids
pub mod Subscribed
pub mod Settled
pub mod Requests
use ragpolyglot_demo.Base.{
  Bool, true, false, ◌&&◌, ◌||◌, not, Option, none, some, List, [], ◌∷◌, ◌++◌, ◌⊎◌, inl, inr, any,
  map, filter, if◌then◌else◌,
}
use ragpolyglot_demo.Base.Text.{Text, codes, str_eq}
use ragpolyglot_demo.Base.Order.{contains}
use ragpolyglot_demo.Shared.Number.{Number}
use ragpolyglot_demo.Shared.Json.{Json, Js}
use ragpolyglot_demo.Shared.Types.{DocumentStatus, SummarizeStatus, DocumentProgressStage}
use ragpolyglot_demo.Shared.Records.{Nullable, DocumentSummary, DocumentStatusUpdate}
use ragpolyglot_demo.Shared.Contracts.{
  normalize_document_status, is_document_progress_stage, is_active_document_status,
  is_active_summarize_status,
}

-- What is sent to the socket.
pub data Call : Type 0 where
  subscribe_document unsubscribe_document : Text → Call

pub record View : Type 0 where
  pub documents : List DocumentSummary
  pub loading : Bool
  pub error : Option Text
  -- `subscribedRef`, and the calls made
  pub subscribed : List Text
  pub calls : List Call

abbrev value_of : Nullable SummarizeStatus → Option SummarizeStatus
value_of (Nullable.value status) = some status
value_of _ = none

-- The test of `subscribeActiveDocuments` and of `hasActive`.
unfoldable pub is_active : DocumentSummary → Bool
is_active doc =
    is_active_document_status doc.status
    || is_active_summarize_status (value_of doc.summarize_status)

abbrev subscribe : Text → View → View
subscribe id v = record v {
  subscribed = v.subscribed ++ id ∷ [];
  calls = v.calls ++ subscribe_document id ∷ [];
}

-- One round of the loop.
abbrev pub subscribe_if_active : DocumentSummary → View → View
subscribe_if_active doc v =
    if not (is_active doc) || contains doc.id v.subscribed then v else subscribe doc.id v

unfoldable pub subscribe_active_documents : List DocumentSummary → View → View
subscribe_active_documents [] v = v
subscribe_active_documents (doc ∷ docs) v =
    subscribe_active_documents docs (subscribe_if_active doc v)

-- `refresh` once `fetchDocuments` has failed with a message or returned the mapped documents.
unfoldable pub refresh : Text ⊎ List DocumentSummary → View → View
refresh (inl message) v = record v { error = some message; loading = false }
refresh (inr mapped) v =
    subscribe_active_documents mapped
      (record v { error = none; documents = mapped; loading = false })

-- `remove` once the server has deleted the document.
unfoldable pub remove : Text → View → View
remove id v = record v {
  documents = filter (λ d. not (str_eq d.id id)) v.documents;
  subscribed = filter (λ other. not (str_eq other id)) v.subscribed;
  calls = v.calls ++ unsubscribe_document id ∷ [];
}

abbrev pub replace : Text → DocumentSummary → List DocumentSummary → List DocumentSummary
replace id mapped docs = map (λ doc. if str_eq doc.id id then mapped else doc) docs

abbrev pub has_document : Text → List DocumentSummary → Bool
has_document id docs = any (λ d. str_eq d.id id) docs

-- `applyMappedUpdate` with a document in the answer.
unfoldable pub apply_mapped_update : Text → DocumentSummary → View → View
apply_mapped_update id mapped v = record v {
  documents =
      if has_document id v.documents
      then replace id mapped v.documents
      else v.documents ++ mapped ∷ [];
}

-- An update as it comes over the socket: a property that is `undefined` is not sent.
abbrev pub has_summarize : DocumentStatusUpdate → Bool
has_summarize update = elim update.summarize_status [ Nullable.undefined ↦ false | _ ↦ true ]

abbrev pub ends_summarize : Nullable SummarizeStatus → Bool
ends_summarize Nullable.null = true
ends_summarize (Nullable.value SummarizeStatus.failed) = true
ends_summarize _ = false

abbrev pub in_progress : DocumentStatus → Bool
in_progress DocumentStatus.processing = true
in_progress DocumentStatus.uploading = true
in_progress _ = false

abbrev pub is_processing : Option DocumentStatus → Bool
is_processing (some DocumentStatus.processing) = true
is_processing _ = false

-- The statuses that only a refresh shows.
abbrev pub is_settled : Option DocumentStatus → Bool
is_settled (some DocumentStatus.failed) = true
is_settled (some DocumentStatus.paused) = true
is_settled (some DocumentStatus.ready) = true
is_settled _ = false

abbrev stage_of : Option Text → Option DocumentProgressStage
stage_of none = none
stage_of (some stage) = is_document_progress_stage (some (Json.string stage))

abbrev prefer {ℓ} : {A : Type ℓ} → Option A → Option A → Option A
prefer none b = b
prefer (some a) b = some a

abbrev prefer_value : Nullable SummarizeStatus → Nullable SummarizeStatus → Nullable SummarizeStatus
prefer_value (Nullable.value s) old = Nullable.value s
prefer_value _ old = old

unfoldable pub with_progress :
    Option DocumentStatus → DocumentStatusUpdate → DocumentSummary → DocumentSummary
with_progress normalized update doc =
    if is_processing normalized && in_progress doc.status
    then record doc {
      status = DocumentStatus.processing;
      progress_stage = stage_of update.progress_stage;
      progress_done = update.progress_done;
      progress_total = update.progress_total;
    }
    else doc

unfoldable pub with_summarize : DocumentStatusUpdate → DocumentSummary → DocumentSummary
with_summarize update doc =
    if has_summarize update
    then record doc {
      summarize_status = prefer_value update.summarize_status doc.summarize_status;
      summarize_done = prefer update.summarize_done doc.summarize_done;
      summarize_total = prefer update.summarize_total doc.summarize_total;
      summarize_error = prefer update.summarize_error doc.summarize_error;
    }
    else doc

unfoldable pub update_document :
    Option DocumentStatus → DocumentStatusUpdate → DocumentSummary → DocumentSummary
update_document normalized update doc =
    if str_eq doc.id update.document_id
    then with_summarize update (with_progress normalized update doc)
    else doc

-- What an update asks for.
pub data Effect : Type 0 where
  ask_refresh ignore : Effect
  -- No document has the id: React may run the function that finds that out, the argument of
  -- `setDocuments`, before the test of `missing` or behind it, and the list is loaded again or not.
  missing : Effect
  show : List DocumentSummary → Effect

abbrev pub effect_on :
    Option Text → Option DocumentStatus → DocumentStatusUpdate → List DocumentSummary → Effect
effect_on (some status) none update docs = ignore
effect_on _ normalized update docs =
    if is_settled normalized
    then ask_refresh
    else if not (has_document update.document_id docs)
    then missing
    else show (map (update_document normalized update) docs)

abbrev pub normalized_of : Js → Option Text → Option DocumentStatus
normalized_of js none = none
normalized_of js (some status) = normalize_document_status js (some (Json.string status))

-- The listener of `document:status-update`.
unfoldable pub on_status_update : Js → DocumentStatusUpdate → List DocumentSummary → Effect
on_status_update js update docs =
    if ends_summarize update.summarize_status
    then ask_refresh
    else effect_on update.status (normalized_of js update.status) update docs

abbrev pub shown : Effect → List DocumentSummary → List DocumentSummary
shown (show docs) before = docs
shown _ before = before
