-- ===== src/Tests/View.antt =====
-- A list of documents under an update, a refresh and an event.
use ragpolyglot_demo.Base.{
  arith, false, inl, ◌≡◌, refl, true, not, ◌||◌, none, some, List, [], ◌∷◌, all, inr,
}
use ragpolyglot_demo.Base.Text.{Text, codes, str_eq}
use ragpolyglot_demo.Base.Order.{contains, Distinct}
use ragpolyglot_demo.Shared.Number.{whole}
use ragpolyglot_demo.Shared.Types.{DocumentStatus}
use ragpolyglot_demo.Shared.Records.{Nullable, DocumentSummary, DocumentStatusUpdate}
use ragpolyglot_demo.Chat.Status.{ParsedDocumentStatusEvent}
use ragpolyglot_demo.Chat.Gateway.Events.{status_update}
use ragpolyglot_demo.View.Documents.{View, is_active, refresh, on_status_update, shown, ask_refresh}
use ragpolyglot_demo.View.Documents.Updates.{AllKept, on_status_update-AllKept}
use ragpolyglot_demo.View.Documents.Ids.{
  Action, refreshed, applied, updated, removed, ids, act_all, act_all-Distinct,
}
use ragpolyglot_demo.View.Documents.Requests.{Operation, Event, on_events}
use ragpolyglot_demo.View.Documents.Requests.Heard.{IsHeard, listens, refresh-on_events}
use ragpolyglot_demo.View.Documents.Settled.{KeepsNames, status_update-eq-ask_refresh}
use ragpolyglot_demo.Tests.Shared.{ascii_js}

abbrev pub document : Text → DocumentStatus → DocumentSummary
document id status = record {
  id = id;
  title = codes "A book";
  file_ext = some (codes "pdf");
  status = status;
  error_reason = none;
  progress_stage = none;
  progress_done = none;
  progress_total = none;
  summarize_status = Nullable.undefined;
  summarize_done = none;
  summarize_total = none;
  summarize_error = none;
  ocr_lang = none;
  ocr_engine = none;
  created_at = none;
}

abbrev two_documents : List DocumentSummary
two_documents =
    document (codes "d1") DocumentStatus.uploading ∷ document (codes "d2") DocumentStatus.ready ∷ []

abbrev processing_update : DocumentStatusUpdate
processing_update = record {
  document_id = codes "d1";
  status = some (codes "processing");
  timestamp = none;
  progress_stage = some (codes "embedding");
  progress_done = some (whole 1);
  progress_total = some (whole 3);
  summarize_status = Nullable.undefined;
  summarize_done = none;
  summarize_total = none;
  summarize_error = none;
}

abbrev empty_view : View
empty_view = record { documents = []; loading = true; error = none; subscribed = []; calls = [] }

abbrev three_actions : List Action
three_actions =
    refreshed (inr two_documents)
    ∷ updated processing_update
    ∷ applied (codes "d1") (document (codes "d1") DocumentStatus.paused)
    ∷ removed (codes "d2")
    ∷ []

on_status_update-AllKept_example :
    AllKept processing_update two_documents
      (shown (on_status_update ascii_js processing_update two_documents) two_documents)
on_status_update-AllKept_example = on_status_update-AllKept ascii_js processing_update two_documents

act_all-Distinct_example : Distinct (ids (act_all ascii_js three_actions empty_view).documents)
unfolding contains str_eq
act_all-Distinct_example =
    act_all-Distinct ascii_js three_actions empty_view ((refl, (refl, tt)), (tt, (refl, (tt, tt))))
      tt

abbrev summarizing : List Event
summarizing =
    Event.loaded false (inr two_documents)
    ∷ Event.performed Operation.start_summarize (codes "d2")
        (inr (some (document (codes "d2") DocumentStatus.processing))) (inr [])
    ∷ Event.performed Operation.retry (codes "d1") (inl (codes "Request timed out"))
        (inr two_documents)
    ∷ Event.removed (codes "d1")
    ∷ []

empty_view-IsHeard : IsHeard empty_view
unfolding contains
empty_view-IsHeard a h = ground (arith, h)

refresh-on_events_example :
    IsHeard (on_events summarizing empty_view)
    × (all
          (λ d.
            not (is_active d)
            || listens d.id false
                (refresh (inr two_documents) (on_events summarizing empty_view)).calls)
          two_documents
        ≡ true)
refresh-on_events_example =
    refresh-on_events summarizing two_documents empty_view empty_view-IsHeard

ascii_js-KeepsNames : KeepsNames ascii_js
ascii_js-KeepsNames DocumentStatus.uploading = refl
ascii_js-KeepsNames DocumentStatus.processing = refl
ascii_js-KeepsNames DocumentStatus.paused = refl
ascii_js-KeepsNames DocumentStatus.ready = refl
ascii_js-KeepsNames DocumentStatus.failed = refl

abbrev ready_event : ParsedDocumentStatusEvent
ready_event = record {
  document_id = codes "d1";
  status = some DocumentStatus.ready;
  progress = none;
  summarize = none;
}

status_update-eq-ask_refresh_example :
    on_status_update ascii_js (status_update (codes "now") ready_event) two_documents ≡ ask_refresh
unfolding str_eq
status_update-eq-ask_refresh_example =
    status_update-eq-ask_refresh ascii_js (codes "now") ready_event two_documents
      ascii_js-KeepsNames refl
