-- ===== src/View/Documents/Settled.antt =====
-- From a broker event to the list in the browser.
use ragpolyglot_demo.Base.{
  ◌≡◌, refl, Bool, true, false, ◌||◌, Option, none, some, List, [], ◌∷◌, any, arith,
}
use ragpolyglot_demo.Base.Text.{Text, codes, str_eq}
use ragpolyglot_demo.Shared.Json.{Json, Js}
use ragpolyglot_demo.Shared.Types.{
  DocumentStatus, SummarizeStatus, status_name, summarize_name, find_named,
}
use ragpolyglot_demo.Shared.Records.{Nullable, DocumentSummary}
use ragpolyglot_demo.Shared.Contracts.{normalize_document_status, is_document_status}
use ragpolyglot_demo.Chat.Status.{ParsedDocumentStatusEvent, Progress, Summarize}
use ragpolyglot_demo.Chat.Gateway.Events.{status_update}
use ragpolyglot_demo.View.Documents.{ask_refresh, is_settled, ends_summarize, on_status_update}

-- The runtime leaves the names of the statuses as they are.
abbrev pub KeepsNames : Js → Type 0
KeepsNames js =
    (s : DocumentStatus) → js.lower (js.to_string (Json.string (status_name s))) ≡ status_name s

normalize-name :
    (js : Js) (s : DocumentStatus)
    → KeepsNames js
    → normalize_document_status js (some (Json.string (status_name s))) ≡ some s
unfolding normalize_document_status is_document_status find_named str_eq
normalize-name js DocumentStatus.uploading h = rw (h DocumentStatus.uploading) refl
normalize-name js DocumentStatus.processing h = rw (h DocumentStatus.processing) refl
normalize-name js DocumentStatus.paused h = rw (h DocumentStatus.paused) refl
normalize-name js DocumentStatus.ready h = rw (h DocumentStatus.ready) refl
normalize-name js DocumentStatus.failed h = rw (h DocumentStatus.failed) refl

-- The status is `ready`, `failed` or `paused`.
abbrev pub has_settled : Option DocumentStatus → Bool
has_settled none = false
has_settled (some s) =
    any (λ name. str_eq (status_name s) name) (codes "ready" ∷ codes "failed" ∷ codes "paused" ∷ [])

-- The part on the summary says that there is none left, or that it has failed.
abbrev pub over : Nullable SummarizeStatus → Bool
over Nullable.null = true
over (Nullable.value status) = str_eq (summarize_name status) (codes "failed")
over Nullable.undefined = false

abbrev pub summary_over : Option Summarize → Bool
summary_over none = false
summary_over (some s) = over s.summarize_status

abbrev pub settles : ParsedDocumentStatusEvent → Bool
settles p = has_settled p.status || summary_over p.summarize

ends_summarize-over :
    (status : Nullable SummarizeStatus) → over status ≡ true → ends_summarize status ≡ true
unfolding str_eq
ends_summarize-over Nullable.null h = refl
ends_summarize-over (Nullable.value SummarizeStatus.running) h = cc
ends_summarize-over (Nullable.value SummarizeStatus.paused) h = cc
ends_summarize-over (Nullable.value SummarizeStatus.failed) h = refl
ends_summarize-over Nullable.undefined h = cc

is_settled-has_settled :
    (s : DocumentStatus) → has_settled (some s) ≡ true → is_settled (some s) ≡ true
unfolding str_eq
is_settled-has_settled DocumentStatus.uploading h = cc
is_settled-has_settled DocumentStatus.processing h = cc
is_settled-has_settled DocumentStatus.paused h = refl
is_settled-has_settled DocumentStatus.ready h = refl
is_settled-has_settled DocumentStatus.failed h = refl

update-asks :
    (js : Js) (now id : Text) (status : Option DocumentStatus) (progress : Option Progress)
    (summarize : Option Summarize) (docs : List DocumentSummary)
    → KeepsNames js
    → (has_settled status || summary_over summarize) ≡ true
    → on_status_update js
        (status_update now (record {
          document_id = id;
          status = status;
          progress = progress;
          summarize = summarize;
        }))
        docs
      ≡ ask_refresh
unfolding on_status_update status_update
update-asks js now id none progress none docs k h = cc
update-asks js now id none none (some s) docs k h =
    ground (arith, h, ends_summarize-over s.summarize_status)
update-asks js now id none (some p) (some s) docs k h =
    ground (arith, h, ends_summarize-over s.summarize_status)
update-asks js now id (some t) none none docs k h =
    ground (arith, h, normalize-name js t k, is_settled-has_settled t)
update-asks js now id (some t) (some p) none docs k h =
    ground (arith, h, normalize-name js t k, is_settled-has_settled t)
update-asks js now id (some t) none (some s) docs k h = ground (
  arith,
  h,
  normalize-name js t k,
  is_settled-has_settled t,
  ends_summarize-over s.summarize_status,
)
update-asks js now id (some t) (some p) (some s) docs k h = ground (
  arith,
  h,
  normalize-name js t k,
  is_settled-has_settled t,
  ends_summarize-over s.summarize_status,
)

-- What the gateway sends for an event that says a document is ready, has failed or is paused, or
-- that its summary is over or has failed, makes the browser load the list again, whatever it shows,
-- if the runtime leaves the names of the statuses as they are.
pub status_update-eq-ask_refresh :
    (js : Js) (now : Text) (p : ParsedDocumentStatusEvent) (docs : List DocumentSummary)
    → KeepsNames js
    → settles p ≡ true
    → on_status_update js (status_update now p) docs ≡ ask_refresh
status_update-eq-ask_refresh js now p docs k h =
    update-asks js now p.document_id p.status p.progress p.summarize docs k h
