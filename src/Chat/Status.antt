-- ===== src/Chat/Status.antt =====
-- apps/api-gateway/src/chat/chat.status.ts: the events of the broker that the UI is told of.
pub mod Shape
use ragpolyglot_demo.Base.{Option, none, some, List, [], ◌∷◌, or_else}
use ragpolyglot_demo.Base.Text.{Text, codes}
use ragpolyglot_demo.Shared.Number.{Number, whole}
use ragpolyglot_demo.Shared.Json.{Json}
use ragpolyglot_demo.Shared.Types
use ragpolyglot_demo.Shared.Types.{DocumentStatus, SummarizeStatus, DocumentProgressStage}
use ragpolyglot_demo.Shared.Records.{Nullable}
use ragpolyglot_demo.Shared.Contracts.{is_document_progress_stage}

pub record StatusEvent : Type 0 where
  pub type : Option Text
  pub document_id : Option Text
  pub stage : Option Text
  pub done : Option Number
  pub total : Option Number
  pub error_reason : Option Text

pub record Progress : Type 0 where
  pub progress_stage : DocumentProgressStage
  pub progress_done : Number
  pub progress_total : Number

-- The properties of `summarize`. One that is absent and one that is present but `undefined` are
-- read alike, as `none`.
pub record Summarize : Type 0 where
  pub summarize_status : Nullable SummarizeStatus
  pub summarize_done : Option Number
  pub summarize_total : Option Number
  pub summarize_error : Option Text

pub record ParsedDocumentStatusEvent : Type 0 where
  pub document_id : Text
  pub status : Option DocumentStatus
  pub progress : Option Progress
  pub summarize : Option Summarize

-- The values of `event.type` that the switch knows.
pub data EventKind : Type 0 where
  processed failed paused progress : EventKind
  summarize_progress summarize_completed summarize_failed summarize_paused : EventKind

abbrev pub kind_name : EventKind → Text
kind_name EventKind.processed = codes "document.processed"
kind_name EventKind.failed = codes "document.failed"
kind_name EventKind.paused = codes "document.paused"
kind_name EventKind.progress = codes "document.progress"
kind_name EventKind.summarize_progress = codes "document.summarize.progress"
kind_name EventKind.summarize_completed = codes "document.summarize.completed"
kind_name EventKind.summarize_failed = codes "document.summarize.failed"
kind_name EventKind.summarize_paused = codes "document.summarize.paused"

abbrev pub event_kinds : List EventKind
event_kinds =
    EventKind.processed ∷ EventKind.failed ∷ EventKind.paused ∷ EventKind.progress
    ∷ EventKind.summarize_progress ∷ EventKind.summarize_completed ∷ EventKind.summarize_failed
    ∷ EventKind.summarize_paused ∷ []

abbrev pub kind_of : Option Text → Option EventKind
kind_of none = none
kind_of (some type) = Types.find_named kind_name event_kinds type

abbrev with_status : Text → DocumentStatus → ParsedDocumentStatusEvent
with_status id status = record {
  document_id = id;
  status = some status;
  progress = none;
  summarize = none;
}

abbrev with_summarize : Text → Summarize → ParsedDocumentStatusEvent
with_summarize id s = record {
  document_id = id;
  status = none;
  progress = none;
  summarize = some s;
}

abbrev stage_of : Option Text → Option DocumentProgressStage
stage_of none = none
stage_of (some stage) = is_document_progress_stage (some (Json.string stage))

-- The cases of the switch.
parse_kind : EventKind → Text → StatusEvent → Option ParsedDocumentStatusEvent
parse_kind EventKind.processed id event = some (with_status id DocumentStatus.ready)
parse_kind EventKind.failed id event = some (with_status id DocumentStatus.failed)
parse_kind EventKind.paused id event = some (with_status id DocumentStatus.paused)
parse_kind EventKind.progress id event = elim (stage_of event.stage) [
  | none ↦ none
  | some stage ↦ some (record {
    document_id = id;
    status = some DocumentStatus.processing;
    progress = some (record {
      progress_stage = stage;
      progress_done = or_else event.done (whole 0);
      progress_total = or_else event.total (whole 0);
    });
    summarize = none;
  })
]
parse_kind EventKind.summarize_progress id event = some (
    with_summarize id (record {
      summarize_status = Nullable.value SummarizeStatus.running;
      summarize_done = some (or_else event.done (whole 0));
      summarize_total = some (or_else event.total (whole 0));
      summarize_error = none;
    }))
parse_kind EventKind.summarize_completed id event = some (
    with_summarize id (record {
      summarize_status = Nullable.null;
      summarize_done = none;
      summarize_total = none;
      summarize_error = none;
    }))
parse_kind EventKind.summarize_failed id event = some (
    with_summarize id (record {
      summarize_status = Nullable.value SummarizeStatus.failed;
      summarize_done = none;
      summarize_total = none;
      summarize_error = event.error_reason;
    }))
parse_kind EventKind.summarize_paused id event = some (
    with_summarize id (record {
      summarize_status = Nullable.value SummarizeStatus.paused;
      summarize_done = none;
      summarize_total = none;
      summarize_error = none;
    }))

parse_known : Option EventKind → Text → StatusEvent → Option ParsedDocumentStatusEvent
unfolding parse_kind
parse_known none id event = none
parse_known (some kind) id event = parse_kind kind id event

parse_for : Option Text → StatusEvent → Option ParsedDocumentStatusEvent
unfolding parse_known
parse_for none event = none
parse_for (some []) event = none
parse_for (some (c ∷ id)) event = parse_known (kind_of event.type) (c ∷ id) event

unfoldable pub parse_document_status_event : StatusEvent → Option ParsedDocumentStatusEvent
unfolding parse_for
parse_document_status_event event = parse_for event.document_id event
