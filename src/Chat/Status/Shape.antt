-- ===== src/Chat/Status/Shape.antt =====
-- What a parsed event says, and which routing keys it can come from.
use ragpolyglot_demo.Base.{
  ap, ◌≡◌, refl, Bool, true, false, not, Option, none, some, List, [], ◌∷◌, arith, is_some,
}
use ragpolyglot_demo.Base.Dict.{Dict, lookup}
use ragpolyglot_demo.Shared.Records.{Nullable}
use ragpolyglot_demo.Base.Order.{contains}
use ragpolyglot_demo.Base.Text.{Text, codes, str_eq, is_empty}
use ragpolyglot_demo.Shared.Types.{DocumentStatus, SummarizeStatus, find_named, find_named_sound}
use ragpolyglot_demo.Chat.Status.{
  StatusEvent, ParsedDocumentStatusEvent, EventKind, Summarize, kind_name, event_kinds, kind_of,
  parse_kind, parse_known, parse_for, parse_document_status_event,
}

-- `status === 'processing'`
abbrev pub is_processing : Option DocumentStatus → Bool
is_processing (some DocumentStatus.processing) = true
is_processing _ = false

-- What each type of event says: the status of the document, or that of its summary.
abbrev pub Outcome : Type 0
Outcome = Option DocumentStatus × Option (Nullable SummarizeStatus)

abbrev pub announced : Dict Outcome
announced =
    (codes "document.progress", (some DocumentStatus.processing, none))
    ∷ (codes "document.processed", (some DocumentStatus.ready, none))
    ∷ (codes "document.failed", (some DocumentStatus.failed, none))
    ∷ (codes "document.paused", (some DocumentStatus.paused, none))
    ∷ (codes "document.summarize.progress", (none, some (Nullable.value SummarizeStatus.running)))
    ∷ (codes "document.summarize.completed", (none, some Nullable.null))
    ∷ (codes "document.summarize.failed", (none, some (Nullable.value SummarizeStatus.failed)))
    ∷ (codes "document.summarize.paused", (none, some (Nullable.value SummarizeStatus.paused)))
    ∷ []

abbrev pub says : Option Text → Option Outcome
says none = none
says (some type) = lookup type announced

abbrev pub summary_said : Option Summarize → Option (Nullable SummarizeStatus)
summary_said none = none
summary_said (some s) = some s.summarize_status

abbrev pub outcome : ParsedDocumentStatusEvent → Outcome
outcome p = (p.status, summary_said p.summarize)

-- A parsed event is about the document that the message names, whose id is not empty; it has the
-- status or the summarize part that the type of the message says, never both, and progress exactly
-- if the status is `processing`.
pub record IsCoherent (event : StatusEvent) (p : ParsedDocumentStatusEvent) : Type 0 where
  pub same_document : event.document_id ≡ some p.document_id
  pub named : is_empty p.document_id ≡ false
  pub said : says event.type ≡ some (outcome p)
  pub one_part : is_some p.status ≡ not (is_some p.summarize)
  pub progressing : is_some p.progress ≡ is_processing p.status

parse_kind-IsCoherent :
    (kind : EventKind) (id : Text) (event : StatusEvent) (p : ParsedDocumentStatusEvent)
    → event.type ≡ some (kind_name kind)
    → event.document_id ≡ some id
    → is_empty id ≡ false
    → parse_kind kind id event ≡ some p
    → IsCoherent event p
unfolding parse_kind lookup str_eq
parse_kind-IsCoherent EventKind.processed id event p t d n h = ground (arith, ap says t)
parse_kind-IsCoherent EventKind.failed id event p t d n h = ground (arith, ap says t)
parse_kind-IsCoherent EventKind.paused id event p t d n h = ground (arith, ap says t)
parse_kind-IsCoherent EventKind.progress id event p t d n h = ground (arith, ap says t)
parse_kind-IsCoherent EventKind.summarize_progress id event p t d n h = ground (arith, ap says t)
parse_kind-IsCoherent EventKind.summarize_completed id event p t d n h = ground (arith, ap says t)
parse_kind-IsCoherent EventKind.summarize_failed id event p t d n h = ground (arith, ap says t)
parse_kind-IsCoherent EventKind.summarize_paused id event p t d n h = ground (arith, ap says t)

kind_of_sound :
    (type : Option Text) (kind : EventKind)
    → kind_of type ≡ some kind
    → type ≡ some (kind_name kind)
kind_of_sound none kind h = cc
kind_of_sound (some type) kind h = ap some (find_named_sound kind_name event_kinds type kind h)

parse_known-IsCoherent :
    (kind : Option EventKind) (id : Text) (event : StatusEvent) (p : ParsedDocumentStatusEvent)
    → kind_of event.type ≡ kind
    → event.document_id ≡ some id
    → is_empty id ≡ false
    → parse_known kind id event ≡ some p
    → IsCoherent event p
unfolding parse_known
parse_known-IsCoherent none id event p t d n h = cc
parse_known-IsCoherent (some kind) id event p t d n h =
    parse_kind-IsCoherent kind id event p (kind_of_sound event.type kind t) d n h

parse_for-IsCoherent :
    (o : Option Text) (event : StatusEvent) (p : ParsedDocumentStatusEvent)
    → event.document_id ≡ o
    → parse_for o event ≡ some p
    → IsCoherent event p
unfolding parse_for
parse_for-IsCoherent none event p d h = cc
parse_for-IsCoherent (some []) event p d h = cc
parse_for-IsCoherent (some (c ∷ id)) event p d h =
    parse_known-IsCoherent (kind_of event.type) (c ∷ id) event p refl d refl h

-- Whatever is parsed from an event is about the document that the event names, whose id is not empty;
-- it has the status, or the status of a summary, that the type of the event says, never both, and
-- progress exactly if the status is `processing`.
pub parse_document_status_event-IsCoherent :
    (event : StatusEvent) (p : ParsedDocumentStatusEvent)
    → parse_document_status_event event ≡ some p
    → IsCoherent event p
unfolding parse_document_status_event
parse_document_status_event-IsCoherent event p h =
    parse_for-IsCoherent event.document_id event p refl h

-- The keys by which core/rabbitmq.service.ts binds the gateway's queue.
abbrev pub routing_keys : List Text
routing_keys =
    codes "document.processed"
    ∷ codes "document.failed"
    ∷ codes "document.progress"
    ∷ codes "document.paused"
    ∷ codes "document.summarize.progress"
    ∷ codes "document.summarize.completed"
    ∷ codes "document.summarize.failed"
    ∷ codes "document.summarize.paused"
    ∷ []

-- The queue is bound to exactly the event types that the parser knows.
pub contains-routing_keys : (key : Text) → contains key routing_keys ≡ is_some (kind_of (some key))
unfolding contains find_named
contains-routing_keys key = ground arith
