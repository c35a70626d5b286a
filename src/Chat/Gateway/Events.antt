-- ===== src/Chat/Gateway/Events.antt =====
-- apps/api-gateway/src/chat/chat.gateway.ts: `onModuleInit` and `emitDocumentStatusUpdate`, the way of
-- a broker event to the browser, and the two handlers that join a room.
use ragpolyglot_demo.Base.{Bool, true, false, ◌||◌, Option, none, some, ◌++◌, if◌then◌else◌}
use ragpolyglot_demo.Base.Text.{Text, codes, str_eq, trim, is_empty}
use ragpolyglot_demo.Shared.Types.{DocumentStatus, status_name, stage_name}
use ragpolyglot_demo.Shared.Records.{Nullable, DocumentStatusUpdate}
use ragpolyglot_demo.Chat.Status.{
  StatusEvent, Progress, Summarize, ParsedDocumentStatusEvent, parse_document_status_event,
}
use ragpolyglot_demo.Chat.Gateway.World.{World, chat_room}
use ragpolyglot_demo.Chat.Gateway.Query.{join}

abbrev name_of_status : Option DocumentStatus → Option Text
name_of_status none = none
name_of_status (some status) = some (status_name status)

abbrev with_progress : Option Progress → DocumentStatusUpdate → DocumentStatusUpdate
with_progress none u = u
with_progress (some p) u = record u {
  progress_stage = some (stage_name p.progress_stage);
  progress_done = some p.progress_done;
  progress_total = some p.progress_total;
}

abbrev with_summarize : Option Summarize → DocumentStatusUpdate → DocumentStatusUpdate
with_summarize none u = u
with_summarize (some s) u = record u {
  summarize_status = s.summarize_status;
  summarize_done = s.summarize_done;
  summarize_total = s.summarize_total;
  summarize_error = s.summarize_error;
}

-- The payload of `document:status-update`, sent at the time given.
unfoldable pub status_update : Text → ParsedDocumentStatusEvent → DocumentStatusUpdate
status_update now parsed = with_summarize parsed.summarize (
    with_progress parsed.progress (record {
      document_id = parsed.document_id;
      status = name_of_status parsed.status;
      timestamp = some now;
      progress_stage = none;
      progress_done = none;
      progress_total = none;
      summarize_status = Nullable.undefined;
      summarize_done = none;
      summarize_total = none;
      summarize_error = none;
    }))

abbrev is_ready : Option DocumentStatus → Bool
is_ready (some DocumentStatus.ready) = true
is_ready _ = false

abbrev type_is : Option Text → Text → Bool
type_is none name = false
type_is (some type) name = str_eq type name

-- What a message brings about: an update for the room `doc:<id>`, and whether the version of the
-- documents, which is part of every cache key, goes up.
pub record Announced : Type 0 where
  pub room : Text
  pub update : DocumentStatusUpdate
  pub new_version : Bool

abbrev announce : Text → Option Text → Option ParsedDocumentStatusEvent → Option Announced
announce now type none = none
announce now type (some parsed) = some (record {
  room = codes "doc:" ++ parsed.document_id;
  update = status_update now parsed;
  new_version = is_ready parsed.status || type_is type (codes "document.summarize.completed");
})

-- The consumer of the status queue, for a message that `JSON.parse` has read.
unfoldable pub on_message : Text → StatusEvent → Option Announced
on_message now event = announce now event.type (parse_document_status_event event)

-- `handleSubscribeDocument`
unfoldable pub handle_subscribe_document : Text → Text → World → World
handle_subscribe_document client document_id w =
    if is_empty document_id then w else join client (codes "doc:" ++ document_id) w

-- `handleSubscribeConversation`
unfoldable pub handle_subscribe_conversation : Text → Option Text → World → World
handle_subscribe_conversation client none w = w
handle_subscribe_conversation client (some id) w =
    if is_empty (trim id) then w else join client (chat_room (trim id)) w
