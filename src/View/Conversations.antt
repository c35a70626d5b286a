-- ===== src/View/Conversations.antt =====
-- apps/react-frontend/src/lib/conversations.ts: the stored conversations and their messages from
-- the JSON of the gateway. `number_of` is `Number` on a value that is no number.
use ragpolyglot_demo.Base.{Option, none, some, List, [], ◌∷◌, map, if◌then◌else◌}
use ragpolyglot_demo.Base.Text.{Text, codes, trim, is_empty}
use ragpolyglot_demo.Shared.Number.{Number, is_finite}
use ragpolyglot_demo.Shared.Json.{Json, Fields, property, as_string, as_object, as_array}
use ragpolyglot_demo.Shared.Types.{ChatRole}
use ragpolyglot_demo.Shared.Records.{ConversationSummary, ConversationMessage, Message}
use ragpolyglot_demo.Shared.Contracts.{is_chat_role, parse_rag_sources}
use ragpolyglot_demo.View.Mapping.{map_rows}

abbrev filled : Option Text → Option Text
filled none = none
filled (some []) = none
filled (some (c ∷ s)) = some (c ∷ s)

abbrev to_iso : Text → Fields → Option Text
to_iso name row = filled (as_string (property name row))

abbrev with_id : Option Text → List Text → List Text
with_id none rest = rest
with_id (some id) rest = if is_empty (trim id) then rest else id ∷ rest

abbrev ids_of : List Json → List Text
ids_of [] = []
ids_of (v ∷ vs) = with_id (as_string (some v)) (ids_of vs)

abbrev unless_none : List Text → Option (List Text)
unless_none [] = none
unless_none (id ∷ ids) = some (id ∷ ids)

abbrev document_ids_of : Option (List Json) → Option (List Text)
document_ids_of none = none
document_ids_of (some vs) = unless_none (ids_of vs)

abbrev summary_of :
    Option Text
    → Option Text
    → Option Text
    → Option Text
    → Option (List Text)
    → Option ConversationSummary
summary_of (some id) (some title) (some created_at) (some updated_at) document_ids = some (record {
  id = id;
  title = title;
  created_at = created_at;
  updated_at = updated_at;
  document_ids = document_ids;
})
summary_of _ _ _ _ _ = none

abbrev conversation_of : Option Fields → Option ConversationSummary
conversation_of none = none
conversation_of (some row) =
    summary_of (as_string (property (codes "id") row)) (as_string (property (codes "title") row))
      (to_iso (codes "createdAt") row) (to_iso (codes "updatedAt") row)
      (document_ids_of (as_array (property (codes "documentIds") row)))

unfoldable pub map_conversation : Json → Option ConversationSummary
map_conversation item = conversation_of (as_object item)

abbrev rows_of : Option (List Json) → List Json
rows_of none = []
rows_of (some rows) = rows

unfoldable pub map_conversations : Option Json → List ConversationSummary
map_conversations items = map_rows map_conversation (rows_of (as_array items))

module _ (number_of : Option Json → Number) where
  abbrev id_of : Option Json → Number
  id_of (some (Json.number n)) = n
  id_of value = number_of value

  abbrev message_of :
      Number
      → Option Text
      → Option ChatRole
      → Option Text
      → Option Text
      → Option Json
      → Option ConversationMessage
  message_of id (some conversation_id) (some role) (some text) (some created_at) sources =
      if is_finite id
      then some (record {
        id = id;
        conversation_id = conversation_id;
        role = role;
        text = text;
        sources = parse_rag_sources sources;
        created_at = created_at;
      })
      else none
  message_of _ _ _ _ _ _ = none

  abbrev message_of_row : Option Fields → Option ConversationMessage
  message_of_row none = none
  message_of_row (some row) =
      message_of (id_of (property (codes "id") row))
        (as_string (property (codes "conversationId") row))
        (is_chat_role (property (codes "role") row)) (as_string (property (codes "text") row))
        (to_iso (codes "createdAt") row) (property (codes "sources") row)

  unfoldable pub map_message : Json → Option ConversationMessage
  map_message item = message_of_row (as_object item)

  unfoldable pub map_conversation_messages : Option Json → List ConversationMessage
  map_conversation_messages items = map_rows map_message (rows_of (as_array items))

unfoldable pub to_chat_messages : List ConversationMessage → List Message
to_chat_messages messages =
    map (λ m. record { role = m.role; text = m.text; sources = m.sources }) messages
