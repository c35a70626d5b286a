-- ===== src/Chat/History.antt =====
-- apps/api-gateway/src/chat/conversation.service.ts: the turns of a conversation in the tables, and
-- the rows as the UI sees them.
pub mod Turns
use ragpolyglot_demo.Base.{
  ℕ, Bool, true, false, not, Option, none, some, List, [], ◌∷◌, ◌++◌, map, filter, if◌then◌else◌,
  or_else,
}
use ragpolyglot_demo.Base.Text.{Text, codes, str_eq, trim, is_empty}
use ragpolyglot_demo.Shared.Number.{Number}
use ragpolyglot_demo.Shared.Json.{Json, as_string, as_array}
use ragpolyglot_demo.Shared.Types.{ChatRole}
use ragpolyglot_demo.Shared.Records.{Source, ConversationSummary, ConversationMessage}
use ragpolyglot_demo.Shared.Contracts.{is_chat_role, parse_rag_sources}
use ragpolyglot_demo.Shared.Title.{conversation_title_from_query}
use ragpolyglot_demo.Chat.Postgres.{
  Db, Statement, upsert_conversation, touch_conversation, insert_message, Postgres, Ran, next,
  later, ensure_ready, has_conversation, run_in_transaction,
}

-- `typeof id === 'string' && id.trim().length > 0`, with the id
abbrev kept_id : Option Text → List Text → List Text
kept_id none rest = rest
kept_id (some id) rest = if is_empty (trim id) then rest else id ∷ rest

unfoldable pub kept_ids : List Json → List Text
kept_ids [] = []
kept_ids (v ∷ vs) = kept_id (as_string (some v)) (kept_ids vs)

abbrev unless_none : List Text → Option (List Text)
unless_none [] = none
unless_none (id ∷ ids) = some (id ∷ ids)

abbrev ids_of : Option (List Json) → Option (List Text)
ids_of none = none
ids_of (some vs) = unless_none (kept_ids vs)

unfoldable pub parse_document_ids : Option Json → Option (List Text)
parse_document_ids raw = ids_of (as_array raw)

-- A row of get-conversation.sql and list-conversations.sql, the dates as `toIso` writes them.
pub record SummaryRow : Type 0 where
  pub id : Text
  pub title : Text
  pub document_ids : Option Json
  pub created_at : Text
  pub updated_at : Text

unfoldable pub to_summary : SummaryRow → ConversationSummary
to_summary row = record {
  id = row.id;
  title = row.title;
  created_at = row.created_at;
  updated_at = row.updated_at;
  document_ids = parse_document_ids row.document_ids;
}

-- A row of list-messages.sql, its id behind `Number`.
pub record HistoryRow : Type 0 where
  pub id : Number
  pub conversation_id : Text
  pub role : Text
  pub text : Text
  pub sources : Option Json
  pub created_at : Text

unfoldable pub to_message : HistoryRow → ConversationMessage
to_message row = record {
  id = row.id;
  conversation_id = row.conversation_id;
  role = or_else (is_chat_role (some (Json.string row.role))) ChatRole.assistant;
  text = row.text;
  sources = parse_rag_sources row.sources;
  created_at = row.created_at;
}

-- The UUIDs, `NOW()` and `JSON.stringify` of a list of ids and of sources.
module _ (uuid : Text → Option Text) (now : Text) where
  -- `ensureReady`, and then the transaction.
  abbrev pub when_ready : List Statement → Postgres → Ran
  when_ready sts p =
      if p.ready then run_in_transaction uuid now sts p else record { postgres = p; threw = true }

  unfoldable pub begin_turn : (List Text → Text) → Text → Text → Option (List Text) → Postgres → Ran
  begin_turn stringify_ids conversation_id query document_ids p =
      when_ready
        (upsert_conversation conversation_id (conversation_title_from_query query)
            (stringify_ids (or_else document_ids []))
          ∷ insert_message conversation_id (codes "user") query none
          ∷ [])
        (ensure_ready p)

  -- `sources.length > 0 ? JSON.stringify(sources) : null`
  abbrev pub sources_param : (List Source → Text) → List Source → Option Text
  sources_param stringify [] = none
  sources_param stringify (s ∷ ss) = some (stringify (s ∷ ss))

  unfoldable pub complete_assistant :
      (List Source → Text) → Text → Text → List Source → Postgres → Ran
  complete_assistant stringify_sources conversation_id answer sources p =
      when_ready
        (touch_conversation conversation_id
          ∷ insert_message conversation_id (codes "assistant") answer
              (sources_param stringify_sources sources)
          ∷ [])
        (ensure_ready p)

  -- The second step, unless the first one threw.
  abbrev pub and_then : Ran → (Postgres → Ran) → Ran
  and_then out rest = if out.threw then out else rest out.postgres

  unfoldable pub persist_turn :
      (List Text → Text)
      → (List Source → Text)
      → Text
      → Text
      → Text
      → List Source
      → Option (List Text)
      → Postgres
      → Ran
  persist_turn stringify_ids stringify_sources conversation_id query answer sources document_ids p =
      and_then (begin_turn stringify_ids conversation_id query document_ids p)
        (λ p'. complete_assistant stringify_sources conversation_id answer sources p')
