-- ===== src/Chat/Reading.antt =====
-- apps/api-gateway/src/chat/conversation.service.ts over assets/sql: listing, reading and deleting
-- conversations. Rows that the order of a query leaves equal stay in the order of the table.
pub mod Deleting
use ragpolyglot_demo.Base.{
  ℕ, Bool, true, false, not, ◌&&◌, ◌||◌, Option, none, some, List, [], ◌∷◌, ◌⊎◌, inl, inr, map,
  filter, take, ltb, if◌then◌else◌,
}
use ragpolyglot_demo.Base.Text.{Text, codes, str_eq}
use ragpolyglot_demo.Base.Order.{str_lt}
use ragpolyglot_demo.Shared.Json.{Json}
use ragpolyglot_demo.Shared.Number.{whole}
use ragpolyglot_demo.Shared.Records.{ConversationSummary, ConversationMessage}
use ragpolyglot_demo.Rag.Errors.{HttpException, not_found, service_unavailable}
use ragpolyglot_demo.Chat.Postgres.{
  ConversationRow, MessageRow, Db, Postgres, next, later, ensure_ready,
}
use ragpolyglot_demo.Chat.History.{SummaryRow, to_summary, HistoryRow, to_message}

-- An `HttpException`, or what the driver or `exec` throws.
pub data ReadError : Type 0 where
  http : HttpException → ReadError
  database : ReadError

abbrev pub Read : Type 0 → Type 0
Read A = Postgres → (ReadError ⊎ A) × Postgres

-- `f` behind a step, unless it threw
abbrev pub and_read :
    {A B : Type 0} → (ReadError ⊎ A) × Postgres → (A → Read B) → (ReadError ⊎ B) × Postgres
and_read (inl e, p) f = (inl e, p)
and_read (inr a, p) f = f a p

abbrev pub ready_or_throw : Postgres → (ReadError ⊎ Unit {0}) × Postgres
ready_or_throw p =
    if p.ready
    then (inr tt, p)
    else (inl (ReadError.http (service_unavailable (codes "Chat history is unavailable"))), p)

-- `ConversationService.ensureReady`
abbrev pub ensure_history : Read (Unit {0})
ensure_history p = ready_or_throw (ensure_ready p)

-- What a query gives, `none` where the server refuses it: the rows, and the tables behind it.
abbrev pub Query : Type 0 → Type 0
Query A = Db → Option (A × Db)

abbrev pub answered : {A : Type 0} → Option (A × Db) → Postgres → (ReadError ⊎ A) × Postgres
answered none p = (inl ReadError.database, record p { ready = false })
answered (some (rows, db)) p = (inr rows, record p { db = db })

abbrev pub queried : {A : Type 0} → Query A → Bool → Postgres → (ReadError ⊎ A) × Postgres
queried q true p = answered (q p.db) p
queried q false p = answered none p

abbrev pub exec_ready : {A : Type 0} → Query A → Read A
exec_ready q p =
    if p.ready
    then queried q (next p.link) (record p { link = later p.link })
    else (inl ReadError.database, p)

-- `PostgresService.exec`
unfoldable pub exec : {A : Type 0} → Query A → Read A
exec q p = exec_ready q (ensure_ready p)

-- `ORDER BY`: stable, by a test whether a row comes strictly before another
unfoldable pub insert_row : {A : Type 0} → (A → A → Bool) → A → List A → List A
insert_row before r [] = r ∷ []
insert_row before r (s ∷ rows) = if before s r then s ∷ insert_row before r rows else r ∷ s ∷ rows

unfoldable pub order_by : {A : Type 0} → (A → A → Bool) → List A → List A
order_by before [] = []
order_by before (r ∷ rows) = insert_row before r (order_by before rows)

abbrev pub newer : ConversationRow → ConversationRow → Bool
newer c d = str_lt d.updated_at c.updated_at

abbrev pub earlier : MessageRow → MessageRow → Bool
earlier m n =
    str_lt m.created_at n.created_at || (str_eq m.created_at n.created_at && ltb m.id n.id)

-- The parser of UUIDs, and the driver's of JSON columns.
module _ (uuid : Text → Option Text) (json_of : Text → Option Json) where
  -- list-conversations.sql
  abbrev pub list_conversations : Query (List ConversationRow)
  list_conversations db = some (take 50 (order_by newer db.conversations), db)

  -- get-conversation.sql
  abbrev pub found : Option Text → Query (List ConversationRow)
  found none db = none
  found (some id) db = some (filter (λ c. str_eq c.id id) db.conversations, db)

  -- list-messages.sql
  abbrev pub messages_of : Option Text → Query (List MessageRow)
  messages_of none db = none
  messages_of (some id) db =
      some (order_by earlier (filter (λ m. str_eq m.conversation_id id) db.messages), db)

  -- delete-conversation.sql; its messages are deleted with it (`ON DELETE CASCADE`)
  abbrev pub deleted : Option Text → Query (List Text)
  deleted none db = none
  deleted (some id) db = some (
    map (λ c. c.id) (filter (λ c. str_eq c.id id) db.conversations),
    record db {
      conversations = filter (λ c. not (str_eq c.id id)) db.conversations;
      messages = filter (λ m. not (str_eq m.conversation_id id)) db.messages;
    },
  )

  abbrev pub summary_row : ConversationRow → SummaryRow
  summary_row c = record {
    id = c.id;
    title = c.title;
    document_ids = json_of c.document_ids;
    created_at = c.created_at;
    updated_at = c.updated_at;
  }

  abbrev pub json_column : Option Text → Option Json
  json_column none = none
  json_column (some s) = json_of s

  abbrev pub history_row : MessageRow → HistoryRow
  history_row m = record {
    id = whole m.id;
    conversation_id = m.conversation_id;
    role = m.role;
    text = m.text;
    sources = json_column m.sources;
    created_at = m.created_at;
  }

  abbrev pub summary_of : ConversationRow → ConversationSummary
  summary_of c = to_summary (summary_row c)

  unfoldable pub list_all : Read (List ConversationSummary)
  list_all p =
      and_read (ensure_history p)
        (λ _ p. and_read (exec list_conversations p) (λ rows p. (inr (map summary_of rows), p)))

  abbrev pub conversation_not_found : ReadError
  conversation_not_found = ReadError.http (not_found (codes "Conversation not found"))

  abbrev pub first_summary : List ConversationRow → Read ConversationSummary
  first_summary [] p = (inl conversation_not_found, p)
  first_summary (c ∷ rows) p = (inr (summary_of c), p)

  unfoldable pub get_conversation : Text → Read ConversationSummary
  get_conversation id p =
      and_read (ensure_history p) (λ _ p. and_read (exec (found (uuid id)) p) first_summary)

  unfoldable pub get_messages : Text → Read (List ConversationMessage)
  get_messages id p = and_read (ensure_history p) (λ _ p. and_read (get_conversation id p) (λ _ p.
      and_read (exec (messages_of (uuid id)) p)
        (λ rows p. (inr (map (λ m. to_message (history_row m)) rows), p))))

  abbrev pub unless_missing : List Text → Read (Unit {0})
  unless_missing [] p = (inl conversation_not_found, p)
  unless_missing (id ∷ ids) p = (inr tt, p)

  unfoldable pub delete_conversation : Text → Read (Unit {0})
  delete_conversation id p =
      and_read (ensure_history p) (λ _ p. and_read (exec (deleted (uuid id)) p) unless_missing)
