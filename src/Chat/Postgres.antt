-- ===== src/Chat/Postgres.antt =====
-- apps/api-gateway/src/core/postgres.service.ts over the tables of assets/sql: the statements that
-- the chat history runs, and transactions. The connection is a list of what becomes of the next
-- commands, of one caller: whether the command gets to the server and its reply comes back. One that
-- does not get through is not run, and the connection is lost with it.
pub mod Atomic
use ragpolyglot_demo.Base.{
  ℕ, suc, Bool, true, false, ◌&&◌, ◌||◌, not, Option, none, some, List, [], ◌∷◌, ◌++◌, any, map,
  filter, if◌then◌else◌, is_some,
}
use ragpolyglot_demo.Base.Text.{Text, codes, str_eq}

-- A row of `conversations`; `document_ids` is the JSON that was stored.
pub record ConversationRow : Type 0 where
  pub id : Text
  pub title : Text
  pub document_ids : Text
  pub created_at : Text
  pub updated_at : Text

-- A row of `messages`.
pub record MessageRow : Type 0 where
  pub id : ℕ
  pub conversation_id : Text
  pub role : Text
  pub text : Text
  pub sources : Option Text
  pub created_at : Text

pub record Db : Type 0 where
  pub conversations : List ConversationRow
  pub messages : List MessageRow
  pub next_id : ℕ

-- upsert-conversation.sql, touch-conversation.sql and insert-message.sql with their parameters
pub data Statement : Type 0 where
  upsert_conversation : Text → Text → Text → Statement
  touch_conversation : Text → Statement
  insert_message : Text → Text → Text → Option Text → Statement

pub data Command : Type 0 where
  begin commit rollback : Command
  run : Statement → Command

-- What the server keeps of a connection: no transaction, one with the tables as it sees them, or one
-- in which a statement has been refused.
pub data Transaction : Type 0 where
  idle : Transaction
  active : Db → Transaction
  aborted : Transaction

-- The tables that everyone sees, and the transaction of the connection.
pub record Session : Type 0 where
  pub tables : Db
  pub transaction : Transaction

pub record Reached : Type 0 where
  pub accepted : Bool
  pub session : Session

abbrev pub has_conversation : Text → Db → Bool
has_conversation id db = any (λ c. str_eq c.id id) db.conversations

abbrev change_conversation :
    Text → (ConversationRow → ConversationRow) → List ConversationRow → List ConversationRow
change_conversation id change rows = map (λ c. if str_eq c.id id then change c else c) rows

-- `CHECK (role IN ('user', 'assistant'))`
abbrev is_role : Text → Bool
is_role role = str_eq role (codes "user") || str_eq role (codes "assistant")

-- `ensureReady`, `exec` and `runInTransaction` see the flag and the connection.
pub record Postgres : Type 0 where
  pub ready : Bool
  pub link : List Bool
  pub db : Db

-- What a call of `runInTransaction` leaves, and whether it threw.
pub record Ran : Type 0 where
  pub postgres : Postgres
  pub threw : Bool

-- What the commands of a connection leave.
pub record Sent : Type 0 where
  pub completed : Bool
  pub session : Session
  pub link : List Bool

-- Whether the next command gets through.
abbrev pub next : List Bool → Bool
next [] = true
next (b ∷ link) = b

abbrev pub later : List Bool → List Bool
later [] = []
later (b ∷ link) = link

-- `tryConnect`: a query, and the schema.
unfoldable pub try_connect : Postgres → Postgres
try_connect p =
    if next p.link
    then record p { ready = next (later p.link); link = later (later p.link) }
    else record p { ready = false; link = later p.link }

unfoldable pub ensure_ready : Postgres → Postgres
ensure_ready p = if p.ready then p else try_connect p

-- The parser of the type UUID, with the canonical spelling, and `NOW()`.
module _ (uuid : Text → Option Text) (now : Text) where
  abbrev pub upsert : Option Text → Text → Text → Db → Option Db
  upsert none title ids db = none
  upsert (some id) title ids db = some (record db {
    conversations =
        if has_conversation id db
        then change_conversation id (λ c. record c { updated_at = now; document_ids = ids })
            db.conversations
        else db.conversations
          ++ record {
            id = id;
            title = title;
            document_ids = ids;
            created_at = now;
            updated_at = now;
          }
            ∷ [];
  })

  abbrev pub touch : Option Text → Db → Option Db
  touch none db = none
  touch (some id) db = some (record db {
    conversations = change_conversation id (λ c. record c { updated_at = now }) db.conversations;
  })

  abbrev pub insert : Option Text → Text → Text → Option Text → Db → Option Db
  insert none role text sources db = none
  insert (some id) role text sources db =
      if has_conversation id db && is_role role
      then some (record db {
        messages =
            db.messages
            ++ record {
              id = db.next_id;
              conversation_id = id;
              role = role;
              text = text;
              sources = sources;
              created_at = now;
            }
              ∷ [];
        next_id = suc db.next_id;
      })
      else none

  -- A statement, `none` where the server refuses it.
  unfoldable pub execute : Statement → Db → Option Db
  execute (upsert_conversation id title ids) db = upsert (uuid id) title ids db
  execute (touch_conversation id) db = touch (uuid id) db
  execute (insert_message id role text sources) db = insert (uuid id) role text sources db

  -- A statement that is sent by itself is a transaction of its own.
  abbrev pub autocommit : Db → Option Db → Reached
  autocommit db none = record {
    accepted = false;
    session = record { tables = db; transaction = Transaction.idle };
  }
  autocommit db (some db') = record {
    accepted = true;
    session = record { tables = db'; transaction = Transaction.idle };
  }

  abbrev pub within : Db → Option Db → Reached
  within db none = record {
    accepted = false;
    session = record { tables = db; transaction = Transaction.aborted };
  }
  within db (some work) = record {
    accepted = true;
    session = record { tables = db; transaction = Transaction.active work };
  }

  abbrev pub run_in : Statement → Db → Transaction → Reached
  run_in s db Transaction.idle = autocommit db (execute s db)
  run_in s db (Transaction.active work) = within db (execute s work)
  run_in s db Transaction.aborted = record {
    accepted = false;
    session = record { tables = db; transaction = Transaction.aborted };
  }

  abbrev pub ended : Db → Reached
  ended db = record {
    accepted = true;
    session = record { tables = db; transaction = Transaction.idle };
  }

  -- `BEGIN` within a transaction only warns, as does `COMMIT` outside of one; `COMMIT` of a
  -- transaction in which a statement was refused drops it.
  abbrev pub begin_in : Db → Transaction → Reached
  begin_in db Transaction.idle = record {
    accepted = true;
    session = record { tables = db; transaction = Transaction.active db };
  }
  begin_in db t = record { accepted = true; session = record { tables = db; transaction = t } }

  abbrev pub commit_in : Db → Transaction → Reached
  commit_in db (Transaction.active work) = ended work
  commit_in db _ = ended db

  unfoldable pub execute_command : Command → Session → Reached
  execute_command begin s = begin_in s.tables s.transaction
  execute_command commit s = commit_in s.tables s.transaction
  execute_command rollback s = ended s.tables
  execute_command (run st) s = run_in st s.tables s.transaction

  -- A connection that is lost takes its transaction with it.
  abbrev pub lost : Session → Session
  lost s = record { tables = s.tables; transaction = Transaction.idle }

  -- Behind a command that got through: an exception, or the rest of the commands.
  abbrev pub and_next : Reached → List Bool → Sent → Sent
  and_next reached link rest =
      if reached.accepted
      then rest
      else record { completed = false; session = reached.session; link = link }

  unfoldable pub run_commands : List Command → Session → List Bool → Sent
  run_commands [] s link = record { completed = true; session = s; link = link }
  run_commands (c ∷ cs) s link =
      let reached = execute_command c s in
      let rest = run_commands cs reached.session (later link) in
      if next link
      then and_next reached (later link) rest
      else record { completed = false; session = lost s; link = later link }

  unfoldable pub transaction : List Statement → List Command
  transaction sts = begin ∷ (map run sts ++ commit ∷ [])

  -- `ROLLBACK` in the `catch` block, whose own failure is ignored.
  unfoldable pub rolled_back : Sent → Sent
  rolled_back sent =
      if next sent.link
      then record {
        completed = false;
        session = (execute_command rollback sent.session).session;
        link = later sent.link;
      }
      else record { completed = false; session = lost sent.session; link = later sent.link }

  -- The `try` block with its `catch`: the commands of the connection.
  unfoldable pub in_session : List Statement → Session → List Bool → Sent
  in_session sts s link =
      let sent = run_commands (transaction sts) s link in
      if sent.completed then sent else rolled_back sent

  abbrev pub close : Postgres → Sent → Ran
  close p sent =
      if sent.completed
      then record {
        postgres = record p { link = sent.link; db = sent.session.tables };
        threw = false;
      }
      else record {
        postgres = record p { ready = false; link = sent.link; db = sent.session.tables };
        threw = true;
      }

  -- A connection as the pool hands it out.
  abbrev pub fresh : Db → Session
  fresh db = record { tables = db; transaction = Transaction.idle }

  -- `pool.connect()` and what follows.
  abbrev run_connected : List Statement → Postgres → Ran
  run_connected sts p =
      if next p.link
      then close p (in_session sts (fresh p.db) (later p.link))
      else record { postgres = record p { link = later p.link }; threw = true }

  unfoldable pub run_in_transaction : List Statement → Postgres → Ran
  run_in_transaction sts p =
      let p' = ensure_ready p in
      if p'.ready then run_connected sts p' else record { postgres = p'; threw = true }
