-- ===== src/Chat/Gateway/Query.antt =====
-- `handleChatQuery`. The handler runs to its first await and returns a suspended task; `advance`
-- resumes a task with the reply that it waits for and runs it to the next await or to its end.
use ragpolyglot_demo.Base.{
  ℕ, suc, Bool, true, false, ◌&&◌, Option, none, some, List, [], ◌∷◌, ◌++◌, if◌then◌else◌, or_else,
}
use ragpolyglot_demo.Base.Text.{Text, codes, str_eq, trim, is_empty}
use ragpolyglot_demo.Shared.Number.{Number}
use ragpolyglot_demo.Shared.Json.{Js}
use ragpolyglot_demo.Shared.Types.{ChatMode, fast, deep}
use ragpolyglot_demo.Shared.Records.{RagResult}
use ragpolyglot_demo.Rag.Errors.{Failure}
use ragpolyglot_demo.Rag.Helpers.{normalize_document_ids}
use ragpolyglot_demo.Chat.Gateway.World.{
  World, Inflight, Saved, Notice, to_client, chat_room, chat_interrupt_key, emit, map_set,
  map_delete, map_has, complete_error,
}

-- The payload of `chat:query`.
pub record ChatQuery : Type 0 where
  pub query : Option Text
  pub conversation_id : Option Text
  pub user_id : Option Text
  pub document_ids : Option (List Text)
  pub mode : Option Text

-- The await at which a task is suspended.
pub data Phase : Type 0 where
  -- `beginTurn`, and the `setDeepJob` behind it
  beginning queueing : Phase
  -- `streamSearch`
  searching : Phase
  -- saving the answer, and the `clearDeepJob` behind it
  answering answer_clearing : RagResult → Phase
  -- saving the error message, and the `clearDeepJob` behind it
  failing failure_clearing : Text → Phase
  -- the `clearDeepJob` of a task that was aborted
  abort_clearing : Phase

pub record Task : Type 0 where
  pub controller : ℕ
  pub key : Text
  pub job : Inflight
  pub deep_started : Bool
  pub phase : Phase

-- What resumes a task: a callback of the search, its result, a save, a Redis command, or an
-- exception.
pub data Reply : Type 0 where
  token : Text → Reply
  progress : Number → Number → Reply
  found : RagResult → Reply
  saved : Saved → Reply
  replied : Reply
  failed : Failure → Reply

abbrev pub Suspended : Type 0
Suspended = World × Option Task

abbrev pub wait : Phase → Task → World → Suspended
wait phase t w = (w, some (record t { phase = phase }))

-- The `finally` block.
unfoldable pub finish : Task → World → Suspended
finish t w = (
  record w { controllers = map_delete t.key w.controllers; inflight = map_delete t.key w.inflight },
  none,
)

abbrev pub settle : Task → World → World
settle t w = record w { inflight = map_delete t.key w.inflight }

-- `data.conversationId?.trim() || randomUUID()`
abbrev chosen_id : Option Text → Text → Text
chosen_id none fresh = fresh
chosen_id (some id) fresh = if is_empty (trim id) then fresh else trim id

abbrev chosen_mode : Option Text → ChatMode
chosen_mode none = fast
chosen_mode (some mode) = if str_eq mode (codes "deep") then deep else fast

abbrev pub is_deep : ChatMode → Bool
is_deep deep = true
is_deep fast = false

abbrev pub first_phase : ChatMode → Phase
first_phase deep = beginning
first_phase fast = searching

abbrev already_running : Text
already_running =
    codes
      "A deep search is already running for this conversation. Wait for it to finish, or press Stop."

-- The answer to a second deep query of a conversation.
abbrev pub reject : Text → Text → World → World
reject client conversation_id w =
    emit (to_client client (complete_error conversation_id))
      (emit (to_client client (Notice.token already_running conversation_id)) w)

-- `client.join(room)`
abbrev pub join : Text → Text → World → World
join client room w = record w { joined = w.joined ++ (client, room) ∷ [] }

-- The controller and the query are registered under the key.
unfoldable pub register : Text → Inflight → World → Suspended
register key job w =
    let id = w.next_controller in
    (
      record w {
        controllers = map_set key id w.controllers;
        next_controller = suc id;
        inflight = map_set key job w.inflight;
      },
      some (record {
        controller = id;
        key = key;
        job = job;
        deep_started = false;
        phase = first_phase job.mode;
      }),
    )

-- The handler behind its first test, for a trimmed query.
unfoldable pub accept : Text → Inflight → World → Suspended
accept client job w =
    let key = chat_interrupt_key job.mode client job.conversation_id in
    let w' = join client (chat_room job.conversation_id) w in
    if is_deep job.mode && map_has key w.controllers
    then (reject client job.conversation_id w', none)
    else register key job w'

-- `handleChatQuery` to its first await; `fresh` is what `randomUUID` returns.
unfoldable pub handle_chat_query : Js → Text → ChatQuery → Text → World → Suspended
handle_chat_query js client payload fresh w =
    let query = trim (or_else payload.query []) in
    if is_empty query
    then (w, none)
    else accept client
        (record {
          conversation_id = chosen_id payload.conversation_id fresh;
          query = query;
          mode = chosen_mode payload.mode;
          document_ids = normalize_document_ids js payload.document_ids;
        })
        w
