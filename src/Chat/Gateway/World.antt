-- ===== src/Chat/Gateway/World.antt =====
-- The state that the handlers of the chat gateway share, and what they do to it between two
-- awaits. A `Map` is a function from its keys; an abort controller is a number.
use ragpolyglot_demo.Base.{
  ℕ, Bool, true, false, ◌||◌, Option, none, some, List, [], ◌∷◌, ◌++◌, ◌==◌, if◌then◌else◌, is_some,
}
use ragpolyglot_demo.Base.Text.{Text, codes, str_eq}
use ragpolyglot_demo.Shared.Number.{Number}
use ragpolyglot_demo.Shared.Types.{ChatMode, fast, deep}
use ragpolyglot_demo.Shared.Records.{Source, ChatCompletePayload}

abbrev pub Map : Type 0 → Type 0
Map V = Text → Option V

module _ {V : Type 0} where
  abbrev pub map_set : Text → V → Map V → Map V
  map_set k v m j = if str_eq j k then some v else m j

  abbrev pub map_delete : Text → Map V → Map V
  map_delete k m j = if str_eq j k then none else m j

  abbrev pub map_has : Text → Map V → Bool
  map_has k m = is_some (m k)

-- A value of `inflightQueries`.
pub record Inflight : Type 0 where
  pub conversation_id : Text
  pub query : Text
  pub mode : ChatMode
  pub document_ids : Option (List Text)

pub record DeepJobState : Type 0 where
  pub query : Text
  pub done : Number
  pub total : Number

-- An event with its payload.
pub data Notice : Type 0 where
  started : Text → ChatMode → Text → Notice
  token : Text → Text → Notice
  progress : Text → Number → Number → Notice
  complete : ChatCompletePayload → Notice

-- To the sockets of a room, or to one socket.
pub data Emission : Type 0 where
  to_room : Text → Notice → Emission
  to_client : Text → Notice → Emission

-- A message in the chat history: its conversation and its text.
pub data Stored : Type 0 where
  user_message : Text → Text → Stored
  assistant_message : Text → Text → Stored

pub record World : Type 0 where
  -- `abortControllers` and the signals that have fired
  pub controllers : Map ℕ
  pub aborted : ℕ → Bool
  pub next_controller : ℕ
  -- `inflightQueries`
  pub inflight : Map Inflight
  -- the deep jobs in Redis, by conversation, and whether Redis takes commands
  pub jobs : Map DeepJobState
  pub redis_ready : Bool
  -- the chat history in Postgres, the events sent, and who joined which room
  pub stored : List Stored
  pub sent : List Emission
  pub joined : List (Text × Text)

abbrev pub chat_room : Text → Text
chat_room conversation_id = codes "chat:" ++ conversation_id

unfoldable pub chat_interrupt_key : ChatMode → Text → Text → Text
chat_interrupt_key deep client_id conversation_id = codes "deep:" ++ conversation_id
chat_interrupt_key fast client_id conversation_id = client_id ++ (codes ":" ++ conversation_id)

abbrev pub emit : Emission → World → World
emit e w = record w { sent = w.sent ++ e ∷ [] }

-- `emitToChat`
abbrev pub emit_to_chat : Text → Notice → World → World
emit_to_chat conversation_id notice = emit (to_room (chat_room conversation_id) notice)

-- `controller.abort()`
abbrev pub abort : ℕ → World → World
abort id w = record w { aborted = λ j. j == id || w.aborted j }

-- `setDeepJob` and `clearDeepJob`: without Redis they do nothing.
abbrev pub set_deep_job : Text → DeepJobState → World → World
set_deep_job conversation_id state w = record w {
  jobs = if w.redis_ready then map_set conversation_id state w.jobs else w.jobs;
}

abbrev pub clear_deep_job : Text → World → World
clear_deep_job conversation_id w = record w {
  jobs = if w.redis_ready then map_delete conversation_id w.jobs else w.jobs;
}

-- What became of a turn that was to be saved: both messages, only the user's, or neither.
pub data Saved : Type 0 where
  both only_user nothing : Saved

-- `completeAssistant` saves a message or fails; a failure is only logged.
abbrev pub store_assistant : Saved → Text → Text → World → World
store_assistant both conversation_id answer w = record w {
  stored = w.stored ++ assistant_message conversation_id answer ∷ [];
}
store_assistant _ conversation_id answer w = w

-- `persistTurn` saves the user's message and then the assistant's.
abbrev pub store_turn : Saved → Text → Text → Text → World → World
store_turn both conversation_id query answer w = record w {
  stored =
      w.stored
      ++ user_message conversation_id query ∷ assistant_message conversation_id answer ∷ [];
}
store_turn only_user conversation_id query answer w = record w {
  stored = w.stored ++ user_message conversation_id query ∷ [];
}
store_turn nothing conversation_id query answer w = w

-- The payload of `chat:complete` after an answer, an error and an interrupt.
abbrev pub complete_answer : Text → List Source → Option Bool → Notice
complete_answer conversation_id sources cache_hit = complete (record {
  conversation_id = conversation_id;
  sources = some sources;
  error = none;
  interrupted = none;
  cache_hit = cache_hit;
})

abbrev pub complete_error : Text → Notice
complete_error conversation_id = complete (record {
  conversation_id = conversation_id;
  sources = some [];
  error = some true;
  interrupted = some false;
  cache_hit = none;
})

abbrev pub complete_interrupted : Text → Notice
complete_interrupted conversation_id = complete (record {
  conversation_id = conversation_id;
  sources = some [];
  error = none;
  interrupted = some true;
  cache_hit = none;
})
