-- ===== src/View/Chat.antt =====
-- apps/react-frontend/src/components/AgentChat.tsx: the state of a chat and its handlers. State
-- updates are applied at once, in the order in which they are made; `modeRef` follows the mode.
pub mod Consistent
pub mod Tokens
use ragpolyglot_demo.Base.{
  ℕ, Bool, true, false, not, ◌&&◌, ◌||◌, Option, none, some, List, [], ◌∷◌, ◌++◌, any,
  if◌then◌else◌, or_else, is_some,
}
use ragpolyglot_demo.Base.Text.{Text, codes, str_eq, trim, is_empty}
use ragpolyglot_demo.Shared.Number.{Number, whole, number_lt}
use ragpolyglot_demo.Shared.Json.{Json, Js}
use ragpolyglot_demo.Shared.Types.{ChatMode, ChatRole}
use ragpolyglot_demo.Shared.Records.{
  Message, ChatCompletePayload, ChatProgressPayload, ChatDeepStatus,
}
use ragpolyglot_demo.View.Messages.{
  finish_assistant_message, append_assistant_text, apply_chat_complete,
}

-- What is sent over the socket.
pub data Emitted : Type 0 where
  chat_interrupt : Text → Emitted
  chat_query : Text → Text → ChatMode → Option (List Text) → Emitted

-- A request for the stored messages, with what is shown should it fail.
pub record Refetch : Type 0 where
  pub pending : Text
  pub payload : ChatCompletePayload

pub record AgentChat : Type 0 where
  pub messages : List Message
  pub input : Text
  pub mode : ChatMode
  pub loading : Bool
  pub progress : Option Text
  -- `activeConversationIdRef`
  pub active : Option Text
  -- `pendingTokensRef`, and whether a frame is requested (`rafRef`)
  pub pending : Text
  pub raf : Bool
  pub sent : List Emitted
  pub refetches : List Refetch
  -- the effects were cleaned up
  pub unmounted : Bool

abbrev pub message : ChatRole → Text → Message
message role text = record { role = role; text = text; sources = none }

abbrev pub is_deep : ChatMode → Bool
is_deep ChatMode.deep = true
is_deep ChatMode.fast = false

abbrev pub is_assistant : ChatRole → Bool
is_assistant ChatRole.assistant = true
is_assistant ChatRole.user = false

abbrev pub is_active_in : Option Text → Text → Bool
is_active_in none id = false
is_active_in (some active) id = str_eq active id

-- `clearPending`, but for the tokens that it returns
abbrev pub clear_pending : AgentChat → AgentChat
clear_pending s = record s { pending = []; raf = false }

-- The last message, by a test.
abbrev pub last_is : (Message → Bool) → List Message → Bool
last_is p [] = false
last_is p (m ∷ []) = p m
last_is p (m ∷ n ∷ rest) = last_is p (n ∷ rest)

abbrev asks : Text → Message → Bool
asks query m = not (is_assistant m.role) && str_eq m.text query

-- The messages with the question of a deep search that goes on, and an answer to write.
unfoldable pub with_running : List Message → Text → List Message
with_running prev query =
    let has_user = any (asks query) prev in
    if last_is (λ m. is_assistant m.role && is_empty m.text) prev
      || (has_user && last_is (λ m. is_assistant m.role) prev)
    then prev
    else prev
      ++ ((if has_user then [] else message ChatRole.user query ∷ [])
          ++ message ChatRole.assistant [] ∷ [])

module _ (js : Js) (conversation_id : Text) where
  abbrev print : Number → Text
  print n = js.to_string (Json.number n)

  abbrev pub progress_label : Number → Number → Text
  progress_label done total =
      if number_lt (whole 0) total
      then codes "Deep search " ++ (print done ++ (codes "/" ++ print total))
      else codes "Deep search running…"

  -- `GET /api/conversations/:id/deep` has answered.
  abbrev go_on : ChatDeepStatus → Text → AgentChat → AgentChat
  go_on status [] s = s
  go_on status (c ∷ query) s = record s {
    mode = ChatMode.deep;
    loading = true;
    active = some conversation_id;
    progress =
        some (progress_label (or_else status.done (whole 0)) (or_else status.total (whole 0)));
    messages = with_running s.messages (c ∷ query);
  }

  unfoldable pub on_deep_status : ChatDeepStatus → AgentChat → AgentChat
  on_deep_status status s =
      if s.unmounted || not status.running then s else go_on status (or_else status.query []) s

  -- `chat:token`
  unfoldable pub on_token : Text → Text → AgentChat → AgentChat
  on_token token id s =
      if not (is_active_in s.active id)
      then s
      else record s { progress = none; pending = s.pending ++ token; raf = true }

  -- The callback of `requestAnimationFrame`.
  unfoldable pub on_frame : AgentChat → AgentChat
  on_frame s =
      if not s.raf
      then s
      else if is_some s.active
      then record (clear_pending s) { messages = append_assistant_text s.messages s.pending }
      else clear_pending s

  -- `chat:progress`
  abbrev adopt : AgentChat → AgentChat
  adopt s =
      if is_active_in s.active conversation_id
      then s
      else record s { active = some conversation_id; loading = true; mode = ChatMode.deep }

  unfoldable pub on_progress : ChatProgressPayload → AgentChat → AgentChat
  on_progress payload s =
      if not (str_eq payload.conversation_id conversation_id)
      then s
      else record (adopt s) { progress = some (progress_label payload.done payload.total) }

  -- `chat:complete`, once it is clear that it is for this chat
  abbrev pub completed : ChatCompletePayload → AgentChat → AgentChat
  completed payload s =
      let ended = record (clear_pending s) { loading = false; progress = none; active = none } in
      if is_deep s.mode && not (or_else payload.interrupted false)
      then record ended {
        refetches = s.refetches ++ record { pending = s.pending; payload = payload } ∷ [];
      }
      else record ended { messages = apply_chat_complete s.messages s.pending payload }

  unfoldable pub on_complete : ChatCompletePayload → AgentChat → AgentChat
  on_complete payload s =
      if not (str_eq payload.conversation_id conversation_id)
      then s
      else if not (is_active_in s.active conversation_id) && or_else payload.interrupted false
      then s
      else completed payload s

  -- An answer to a request for the stored messages: the messages, or `none` where it failed.
  abbrev refetched_by : Option (List Message) → Refetch → List Message → List Message
  refetched_by (some stored) r prev = stored
  refetched_by none r prev = apply_chat_complete prev r.pending r.payload

  abbrev answered : Option (List Message) → List Refetch → AgentChat → AgentChat
  answered answer [] s = s
  answered answer (r ∷ rest) s = record s {
    messages = refetched_by answer r s.messages;
    refetches = rest;
  }

  unfoldable pub on_refetched : Option (List Message) → AgentChat → AgentChat
  on_refetched answer s = answered answer s.refetches s

  abbrev pub stopped : Text → Bool → Option Text → AgentChat → AgentChat
  stopped fallback keep_pending none s = s
  stopped fallback keep_pending (some id) s = record (clear_pending s) {
    sent = chat_interrupt id ∷ s.sent;
    active = none;
    loading = false;
    progress = none;
    messages =
        finish_assistant_message
          (if keep_pending then append_assistant_text s.messages s.pending else s.messages)
          fallback;
  }

  unfoldable pub stop : Text → Bool → AgentChat → AgentChat
  stop fallback keep_pending s = stopped fallback keep_pending s.active s

  -- The timer runs while an answer is awaited in the fast mode.
  unfoldable pub on_request_timeout : AgentChat → AgentChat
  on_request_timeout s =
      if s.loading && not (is_deep s.mode) then stop (codes "Request timed out.") true s else s

  abbrev document_ids_of : List Text → Option (List Text)
  document_ids_of [] = none
  document_ids_of (id ∷ ids) = some (id ∷ ids)

  unfoldable pub send : Bool → List Text → AgentChat → AgentChat
  send has_documents document_ids s =
      let query = trim s.input in
      if is_empty query || not has_documents || s.loading then s else record s {
        input = [];
        loading = true;
        progress = if is_deep s.mode then some (codes "Deep search starting…") else none;
        active = some conversation_id;
        messages = s.messages ++ message ChatRole.user query ∷ message ChatRole.assistant [] ∷ [];
        sent = chat_query query conversation_id s.mode (document_ids_of document_ids) ∷ s.sent;
      }

  -- The controls are disabled while an answer is awaited.
  unfoldable pub on_mode_change : ChatMode → AgentChat → AgentChat
  on_mode_change mode s = if s.loading then s else record s { mode = mode }

  unfoldable pub on_input_change : Bool → Text → AgentChat → AgentChat
  on_input_change has_documents input s =
      if not has_documents || s.loading then s else record s { input = input }

  -- The clean-up of the effects.
  abbrev left : Option Text → AgentChat → AgentChat
  left none s = s
  left (some id) s =
      if is_deep s.mode
      then record s { active = none }
      else record s { active = none; sent = chat_interrupt id ∷ s.sent }

  unfoldable pub unmount : AgentChat → AgentChat
  unmount s = left s.active (record (clear_pending s) { unmounted = true })

unfoldable pub initial : List Message → AgentChat
initial messages = record {
  messages = messages;
  input = [];
  mode = ChatMode.fast;
  loading = false;
  progress = none;
  active = none;
  pending = [];
  raf = false;
  sent = [];
  refetches = [];
  unmounted = false;
}
