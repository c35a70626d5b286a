-- ===== src/View/Chat/Consistent.antt =====
-- What holds of a chat after any events.
use ragpolyglot_demo.Base.{
  sym, ap, subst, ◌≡◌, refl, Bool, true, false, not, ◌&&◌, Option, none, some, List, [], ◌∷◌, arith,
  is_some,
}
use ragpolyglot_demo.Base.Text.{Text, codes, str_eq, str_eq_iff, str_eq_refl, is_empty}
use ragpolyglot_demo.Shared.Json.{Js}
use ragpolyglot_demo.Shared.Types.{ChatMode}
use ragpolyglot_demo.Shared.Records.{
  Message, ChatCompletePayload, ChatProgressPayload, ChatDeepStatus,
}
use ragpolyglot_demo.View.Chat.{
  stopped, AgentChat, Emitted, is_deep, on_deep_status, on_token, on_frame, on_progress,
  on_complete, on_refetched, stop, on_request_timeout, send, on_mode_change, on_input_change,
  initial,
}

-- What happens to a chat while it is shown.
pub data Event : Type 0 where
  deep_status : ChatDeepStatus → Event
  token : Text → Text → Event
  frame : Event
  progressed : ChatProgressPayload → Event
  complete : ChatCompletePayload → Event
  refetched : Option (List Message) → Event
  stop_clicked : Event
  timed_out : Event
  sent : Bool → List Text → Event
  mode_changed : ChatMode → Event
  typed : Bool → Text → Event

-- The conversation of the chat is the only one that is ever active.
abbrev is_own : Text → Option Text → Bool
is_own conversation_id none = true
is_own conversation_id (some id) = str_eq id conversation_id

module _ (js : Js) (conversation_id : Text) where
  unfoldable pub handle : Event → AgentChat → AgentChat
  handle (deep_status status) s = on_deep_status js conversation_id status s
  handle (token t id) s = on_token js conversation_id t id s
  handle frame s = on_frame js conversation_id s
  handle (progressed payload) s = on_progress js conversation_id payload s
  handle (complete payload) s = on_complete js conversation_id payload s
  handle (refetched answer) s = on_refetched js conversation_id answer s
  handle stop_clicked s = stop js conversation_id (codes "(interrupted)") false s
  handle timed_out s = on_request_timeout js conversation_id s
  handle (sent has_documents ids) s = send js conversation_id has_documents ids s
  handle (mode_changed mode) s = on_mode_change js conversation_id mode s
  handle (typed has_documents input) s = on_input_change js conversation_id has_documents input s

  unfoldable pub handle_all : List Event → AgentChat → AgentChat
  handle_all [] s = s
  handle_all (e ∷ es) s = handle_all es (handle e s)

  -- An answer is awaited exactly while the conversation is active; only then is there progress to
  -- show, and a frame requested; and tokens wait only for a frame.
  abbrev pub IsConsistent : AgentChat → Type 0
  IsConsistent s =
      (s.loading ≡ is_some s.active)
      × (is_own conversation_id s.active ≡ true)
      × ((is_some s.progress && not s.loading) ≡ false)
      × ((s.raf && not s.loading) ≡ false)
      × ((not (is_empty s.pending) && not s.raf) ≡ false)

  handle-IsConsistent : (e : Event) (s : AgentChat) → IsConsistent s → IsConsistent (handle e s)
  unfolding handle on_deep_status on_token on_frame on_progress on_complete on_refetched stop
      on_request_timeout send on_mode_change on_input_change
  handle-IsConsistent (deep_status status) s h = ground (arith, h, str_eq_refl conversation_id)
  handle-IsConsistent (token t id) s h = ground (arith, h)
  handle-IsConsistent frame s h = ground (arith, h)
  handle-IsConsistent (progressed payload) s h = ground (arith, h, str_eq_refl conversation_id)
  handle-IsConsistent (complete payload) s h = ground (arith, h)
  handle-IsConsistent (refetched answer) s h = ground (arith, h)
  handle-IsConsistent stop_clicked s h = ground (arith, h)
  handle-IsConsistent timed_out s h = ground (arith, h)
  handle-IsConsistent (sent has_documents ids) s h = ground (arith, h, str_eq_refl conversation_id)
  handle-IsConsistent (mode_changed mode) s h = ground (arith, h)
  handle-IsConsistent (typed has_documents input) s h = ground (arith, h)

  handle_all_keeps :
      (es : List Event) (s : AgentChat) → IsConsistent s → IsConsistent (handle_all es s)
  unfolding handle_all
  handle_all_keeps [] s h = h
  handle_all_keeps (e ∷ es) s h = handle_all_keeps es (handle e s) (handle-IsConsistent e s h)

  -- After any events, an answer is awaited exactly while a conversation is active, and that is the
  -- conversation of the chat; only then is there progress to show or a frame requested; and tokens
  -- wait only while a frame is requested.
  pub handle_all-IsConsistent :
      (messages : List Message) (es : List Event) → IsConsistent (handle_all es (initial messages))
  unfolding initial
  handle_all-IsConsistent messages es =
      handle_all_keeps es (initial messages) (refl, refl, refl, refl, refl)

  stopped-ends :
      (fallback : Text) (keep_pending : Bool) (o : Option Text) (s : AgentChat)
      → is_some o ≡ true
      → is_own conversation_id o ≡ true
      → ((stopped js conversation_id fallback keep_pending o s).loading ≡ false)
        × ((stopped js conversation_id fallback keep_pending o s).sent
            ≡ Emitted.chat_interrupt conversation_id ∷ s.sent)
  stopped-ends fallback keep_pending none s p q = cc
  stopped-ends fallback keep_pending (some id) s p q =
      (refl, ap (λ i. Emitted.chat_interrupt i ∷ s.sent) ((str_eq_iff id conversation_id).0 q))

  timeout-ends :
      (s : AgentChat)
      → IsConsistent s
      → s.loading ≡ true
      → is_deep s.mode ≡ false
      → ((on_request_timeout js conversation_id s).loading ≡ false)
        × ((on_request_timeout js conversation_id s).sent
            ≡ Emitted.chat_interrupt conversation_id ∷ s.sent)
  unfolding on_request_timeout stop
  timeout-ends s h l m =
      let e : on_request_timeout js conversation_id s
          ≡ stopped js conversation_id (codes "Request timed out.") true s.active s =
        ground (arith, l, m) in
      subst (λ t. (t.loading ≡ false) × (t.sent ≡ Emitted.chat_interrupt conversation_id ∷ s.sent))
        (sym e)
        (stopped-ends (codes "Request timed out.") true s.active s (ground (arith, h, l))
          (ground (arith, h)))

  -- Whatever has happened, a chat that awaits an answer in the fast mode no longer does once the
  -- timer fires, and it has told the gateway to interrupt its conversation.
  pub on_request_timeout-ends :
      (messages : List Message) (es : List Event)
      → (handle_all es (initial messages)).loading ≡ true
      → is_deep (handle_all es (initial messages)).mode ≡ false
      → ((on_request_timeout js conversation_id (handle_all es (initial messages))).loading ≡ false)
        × ((on_request_timeout js conversation_id (handle_all es (initial messages))).sent
            ≡ Emitted.chat_interrupt conversation_id ∷ (handle_all es (initial messages)).sent)
  on_request_timeout-ends messages es l m =
      timeout-ends (handle_all es (initial messages)) (handle_all-IsConsistent messages es) l m
