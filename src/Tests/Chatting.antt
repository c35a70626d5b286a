-- ===== src/Tests/Chatting.antt =====
-- A chat in the browser, from a question to the completion of its answer.
use ragpolyglot_demo.Base.{◌≡◌, refl, true, false, none, some, List, [], ◌∷◌}
use ragpolyglot_demo.Base.Text.{Text, codes, trim, str_eq}
use ragpolyglot_demo.Shared.Records.{ChatCompletePayload}
use ragpolyglot_demo.View.Chat.{
  AgentChat, on_token, Emitted, send, on_request_timeout, on_input_change, initial, is_deep,
}
use ragpolyglot_demo.View.Chat.Consistent.{
  Event, handle, handle_all, IsConsistent, handle_all-IsConsistent, on_request_timeout-ends,
}
use ragpolyglot_demo.View.Chat.Tokens.{Beat}
use ragpolyglot_demo.View.Socket.Rooms.{Move, moves, Joined, fresh, moves-Joined}
use ragpolyglot_demo.Tests.Shared.{ascii_js}

abbrev c1 : Text
c1 = codes "c1"

-- The question is written and sent, and a first token comes.
abbrev asking : List Event
asking = Event.typed true (codes " Why? ") ∷ Event.sent true [] ∷ Event.token (codes "B") c1 ∷ []

handle_all-IsConsistent_example :
    IsConsistent ascii_js c1 (handle_all ascii_js c1 asking (initial []))
handle_all-IsConsistent_example = handle_all-IsConsistent ascii_js c1 [] asking

awaited : (handle_all ascii_js c1 asking (initial [])).loading ≡ true
unfolding handle_all handle initial on_token send trim on_input_change str_eq
awaited = refl

fast : is_deep (handle_all ascii_js c1 asking (initial [])).mode ≡ false
unfolding handle_all handle initial on_token send trim on_input_change str_eq
fast = refl

on_request_timeout-ends_example :
    ((on_request_timeout ascii_js c1 (handle_all ascii_js c1 asking (initial []))).loading ≡ false)
    × ((on_request_timeout ascii_js c1 (handle_all ascii_js c1 asking (initial []))).sent
        ≡ Emitted.chat_interrupt c1 ∷ (handle_all ascii_js c1 asking (initial [])).sent)
on_request_timeout-ends_example = on_request_timeout-ends ascii_js c1 [] asking awaited fast

abbrev written : AgentChat
written = record (initial []) { input = codes " Why? " }

abbrev beats : List Beat
beats = Beat.token (codes "Be") ∷ Beat.frame ∷ Beat.token (codes "cause") ∷ []

abbrev ended : ChatCompletePayload
ended = record {
  conversation_id = c1;
  sources = some [];
  error = none;
  interrupted = none;
  cache_hit = none;
}

-- A document is opened, the socket connects, and a conversation is opened and left.
abbrev visit : List Move
visit =
    Move.open_document (codes "d1")
    ∷ Move.connect
    ∷ Move.open_conversation c1
    ∷ Move.close_conversation c1
    ∷ []

moves-Joined_example : Joined (moves visit fresh)
moves-Joined_example = moves-Joined visit
