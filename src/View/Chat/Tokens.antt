-- ===== src/View/Chat/Tokens.antt =====
-- The tokens of an answer are shown in order and in full, whenever the browser draws a frame.
use ragpolyglot_demo.Base.{◌≡◌, false, some, List, [], ◌∷◌, ◌++◌}
use ragpolyglot_demo.Base.Text.{Text}
use ragpolyglot_demo.Shared.Json.{Js}
use ragpolyglot_demo.Shared.Records.{Message, ChatCompletePayload}
use ragpolyglot_demo.View.Messages.{apply_chat_complete}
use ragpolyglot_demo.View.Chat.{AgentChat, is_deep, on_token, on_frame}

-- What comes before the completion: a token, or a frame that is drawn.
pub data Beat : Type 0 where
  token : Text → Beat
  frame : Beat

abbrev pub text_of_beats : List Beat → Text
text_of_beats [] = []
text_of_beats (token t ∷ bs) = t ++ text_of_beats bs
text_of_beats (frame ∷ bs) = text_of_beats bs

module _ (js : Js) (conversation_id : Text) where
  abbrev beat : Beat → AgentChat → AgentChat
  beat (token t) s = on_token js conversation_id t conversation_id s
  beat frame s = on_frame js conversation_id s

  unfoldable pub play : List Beat → AgentChat → AgentChat
  play [] s = s
  play (b ∷ bs) s = play bs (beat b s)

  -- The text to come is still to be added: the messages with all of it.
  abbrev whole : AgentChat → Text → ChatCompletePayload → List Message
  whole s rest payload = apply_chat_complete s.messages (s.pending ++ rest) payload

  -- The conversation is active, and the tokens that wait have a frame.
  abbrev IsOpen : AgentChat → Type 0
  IsOpen s = (s.active ≡ some conversation_id) × (is_deep s.mode ≡ false)
