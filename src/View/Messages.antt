-- ===== src/View/Messages.antt =====
-- apps/react-frontend/src/lib/chatMessages.ts: the answer that is being written in the chat.
pub mod Flush
use ragpolyglot_demo.Base.{
  Bool, true, false, ◌&&◌, Option, none, some, List, [], ◌∷◌, ◌++◌, if◌then◌else◌, or_else,
}
use ragpolyglot_demo.Base.Text.{Text, codes, trim, is_empty}
use ragpolyglot_demo.Shared.Types.{ChatRole}
use ragpolyglot_demo.Shared.Records.{Message, ChatCompletePayload}

abbrev if_assistant : ChatRole → Message → Message → Message
if_assistant ChatRole.assistant changed m = changed
if_assistant ChatRole.user changed m = m

-- `[...prev.slice(0, -1), change(last)]`, if the last message is the assistant's
unfoldable pub change_last : (Message → Message) → List Message → List Message
change_last change [] = []
change_last change (m ∷ []) = if_assistant m.role (change m) m ∷ []
change_last change (m ∷ n ∷ rest) = m ∷ change_last change (n ∷ rest)

abbrev pub text_or : Text → Text → Text
text_or text fallback = if is_empty text then fallback else text

unfoldable pub finish_assistant_message : List Message → Text → List Message
finish_assistant_message prev fallback =
    change_last (λ last. record last { text = text_or (trim last.text) fallback }) prev

unfoldable pub append_assistant_text : List Message → Text → List Message
append_assistant_text prev [] = prev
append_assistant_text prev (c ∷ pending) =
    change_last (λ last. record last { text = last.text ++ c ∷ pending }) prev

-- The text that is shown at the end.
abbrev pub final_text : ChatCompletePayload → Text → Text
final_text payload text =
    if or_else payload.interrupted false && is_empty (trim text)
    then codes "(interrupted)"
    else if or_else payload.error false && is_empty (trim text)
    then codes "Sorry, something went wrong."
    else text

unfoldable pub apply_chat_complete : List Message → Text → ChatCompletePayload → List Message
apply_chat_complete prev pending payload =
    change_last
      (λ last. record last {
        text = final_text payload (last.text ++ pending);
        sources = some (or_else payload.sources []);
      })
      prev
