-- ===== src/View/Messages/Flush.antt =====
-- It does not matter when the tokens that have come are written into the message.
use ragpolyglot_demo.Base.{
  ◌≡◌, refl, sym, ap, ◌∙◌, List, [], ◌∷◌, ◌++◌, append-nil, append_assoc, Option, some, or_else,
}
use ragpolyglot_demo.Base.Text.{Text}
use ragpolyglot_demo.Shared.Types.{ChatRole}
use ragpolyglot_demo.Shared.Records.{Message, Source, ChatCompletePayload}
use ragpolyglot_demo.View.Messages.{
  if_assistant, change_last, final_text, append_assistant_text, apply_chat_complete,
}

abbrev write : Text → Message → Message
write pending last = record last { text = last.text ++ pending }

abbrev changed : (Message → Message) → Message → Message
changed f m = if_assistant m.role (f m) m

of_assistant :
    (role : ChatRole) (x y : Message) → role ≡ ChatRole.assistant → if_assistant role x y ≡ x
of_assistant ChatRole.assistant x y h = refl
of_assistant ChatRole.user x y h = cc

module _ (f g h : Message → Message) (keeps : (m : Message) → (f m).role ≡ m.role)
    (same : (m : Message) → g (f m) ≡ h m) where
  changed-changed :
      (role : ChatRole) (text : Text) (sources : Option (List Source))
      → let m : Message = record { role = role; text = text; sources = sources } in
        changed g (changed f m) ≡ changed h m
  changed-changed ChatRole.user text sources = refl
  changed-changed ChatRole.assistant text sources =
      let m : Message = record { role = ChatRole.assistant; text = text; sources = sources } in
      of_assistant (f m).role (g (f m)) (f m) (keeps m) ∙ same m

  skip-first :
      (m n : Message) (rest : List Message)
      → change_last g (m ∷ change_last f (n ∷ rest)) ≡ m ∷ change_last g (change_last f (n ∷ rest))
  unfolding change_last
  skip-first m n [] = refl
  skip-first m n (k ∷ rest) = refl

  change-change : (prev : List Message) → change_last g (change_last f prev) ≡ change_last h prev
  unfolding change_last
  change-change [] = refl
  change-change (m ∷ []) = ap (λ n. n ∷ []) (changed-changed m.role m.text m.sources)
  change-change (m ∷ n ∷ rest) = skip-first m n rest ∙ ap (λ ms. m ∷ ms) (change-change (n ∷ rest))

append-nonempty :
    (prev : List Message) (a b : Text)
    → append_assistant_text (append_assistant_text prev a) b ≡ append_assistant_text prev (a ++ b)
unfolding append_assistant_text
append-nonempty prev [] b = refl
append-nonempty prev (c ∷ a) [] = ap (append_assistant_text prev) (sym (append-nil (c ∷ a)))
append-nonempty prev (c ∷ a) (d ∷ b) =
    change-change (write (c ∷ a)) (write (d ∷ b)) (write (c ∷ (a ++ d ∷ b))) (λ m. refl)
      (λ m. ap (λ t. record m { text = t }) (append_assoc m.text (c ∷ a) (d ∷ b))) prev

complete-append :
    (prev : List Message) (a b : Text) (payload : ChatCompletePayload)
    → apply_chat_complete (append_assistant_text prev a) b payload
      ≡ apply_chat_complete prev (a ++ b) payload
unfolding append_assistant_text apply_chat_complete
complete-append prev [] b payload = refl
complete-append prev (c ∷ a) b payload =
    change-change (write (c ∷ a)) _ _ (λ m. refl)
      (λ m.
        ap
          (λ t. record m {
            text = final_text payload t;
            sources = some (or_else payload.sources []);
          })
          (append_assoc m.text (c ∷ a) b))
      prev

-- Tokens may be written into the answer in one piece or in two, and before the completion or with
-- it: the messages come out the same, whatever the completion says.
pub append_assistant_text-flush :
    (prev : List Message) (a b : Text) (payload : ChatCompletePayload)
    → (append_assistant_text (append_assistant_text prev a) b ≡ append_assistant_text prev (a ++ b))
      × (apply_chat_complete (append_assistant_text prev a) b payload
          ≡ apply_chat_complete prev (a ++ b) payload)
append_assistant_text-flush prev a b payload =
    (append-nonempty prev a b, complete-append prev a b payload)
