-- ===== src/Rag/Stream/Result.antt =====
-- What a result of `readChatStream` promises, and when there is none.
use ragpolyglot_demo.Base.{
  ◌≡◌, refl, Bool, true, false, Option, none, some, List, [], ◌∷◌, arith, is_some, inr,
}
use ragpolyglot_demo.Base.Text.{Text, trim, is_empty}
use ragpolyglot_demo.Shared.Records.{RagResult}
use ragpolyglot_demo.Rag.Errors.{Failure}
use ragpolyglot_demo.Rag.Stream.{
  StreamEvent, ChatStream, Outcome, start, and_then, flushed, broken, Ending, read_loop, conclude,
  read_chat_stream,
}

is_some-and_then :
    (o : Outcome) (f : ChatStream → Outcome)
    → ((s : ChatStream) → is_some (f s).1 ≡ true)
    → is_some (and_then o f).1 ≡ true
is_some-and_then (s, none) f h = h s
is_some-and_then (s, some e) f h = refl

-- A read that fails leaves the loop by an exception.
read_loop_broken :
    (parse : Text → Option StreamEvent) (chunks : List Text) (e : Failure) (buffer : Text)
    (s : ChatStream)
    → is_some (read_loop parse chunks (broken e) buffer s).1 ≡ true
unfolding read_loop
read_loop_broken parse [] e buffer s = refl
read_loop_broken parse (chunk ∷ chunks) e buffer s =
    is_some-and_then _ _ (λ s'. read_loop_broken parse chunks e _ s')

conclude-eq-inr :
    (o : Outcome) (r : RagResult)
    → (conclude o).1 ≡ inr r
    → (is_some o.1 ≡ false) × (is_empty (trim r.answer) ≡ false) × (r.cache_hit ≡ some false)
unfolding conclude
conclude-eq-inr (s, none) r h = ground arith
conclude-eq-inr (s, some e) r h = ground arith

abbrev pub is_flushed : Ending → Bool
is_flushed (flushed _) = true
is_flushed (broken _) = false

-- A result has an answer that is not blank and is marked as fresh, and it is returned only if no
-- read of the stream failed.
pub read_chat_stream-eq-inr :
    (parse : Text → Option StreamEvent) (chunks : List Text) (ending : Ending) (r : RagResult)
    → (read_chat_stream parse chunks ending).1 ≡ inr r
    → (is_empty (trim r.answer) ≡ false) × (r.cache_hit ≡ some false) × (is_flushed ending ≡ true)
unfolding read_chat_stream
read_chat_stream-eq-inr parse chunks (flushed last) r h =
    let c = conclude-eq-inr (read_loop parse chunks (flushed last) [] start) r h in (c.1, c.2, refl)
read_chat_stream-eq-inr parse chunks (broken e) r h =
    let o = read_loop parse chunks (broken e) [] start in
    let c = conclude-eq-inr o r h in cc (c.0, read_loop_broken parse chunks e [] start)
