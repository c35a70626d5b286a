-- ===== src/Rag/Stream/Chunks.antt =====
-- How the answer is cut into chunks has no effect: the loop does what one pass over the lines of
-- the whole text does.
use mathlib.Core.Path.{fun_ext}
use ragpolyglot_demo.Base.{
  ◌≡◌, refl, ◌∙◌, sym, ap, Option, none, some, List, [], ◌∷◌, ◌++◌, All, All-append, ◌==◌,
  append-nil, append_assoc, false, inl, inr, Bool-cases,
}
use ragpolyglot_demo.Base.Text.{Text}
use ragpolyglot_demo.Rag.Stream.{
  StreamEvent, ChatStream, Outcome, start, split_lines, and_then, handle_part, feed, consume_ndjson,
  flushed, read_loop, read_chat_stream, conclude,
}

abbrev NoBreak : Text → Type 0
NoBreak s = All (λ c. (c == 10) ≡ false) s

-- All the parts of a text, the last one included.
abbrev pub parts : List Text × Text → List Text
parts split = split.0 ++ split.1 ∷ []

abbrev continue : List Text × Text → Text → List Text × Text
continue split u = (split.0 ++ (split_lines split.1 u).0, (split_lines split.1 u).1)

split_lines-append : (cur t u : Text) → split_lines cur (t ++ u) ≡ continue (split_lines cur t) u
unfolding split_lines
split_lines-append cur [] u = refl
split_lines-append cur (c ∷ t) u = elim (Bool-cases (c == 10)) [
  | inl e ↦ rw e (rw (split_lines-append [] t u))
  | inr e ↦ rw e (rw (split_lines-append (cur ++ c ∷ []) t u))
]

split_lines-NoBreak : (cur s : Text) → NoBreak s → split_lines cur s ≡ ([], cur ++ s)
unfolding split_lines
split_lines-NoBreak cur [] h = rw append-nil
split_lines-NoBreak cur (c ∷ s) (e, h) =
    rw (e, split_lines-NoBreak (cur ++ c ∷ []) s h, append_assoc)

rest-NoBreak : (cur s : Text) → NoBreak cur → NoBreak (split_lines cur s).1
unfolding split_lines
rest-NoBreak cur [] h = h
rest-NoBreak cur (c ∷ s) h = elim (Bool-cases (c == 10)) [
  | inl e ↦ rw e (rest-NoBreak [] s tt)
  | inr e ↦ rw e (rest-NoBreak (cur ++ c ∷ []) s (All-append _ cur (c ∷ []) h (e, tt)))
]

split_buffer :
    (buffer chunk : Text)
    → NoBreak buffer
    → split_lines [] (buffer ++ chunk) ≡ split_lines buffer chunk
split_buffer buffer chunk h =
    split_lines-append [] buffer chunk
    ∙ ap (λ split. continue split chunk) (split_lines-NoBreak [] buffer h)

-- All that the decoder delivers.
abbrev pub whole_text : List Text → Text → Text
whole_text [] last = last
whole_text (chunk ∷ chunks) last = chunk ++ whole_text chunks last

and_then_assoc :
    (o : Outcome) (f g : ChatStream → Outcome)
    → and_then (and_then o f) g ≡ and_then o (λ s. and_then (f s) g)
and_then_assoc (s, none) f g = refl
and_then_assoc (s, some e) f g = refl

module _ (parse : Text → Option StreamEvent) where
  feed-append :
      (xs ys : List Text) (s : ChatStream)
      → feed parse (xs ++ ys) s ≡ and_then (feed parse xs s) (λ s'. feed parse ys s')
  unfolding feed
  feed-append [] ys s = refl
  feed-append (x ∷ xs) ys s =
      ap (and_then (handle_part parse x s)) (fun_ext (λ s'. feed-append xs ys s'))
      ∙ sym
          (and_then_assoc (handle_part parse x s) (λ s'. feed parse xs s') (λ s'. feed parse ys s'))

  -- What the parts of one chunk and those of the text behind it do.
  feed-continue :
      (split : List Text × Text) (rest : Text) (s : ChatStream)
      → and_then (feed parse split.0 s) (λ s'. feed parse (parts (split_lines split.1 rest)) s')
        ≡ feed parse (parts (continue split rest)) s
  feed-continue split rest s =
      sym (feed-append split.0 (parts (split_lines split.1 rest)) s)
      ∙ ap (λ ps. feed parse ps s)
          (sym
            (append_assoc split.0 (split_lines split.1 rest).0 ((split_lines split.1 rest).1 ∷ [])))

  read_loop-eq-feed :
      (chunks : List Text) (last buffer : Text) (s : ChatStream)
      → NoBreak buffer
      → read_loop parse chunks (flushed last) buffer s
        ≡ feed parse (parts (split_lines buffer (whole_text chunks last))) s
  unfolding read_loop consume_ndjson
  read_loop-eq-feed [] last buffer s h =
      ap (λ split. feed parse (parts split) s) (split_buffer buffer last h)
  read_loop-eq-feed (chunk ∷ chunks) last buffer s h =
      let split = split_lines buffer chunk in
      let rest = whole_text chunks last in
      ap (λ sp. and_then (feed parse sp.0 s) (λ s'. read_loop parse chunks (flushed last) sp.1 s'))
        (split_buffer buffer chunk h)
      ∙ ap (and_then (feed parse split.0 s))
          (fun_ext (λ s'. read_loop-eq-feed chunks last split.1 s' (rest-NoBreak buffer chunk h)))
      ∙ feed-continue split rest s
      ∙ ap (λ sp. feed parse (parts sp) s) (sym (split_lines-append buffer chunk rest))

-- The calls that are made and the result or exception depend only on the text that the chunks
-- and the last flush make up: wherever the stream is cut, also inside a line.
pub read_chat_stream_chunking :
    (parse : Text → Option StreamEvent) (chunks chunks' : List Text) (last last' : Text)
    → whole_text chunks last ≡ whole_text chunks' last'
    → read_chat_stream parse chunks (flushed last) ≡ read_chat_stream parse chunks' (flushed last')
unfolding read_chat_stream
read_chat_stream_chunking parse chunks chunks' last last' e = ap conclude (
    read_loop-eq-feed parse chunks last [] start tt
    ∙ ap (λ t. feed parse (parts (split_lines [] t)) start) e
    ∙ sym (read_loop-eq-feed parse chunks' last' [] start tt))
