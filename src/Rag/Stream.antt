-- ===== src/Rag/Stream.antt =====
-- apps/api-gateway/src/rag/rag.service.ts: reading the NDJSON answer of the rag-worker
-- (`readChatStream`, `consumeNdjson` and `onLine`). The decoded chunks are what
-- `reader.read()` and the `TextDecoder` deliver; the last of them is `decoder.decode()`.
pub mod Chunks
pub mod Result
use ragpolyglot_demo.Base.{
  ℕ, Bool, true, false, Option, none, some, List, [], ◌∷◌, ◌++◌, ◌==◌, not, ◌||◌, ◌⊎◌, inl, inr,
  if◌then◌else◌, or_else,
}
use ragpolyglot_demo.Base.Text.{Text, trim, is_empty}
use ragpolyglot_demo.Shared.Number.{Number}
use ragpolyglot_demo.Shared.Records.{RagSearchHit, RagResult}
use ragpolyglot_demo.Rag.Helpers.{to_sources}
use ragpolyglot_demo.Rag.Errors.{Failure, http, bad_gateway, unavailable, from_upstream_message}

-- A line that `JSON.parse` accepts, by its `type`; fields that may be missing are options. Any
-- other value that is truthy is `ignored`.
pub data StreamEvent : Type 0 where
  token : Text → StreamEvent
  progress : Number → Number → StreamEvent
  done : Option Text → Option (List RagSearchHit) → StreamEvent
  error : Option Text → StreamEvent
  ignored : StreamEvent

-- The calls of `onToken` and `onProgress`, in their order.
pub data Callback : Type 0 where
  on_token : Text → Callback
  on_progress : Number → Number → Callback

pub record ChatStream : Type 0 where
  pub answer : Text
  pub sources : List RagSearchHit
  pub saw_done : Bool
  pub calls : List Callback

abbrev pub start : ChatStream
start = record { answer = []; sources = []; saw_done = false; calls = [] }

-- What a call leaves behind, and what it throws.
abbrev pub Outcome : Type 0
Outcome = ChatStream × Option Failure

-- The lines that end in the text, behind the unit already read, and the rest without an end: the
-- parts of `split('\n')`, the last of them apart.
unfoldable pub split_lines : Text → Text → List Text × Text
split_lines cur [] = ([], cur)
split_lines cur (c ∷ s) =
    let (lines, rest) = split_lines (if c == 10 then [] else cur ++ c ∷ []) s in
    if c == 10 then (cur ∷ lines, rest) else (lines, rest)

-- How the stream ends: the last text of the decoder, or a failed read.
pub data Ending : Type 0 where
  flushed : Text → Ending
  broken : Failure → Ending

-- Go on unless an exception is on its way.
abbrev pub and_then : Outcome → (ChatStream → Outcome) → Outcome
and_then (s, none) next = next s
and_then (s, some e) next = (s, some e)

abbrev parts_of : Bool → List Text × Text → List Text
parts_of true split = split.0 ++ split.1 ∷ []
parts_of false split = split.0

abbrev rest_of : Bool → List Text × Text → Text
rest_of true split = []
rest_of false split = split.1

unfoldable pub handle_event : Option StreamEvent → ChatStream → Outcome
handle_event none s = (s, none)
handle_event (some (progress d t)) s = (record s { calls = s.calls ++ on_progress d t ∷ [] }, none)
handle_event (some (token [])) s = (s, none)
handle_event (some (token (c ∷ t))) s =
    (record s { calls = s.calls ++ on_token (c ∷ t) ∷ [] }, none)
handle_event (some (done answer sources)) s =
    (record s { saw_done = true; answer = or_else answer []; sources = or_else sources [] }, none)
handle_event (some (error message)) s = (s, some (http (from_upstream_message message)))
handle_event (some ignored) s = (s, none)

-- `!sawDone || !answer.trim()`
abbrev is_incomplete : ChatStream → Bool
is_incomplete s = not s.saw_done || is_empty (trim s.answer)

-- What follows the loop of `readChatStream`: an exception goes on, and an answer that is missing
-- or blank is one.
unfoldable pub conclude : Outcome → List Callback × (Failure ⊎ RagResult)
conclude (s, some e) = (s.calls, inl e)
conclude (s, none) = (
  s.calls,
  if is_incomplete s
      then inl (http (bad_gateway unavailable))
      else inr
          (record { answer = s.answer; sources = to_sources s.sources; cache_hit = some false }),
)

module _ (parse : Text → Option StreamEvent) where
  -- One round of the loop over the parts, and `onLine`.
  unfoldable pub handle_part : Text → ChatStream → Outcome
  handle_part part s =
      if is_empty (trim part) then (s, none) else handle_event (parse (trim part)) s

  -- The loop over the parts, which an exception leaves.
  unfoldable pub feed : List Text → ChatStream → Outcome
  unfolding handle_part
  feed [] s = (s, none)
  feed (part ∷ parts) s = and_then (handle_part part s) (λ s'. feed parts s')

  -- `consumeNdjson`: the new buffer, and what the lines did
  unfoldable pub consume_ndjson :
      Text → Text → Bool → ChatStream → record { next : Text; outcome : Outcome }
  unfolding feed
  consume_ndjson chunk buffer at_end s =
      let split = split_lines [] (buffer ++ chunk) in
      record { next = rest_of at_end split; outcome = feed (parts_of at_end split) s }

  -- The `while (true)` loop, over the chunks that are still to come.
  unfoldable pub read_loop : List Text → Ending → Text → ChatStream → Outcome
  unfolding consume_ndjson
  read_loop [] (flushed last) buffer s = (consume_ndjson last buffer true s).outcome
  read_loop [] (broken e) buffer s = (s, some e)
  read_loop (chunk ∷ chunks) ending buffer s =
      let consumed = consume_ndjson chunk buffer false s in
      and_then consumed.outcome (λ s'. read_loop chunks ending consumed.next s')

  -- `readChatStream`: the calls that it makes, and its exception or result
  unfoldable pub read_chat_stream : List Text → Ending → List Callback × (Failure ⊎ RagResult)
  unfolding read_loop conclude
  read_chat_stream chunks ending = conclude (read_loop chunks ending [] start)
