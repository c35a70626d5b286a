-- ===== src/Tests/Rag.antt =====
-- A stream that is cut inside a line, a scope with a repeated id, and a `topK` out of bounds.
use ragpolyglot_demo.Base.{
  ◌≡◌, refl, true, false, Option, none, some, List, [], ◌∷◌, if◌then◌else◌, arith,
}
use ragpolyglot_demo.Base.Text.{Text, codes, str_eq, trim, is_empty, is_space, trim_start}
use ragpolyglot_demo.Base.Order.{set_from, set_add, sort, insert_sorted, contains, str_lt}
use ragpolyglot_demo.Base.Sorted.{Ascending, SameMembers}
use ragpolyglot_demo.Shared.Number.{whole, number_lt}
use ragpolyglot_demo.Shared.Records.{RagResult}
use ragpolyglot_demo.Rag.Helpers.{
  normalize_document_ids, cleaned_ids, clamp_topk, clamp_chat_topk, to_sources,
}
use ragpolyglot_demo.Rag.Helpers.Clamp.{clamp_bounds}
use ragpolyglot_demo.Rag.Helpers.Ids.{normalize_document_ids_lem, normalize_document_ids_canonical}
use ragpolyglot_demo.Rag.Stream.{
  StreamEvent, flushed, read_chat_stream, handle_part, handle_event, split_lines,
}
use ragpolyglot_demo.Rag.Stream.Chunks.{read_chat_stream_chunking}
use ragpolyglot_demo.Rag.Stream.Result.{is_flushed, read_chat_stream-eq-inr}
use ragpolyglot_demo.Tests.Shared.{ascii_js}

-- A worker whose lines are `t` for a token and anything else for the end.
abbrev pub tiny_parse : Text → Option StreamEvent
tiny_parse line =
    if str_eq line (codes "t")
    then some (StreamEvent.token (codes "Hi"))
    else some (StreamEvent.done (some (codes "Hi")) none)

abbrev pub cut_chunks : List Text
cut_chunks = codes "t\nen" ∷ codes "d\n" ∷ []

abbrev pub hi : RagResult
hi = record { answer = codes "Hi"; sources = []; cache_hit = some false }

read_chat_stream_chunking_example :
    read_chat_stream tiny_parse cut_chunks (flushed [])
    ≡ read_chat_stream tiny_parse [] (flushed (codes "t\nend\n"))
read_chat_stream_chunking_example =
    read_chat_stream_chunking tiny_parse cut_chunks [] [] (codes "t\nend\n") refl

read_chat_stream-eq-inr_example :
    (is_empty (trim (codes "Hi")) ≡ false)
    × (some false ≡ some false)
    × (is_flushed (flushed []) ≡ true)
unfolding read_chat_stream split_lines str_eq trim is_space trim_start to_sources handle_event
    handle_part
read_chat_stream-eq-inr_example = read_chat_stream-eq-inr tiny_parse cut_chunks (flushed []) hi refl

normalize_document_ids_lem_example :
    Ascending (codes "a" ∷ codes "b" ∷ [])
    × SameMembers
        (codes "a" ∷ codes "b" ∷ [])
        (cleaned_ids ascii_js (codes "B" ∷ codes " a " ∷ codes "b" ∷ []))
unfolding normalize_document_ids cleaned_ids set_from set_add sort insert_sorted contains str_eq
    str_lt trim is_space trim_start
normalize_document_ids_lem_example =
    normalize_document_ids_lem ascii_js (codes "B" ∷ codes " a " ∷ codes "b" ∷ [])
      (codes "a" ∷ codes "b" ∷ []) refl

normalize_document_ids_canonical_example :
    normalize_document_ids ascii_js (some (codes "B" ∷ codes "b" ∷ []))
    ≡ normalize_document_ids ascii_js (some (codes " b" ∷ []))
unfolding cleaned_ids contains str_eq trim is_space trim_start
normalize_document_ids_canonical_example =
    normalize_document_ids_canonical ascii_js (codes "B" ∷ codes "b" ∷ []) (codes " b" ∷ [])
      (λ a. ground arith)

clamp_bounds_example :
    (number_lt (clamp_topk (whole 99)) (whole 5) ≡ false)
    × (number_lt (whole 10) (clamp_topk (whole 99)) ≡ false)
    × (number_lt (clamp_chat_topk (whole 99)) (whole 10) ≡ false)
    × (number_lt (whole 40) (clamp_chat_topk (whole 99)) ≡ false)
    × (clamp_topk (clamp_topk (whole 99)) ≡ clamp_topk (whole 99))
    × (clamp_chat_topk (clamp_chat_topk (whole 99)) ≡ clamp_chat_topk (whole 99))
clamp_bounds_example = clamp_bounds (whole 99) refl
