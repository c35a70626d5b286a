-- ===== src/Rag/Helpers.antt =====
-- apps/api-gateway/src/rag/rag.helpers.ts, and `ragCacheKey` of core/config.ts.
pub mod Ids
pub mod Clamp
use ragpolyglot_demo.Base.{
  ◌≡◌, Bool, not, Option, none, some, List, [], ◌∷◌, ◌++◌, map, filter, if◌then◌else◌, or_else,
}
use ragpolyglot_demo.Base.Text.{Text, codes, str_eq, trim, is_empty}
use ragpolyglot_demo.Base.Order.{set_from, sort}
use ragpolyglot_demo.Shared.Number.{Number, whole, number_lt}
use ragpolyglot_demo.Shared.Json.{Json, Js}
use ragpolyglot_demo.Shared.Types.{ChatMode, fast, deep, mode_name}
use ragpolyglot_demo.Shared.Records.{RagSearchHit, Source}

abbrev is_deep : Bool → ChatMode
is_deep b = if b then deep else fast

unfoldable pub normalize_chat_mode : Js → Option Text → ChatMode
normalize_chat_mode js none = fast
normalize_chat_mode js (some mode) = is_deep (str_eq (js.lower (trim mode)) (codes "deep"))

unfoldable pub clamp_topk : Number → Number
clamp_topk topk =
    if number_lt topk (whole 5)
    then whole 5
    else if number_lt (whole 10) topk
    then whole 10
    else topk

unfoldable pub clamp_chat_topk : Number → Number
clamp_chat_topk topk =
    if number_lt topk (whole 10)
    then whole 10
    else if number_lt (whole 40) topk
    then whole 40
    else topk

-- `ids.map((id) => id.trim().toLowerCase()).filter(Boolean)`
unfoldable pub cleaned_ids : Js → List Text → List Text
cleaned_ids js ids = filter (λ id. not (is_empty id)) (map (λ id. js.lower (trim id)) ids)

abbrev pub unless_empty : List Text → Option (List Text)
unless_empty [] = none
unless_empty (x ∷ xs) = some (x ∷ xs)

unfoldable pub normalize_document_ids : Js → Option (List Text) → Option (List Text)
normalize_document_ids js none = none
normalize_document_ids js (some []) = none
normalize_document_ids js (some (id ∷ ids)) =
    unless_empty (sort (set_from [] (cleaned_ids js (id ∷ ids))))

-- `h.documentTitle?.trim() || ''`
abbrev hit_title : Option Text → Text
hit_title none = []
hit_title (some title) = trim title

unfoldable pub to_source : RagSearchHit → Source
to_source h = record {
  document_id = h.document_id;
  document_title = hit_title h.document_title;
  chunk_content = h.content;
  similarity = h.similarity;
  chunk_index = some h.chunk_index;
}

unfoldable pub to_sources : List RagSearchHit → List Source
unfolding to_source
to_sources hits = map to_source hits

-- `ids.join(',')`
unfoldable pub join_comma : List Text → Text
join_comma [] = []
join_comma (x ∷ []) = x
join_comma (x ∷ y ∷ rest) = x ++ codes "," ++ join_comma (y ∷ rest)

-- `documentIds?.length ? documentIds.join(',') : '*'`
abbrev scope : Option (List Text) → Text
scope none = codes "*"
scope (some []) = codes "*"
scope (some (id ∷ ids)) = join_comma (id ∷ ids)

-- `${topK ?? ''}`
abbrev optional_number : Js → Option Number → Text
optional_number js none = []
optional_number js (some n) = js.to_string (Json.number n)

-- The cache key; the hash is the hexadecimal SHA-256 of the runtime's library.
unfoldable pub rag_cache_key :
    Js
    → (Text → Text)
    → Text
    → Option Text
    → Option Number
    → Number
    → Option (List Text)
    → Text
    → Text
rag_cache_key js sha256 query user_id topk documents_version document_ids mode =
    let normalized =
      js.lower (trim query)
      ++ (codes "|topK="
          ++ (optional_number js topk
              ++ (codes "|documents="
                  ++ (js.to_string (Json.number documents_version)
                      ++ (codes "|scope="
                          ++ (scope document_ids
                              ++ (codes "|mode=" ++ (mode ++ codes "|p=mode1")))))))) in
    codes "rag:query:" ++ (sha256 normalized ++ (codes ":" ++ or_else user_id (codes "anonymous")))
