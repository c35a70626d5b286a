-- ===== src/Rag/Search.antt =====
-- apps/api-gateway/src/rag/rag.service.ts: `streamSearch` with its cache.
pub mod Cached
use ragpolyglot_demo.Base.{
  ℕ, Bool, true, false, Option, none, some, List, [], ◌∷◌, ◌⊎◌, inl, inr, if◌then◌else◌, or_else,
}
use ragpolyglot_demo.Base.Text.{Text, codes, trim, is_empty}
use ragpolyglot_demo.Shared.Number.{Number, whole, is_finite}
use ragpolyglot_demo.Shared.Json.{Js}
use ragpolyglot_demo.Shared.Types.{ChatMode, fast, deep, mode_name}
use ragpolyglot_demo.Shared.Records.{RagQuery, RagResult}
use ragpolyglot_demo.Rag.Errors.{
  Failure, http, bad_request, bad_gateway, unavailable, from_upstream_message, to_upstream_error,
}
use ragpolyglot_demo.Rag.Helpers.{
  normalize_chat_mode, clamp_topk, clamp_chat_topk, normalize_document_ids, rag_cache_key,
}
use ragpolyglot_demo.Rag.Stream.{StreamEvent, Callback, on_token, Ending, read_chat_stream}
use ragpolyglot_demo.Rag.Redis.{RedisClient, RedisService, redis_get, redis_setex, redis_incr}

-- What the service takes from elsewhere: the runtime, the hash, the conversion of a string or null
-- to a number, the codecs of the cache and of the stream, and three entries of `Config`.
pub record Runtime : Type 0 where
  pub js : Js
  pub sha256 : Text → Text
  pub to_number : Option Text → Number
  pub parse_result : Text → Option RagResult
  pub stringify_result : RagResult → Text
  pub parse_event : Text → Option StreamEvent
  pub default_topk : Number
  pub default_chat_topk : Number
  pub cache_ttl : ℕ

-- What `fetch` comes to: an exception, an error status with the `error` of its body, a response
-- without a body, or a body that is read in chunks.
pub data Response : Type 0 where
  rejected : Failure → Response
  not_ok : Option Text → Response
  no_body : Response
  body : List Text → Ending → Response

-- The body of the request.
pub record ChatRequest : Type 0 where
  pub query : Text
  pub topk : Number
  pub mode : ChatMode
  pub document_ids : Option (List Text)

abbrev pub documents_version_key : Text
documents_version_key = codes "rag:documents:version"

-- `queryDto?.query?.trim()` and what follows from it, before the cache is asked
unfoldable pub chat_request : Runtime → RagQuery → ChatRequest
chat_request rt q =
    let mode = normalize_chat_mode rt.js q.mode in
    record {
      query = trim q.query;
      topk = elim mode [
        | deep ↦ clamp_chat_topk (or_else q.top_k rt.default_chat_topk)
        | fast ↦ clamp_topk (or_else q.top_k rt.default_topk)
      ];
      mode = mode;
      document_ids = normalize_document_ids rt.js q.document_ids;
    }

-- `queryDto.userId || 'anonymous'`
abbrev user_or_anonymous : Option Text → Text
user_or_anonymous none = codes "anonymous"
user_or_anonymous (some id) = if is_empty id then codes "anonymous" else id

unfoldable pub cache_key : Runtime → RagQuery → Number → Text
cache_key rt q version =
    let r = chat_request rt q in
    rag_cache_key rt.js rt.sha256 r.query (some (user_or_anonymous q.user_id)) (some r.topk) version
      r.document_ids (mode_name r.mode)

-- The `try` block behind `fetch`: the calls, and the exception or the result.
unfoldable pub answer_of : Runtime → Response → List Callback × (Failure ⊎ RagResult)
answer_of rt (rejected e) = ([], inl e)
answer_of rt (not_ok message) =
    ([], inl (http (from_upstream_message (some (or_else message unavailable)))))
answer_of rt no_body = ([], inl (http (bad_gateway unavailable)))
answer_of rt (body chunks ending) = read_chat_stream rt.parse_event chunks ending

module _ (client : RedisClient) (rt : Runtime) where
  -- The state of Redis, the calls, and the exception or the result.
  pub record Searched : Type 0 where
    pub redis : RedisService client
    pub calls : List Callback
    pub result : Failure ⊎ RagResult

  abbrev finite_or_zero : Number → Number
  finite_or_zero n = if is_finite n then n else whole 0

  unfoldable pub documents_version : RedisService client → Number
  documents_version r = finite_or_zero (rt.to_number (redis_get client documents_version_key r))

  abbrev pub mark_hit : Option RagResult → Option RagResult
  mark_hit none = none
  mark_hit (some result) = some (record result { cache_hit = some true })

  abbrev pub parse_cached : Option Text → Option RagResult
  parse_cached none = none
  parse_cached (some cached) = if is_empty cached then none else mark_hit (rt.parse_result cached)

  -- `readCache`: an entry that is missing, empty or corrupt is no hit.
  unfoldable pub read_cache : Text → RedisService client → Option RagResult
  read_cache key r = parse_cached (redis_get client key r)

  abbrev pub count_hit : RedisService client → RedisService client
  count_hit r = redis_incr client (codes "metrics:rag:cache_hits") r

  abbrev pub count_miss : RedisService client → RedisService client
  count_miss r = redis_incr client (codes "metrics:rag:cache_misses") r

  -- `writeCache`
  unfoldable pub write_cache : Text → RagResult → RedisService client → RedisService client
  write_cache key result r = redis_setex client key rt.cache_ttl (rt.stringify_result result) r

  -- The `catch` block.
  abbrev failure_of : Bool → Failure → Failure
  failure_of aborted e = if aborted then e else http (to_upstream_error e)

  -- The end of the search, from what the worker answered.
  abbrev pub conclude_search :
      Bool → Text → RedisService client → List Callback × (Failure ⊎ RagResult) → Searched
  conclude_search aborted key r (calls, inl e) = record {
    redis = r;
    calls = calls;
    result = inl (failure_of aborted e);
  }
  conclude_search aborted key r (calls, inr result) = record {
    redis = write_cache key result r;
    calls = calls;
    result = inr result;
  }

  abbrev pub hit_calls : RagResult → List Callback
  hit_calls result = if is_empty result.answer then [] else on_token result.answer ∷ []

  -- A hit is returned; on a miss the worker is asked.
  abbrev pub search_from :
      Option RagResult
      → Text
      → (ChatRequest → Response)
      → Bool
      → RagQuery
      → RedisService client
      → Searched
  search_from (some cached) key worker aborted q r = record {
    redis = count_hit r;
    calls = hit_calls cached;
    result = inr cached;
  }
  search_from none key worker aborted q r =
      conclude_search aborted key (count_miss r) (answer_of rt (worker (chat_request rt q)))

  -- `streamSearch`; `aborted` is whether the signal has fired when an exception is caught.
  unfoldable pub stream_search :
      (ChatRequest → Response) → Bool → RagQuery → RedisService client → Searched
  stream_search worker aborted q r =
      let key = cache_key rt q (documents_version r) in
      if is_empty (trim q.query)
      then record {
        redis = r;
        calls = [];
        result = inl (http (bad_request (codes "Query is required")));
      }
      else search_from (read_cache key r) key worker aborted q r
