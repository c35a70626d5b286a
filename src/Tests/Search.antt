-- ===== src/Tests/Search.antt =====
-- A search that is asked twice, with a map for the server of Redis.
use ragpolyglot_demo.Base.{◌≡◌, refl, true, false, Option, none, some, [], inr, ◌⊎◌, if◌then◌else◌}
use ragpolyglot_demo.Base.Text.{Text, codes, str_eq, str_eq_refl, trim, trim_start, is_space}
use ragpolyglot_demo.Shared.Number.{whole}
use ragpolyglot_demo.Shared.Records.{RagQuery}
use ragpolyglot_demo.Rag.Errors.{http, bad_gateway, unavailable, other_error, to_upstream_error}
use ragpolyglot_demo.Rag.Stream.{flushed, read_chat_stream, split_lines, handle_event, handle_part}
use ragpolyglot_demo.Rag.Helpers.{to_sources}
use ragpolyglot_demo.Rag.Redis.{RedisClient, RedisService, IsStore, redis_get}
use ragpolyglot_demo.Rag.Search.{
  Runtime, ChatRequest, Response, body, rejected, stream_search, hit_calls, count_miss, read_cache,
  answer_of,
}
use ragpolyglot_demo.Rag.Search.Cached.{is_http, stream_search-again, stream_search-eq-inl}
use ragpolyglot_demo.Tests.Shared.{ascii_js}
use ragpolyglot_demo.Tests.Rag.{tiny_parse, cut_chunks, hi}

-- Every counter stays at 1.
abbrev pub map_client : RedisClient
map_client = record {
  Server = Text → Option Text;
  get = λ key s. some (s key);
  setex = λ key ttl value s. some (λ j. if str_eq j key then some value else s j);
  incr = λ key s. some (λ j. if str_eq j key then some (codes "1") else s j);
  del = λ key s. some (λ j. if str_eq j key then none else s j);
}

map_client-IsStore : IsStore map_client
map_client-IsStore = record {
  get-setex = λ key ttl value s. rw (str_eq_refl key) refl;
  get-setex_other = λ key other ttl value s apart. rw apart refl;
  get-incr_other = λ key other s apart. rw apart refl;
}

abbrev tiny_runtime : Runtime
tiny_runtime = record {
  js = ascii_js;
  sha256 = λ s. s;
  to_number = λ s. whole 0;
  parse_result = λ s. some hi;
  stringify_result = λ r. codes "{}";
  parse_event = tiny_parse;
  default_topk = whole 5;
  default_chat_topk = whole 20;
  cache_ttl = 600;
}

abbrev question : RagQuery
question = record {
  query = codes "hello";
  top_k = none;
  mode = none;
  user_id = none;
  document_ids = none;
}

abbrev empty_redis : RedisService map_client
empty_redis = record { ready = true; server = λ key. none }

abbrev answering_worker : ChatRequest → Response
answering_worker request = body cut_chunks (flushed [])

abbrev failing_worker : ChatRequest → Response
failing_worker request = rejected other_error

stream_search-again_example :
    let again =
      stream_search map_client tiny_runtime failing_worker false question
        (stream_search map_client tiny_runtime answering_worker false question empty_redis).redis in
    (again.result ≡ inr (record hi { cache_hit = some true }))
    × (again.calls ≡ hit_calls map_client tiny_runtime hi)
unfolding stream_search read_cache redis_get answer_of read_chat_stream split_lines handle_event
    handle_part trim trim_start is_space str_eq to_sources
stream_search-again_example =
    stream_search-again map_client tiny_runtime map_client-IsStore answering_worker failing_worker
      false false question empty_redis hi refl refl refl refl refl

stream_search-eq-inl_example :
    (is_http (http (bad_gateway unavailable)) ≡ true)
    × (((stream_search map_client tiny_runtime failing_worker false question empty_redis).redis
          ≡ empty_redis)
        ⊎ ((stream_search map_client tiny_runtime failing_worker false question empty_redis).redis
            ≡ count_miss map_client tiny_runtime empty_redis))
unfolding stream_search read_cache redis_get answer_of trim trim_start is_space to_upstream_error
stream_search-eq-inl_example =
    stream_search-eq-inl map_client tiny_runtime failing_worker question empty_redis
      (http (bad_gateway unavailable)) refl
