-- ===== src/Rag/Search/Cached.antt =====
-- What the cache is good for, and what a failed search leaves behind.
use ragpolyglot_demo.Base.{
  ℕ, ◌≡◌, refl, sym, ap, ◌∙◌, Bool, true, false, Option, none, some, ◌⊎◌, inl, inr, if◌then◌else◌,
  arith, Bool-cases, List,
}
use ragpolyglot_demo.Base.Text.{Text, str_eq, trim, is_empty, codes}
use ragpolyglot_demo.Shared.Number.{Number}
use ragpolyglot_demo.Shared.Records.{RagQuery, RagResult}
use ragpolyglot_demo.Rag.Errors.{Failure, http, abort_error, other_error}
use ragpolyglot_demo.Rag.Helpers.{rag_cache_key}
use ragpolyglot_demo.Rag.Stream.{Callback}
use ragpolyglot_demo.Rag.Redis.{
  RedisClient, RedisService, IsStore, redis_get, redis_setex, redis_incr,
}
use ragpolyglot_demo.Rag.Search.{
  Runtime, ChatRequest, Response, documents_version_key, cache_key, chat_request, answer_of,
  Searched, documents_version, read_cache, parse_cached, count_miss, write_cache, conclude_search,
  search_from, hit_calls, stream_search,
}

version_key_apart :
    (rt : Runtime) (q : RagQuery) (version : Number)
    → str_eq documents_version_key (cache_key rt q version) ≡ false
unfolding cache_key rag_cache_key str_eq
version_key_apart rt q version = refl

abbrev pub is_http : Failure → Bool
is_http (http _) = true
is_http abort_error = false
is_http other_error = false

module _ (client : RedisClient) (rt : Runtime) where
  set-get :
      (store : IsStore client) (key value : Text) (ttl : ℕ) (r : RedisService client)
      → r.ready ≡ true
      → redis_get client key (redis_setex client key ttl value r) ≡ some value
  unfolding redis_get redis_setex
  set-get store key value ttl r ready = rw (ready, store.get-setex key ttl value r.server) refl

  read_written :
      (store : IsStore client) (key : Text) (result : RagResult) (r : RedisService client)
      → r.ready ≡ true
      → is_empty (rt.stringify_result result) ≡ false
      → rt.parse_result (rt.stringify_result result) ≡ some result
      → read_cache client rt key (write_cache client rt key result r)
        ≡ some (record result { cache_hit = some true })
  unfolding read_cache write_cache
  read_written store key result r ready full back =
      ap (parse_cached client rt)
        (set-get store key (rt.stringify_result result) rt.cache_ttl r ready)
      ∙ rw (full, back) refl

  version_written :
      (store : IsStore client) (key : Text) (result : RagResult) (r : RedisService client)
      → str_eq documents_version_key key ≡ false
      → documents_version client rt (write_cache client rt key result r)
        ≡ documents_version client rt r
  unfolding documents_version write_cache redis_get redis_setex
  version_written store key result r apart = elim (Bool-cases r.ready) [
    | inl ready ↦
        rw
          (
            ready,
            store.get-setex_other key documents_version_key rt.cache_ttl
                (rt.stringify_result result) r.server apart,
          )
          refl
    | inr down ↦ rw down refl
  ]

  version_missed :
      (store : IsStore client) (r : RedisService client)
      → documents_version client rt (count_miss client rt r) ≡ documents_version client rt r
  unfolding documents_version redis_get redis_incr str_eq
  version_missed store r = elim (Bool-cases r.ready) [
    | inl ready ↦
        rw
          (
            ready,
            store.get-incr_other (codes "metrics:rag:cache_misses") documents_version_key r.server
                refl,
          )
          refl
    | inr down ↦ rw down refl
  ]

  miss_ready : (r : RedisService client) → r.ready ≡ true → (count_miss client rt r).ready ≡ true
  unfolding redis_incr
  miss_ready r h = rw h refl

  stream_search_miss :
      (worker : ChatRequest → Response) (aborted : Bool) (q : RagQuery) (r : RedisService client)
      → is_empty (trim q.query) ≡ false
      → read_cache client rt (cache_key rt q (documents_version client rt r)) r ≡ none
      → stream_search client rt worker aborted q r
        ≡ conclude_search client rt aborted
            (cache_key rt q (documents_version client rt r))
            (count_miss client rt r)
            (answer_of rt (worker (chat_request rt q)))
  unfolding stream_search
  stream_search_miss worker aborted q r full miss = rw (full, miss) refl

  stream_search_hit :
      (worker : ChatRequest → Response) (aborted : Bool) (q : RagQuery) (r : RedisService client)
      (cached : RagResult)
      → is_empty (trim q.query) ≡ false
      → read_cache client rt (cache_key rt q (documents_version client rt r)) r ≡ some cached
      → let out = stream_search client rt worker aborted q r in
        (out.result ≡ inr cached) × (out.calls ≡ hit_calls client rt cached)
  unfolding stream_search
  stream_search_hit worker aborted q r cached full hit = (rw (full, hit) refl, rw (full, hit) refl)

  conclude_inr :
      (aborted : Bool) (key : Text) (r : RedisService client)
      (out : List Callback × (Failure ⊎ RagResult)) (result : RagResult)
      → (conclude_search client rt aborted key r out).result ≡ inr result
      → (conclude_search client rt aborted key r out).redis ≡ write_cache client rt key result r
  conclude_inr aborted key r (calls, inl e) result h = cc
  conclude_inr aborted key r (calls, inr x) result h = ap (λ y. write_cache client rt key y r) (cc)

  if-eq-inr :
      (b : Bool) (e : Failure) (x y : Searched client rt) (result : RagResult)
      → x.result ≡ inl e
      → (if b then x else y).result ≡ inr result
      → b ≡ false
  if-eq-inr true e x y result f h = ground arith
  if-eq-inr false e x y result f h = refl

  not_blank :
      (worker : ChatRequest → Response) (aborted : Bool) (q : RagQuery) (r : RedisService client)
      (result : RagResult)
      → (stream_search client rt worker aborted q r).result ≡ inr result
      → is_empty (trim q.query) ≡ false
  unfolding stream_search
  not_blank worker aborted q r result h = if-eq-inr (is_empty (trim q.query)) _ _ _ result refl h

  redis_after :
      (worker : ChatRequest → Response) (aborted : Bool) (q : RagQuery) (r : RedisService client)
      (result : RagResult)
      → read_cache client rt (cache_key rt q (documents_version client rt r)) r ≡ none
      → (stream_search client rt worker aborted q r).result ≡ inr result
      → (stream_search client rt worker aborted q r).redis
        ≡ write_cache client rt
            (cache_key rt q (documents_version client rt r))
            result
            (count_miss client rt r)
  redis_after worker aborted q r result miss h =
      let e = stream_search_miss worker aborted q r (not_blank worker aborted q r result h) miss in
      ap (λ s. s.redis) e ∙ conclude_inr aborted _ _ _ result (sym (ap (λ s. s.result) e) ∙ h)

  -- A search that misses and succeeds is served from the cache when it is asked again: whatever the
  -- worker would answer and the signal does, the same answer and sources are returned, marked as a
  -- hit, and the answer is passed on by one call, if it is not
  -- empty. Redis is ready and behaves as a store, and what
  -- the cache writes is read back.
  pub stream_search-again :
      (store : IsStore client) (worker worker' : ChatRequest → Response) (aborted aborted' : Bool)
      (q : RagQuery) (r : RedisService client) (result : RagResult)
      → r.ready ≡ true
      → is_empty (rt.stringify_result result) ≡ false
      → rt.parse_result (rt.stringify_result result) ≡ some result
      → read_cache client rt (cache_key rt q (documents_version client rt r)) r ≡ none
      → (stream_search client rt worker aborted q r).result ≡ inr result
      → let again =
          stream_search client rt worker' aborted' q
            (stream_search client rt worker aborted q r).redis in
        (again.result ≡ inr (record result { cache_hit = some true }))
        × (again.calls ≡ hit_calls client rt result)
  stream_search-again store worker worker' aborted aborted' q r result ready full back miss h =
      let version = documents_version client rt r in
      let key = cache_key rt q version in
      let r' = write_cache client rt key result (count_miss client rt r) in
      let same =
        version_written store key result (count_miss client rt r) (version_key_apart rt q version)
        ∙ version_missed store r in
      let hit =
        ap (λ v. read_cache client rt (cache_key rt q v) r') same
        ∙ read_written store key result (count_miss client rt r) (miss_ready r ready) full back in
      rw (redis_after worker aborted q r result miss h) (
        stream_search_hit worker' aborted' q r' (record result { cache_hit = some true })
          (not_blank worker aborted q r result h) hit)

  abbrev Fails : Failure → RedisService client → RedisService client → Type 0
  Fails e r r' = (is_http e ≡ true) × ((r' ≡ r) ⊎ (r' ≡ count_miss client rt r))

  conclude-Fails :
      (key : Text) (r : RedisService client) (out : List Callback × (Failure ⊎ RagResult))
      (e : Failure)
      → (conclude_search client rt false key (count_miss client rt r) out).result ≡ inl e
      → Fails e r (conclude_search client rt false key (count_miss client rt r) out).redis
  conclude-Fails key r (calls, inl x) e h = (ground arith, inr refl)
  conclude-Fails key r (calls, inr x) e h = cc

  search_from-Fails :
      (cached : Option RagResult) (key : Text) (worker : ChatRequest → Response) (q : RagQuery)
      (r : RedisService client) (e : Failure)
      → (search_from client rt cached key worker false q r).result ≡ inl e
      → Fails e r (search_from client rt cached key worker false q r).redis
  search_from-Fails none key worker q r e h = conclude-Fails key r _ e h
  search_from-Fails (some cached) key worker q r e h = cc

  if-Fails :
      (b : Bool) (x y : Searched client rt) (r : RedisService client) (e : Failure)
      → (x.result ≡ inl e → Fails e r x.redis)
      → (y.result ≡ inl e → Fails e r y.redis)
      → (if b then x else y).result ≡ inl e
      → Fails e r (if b then x else y).redis
  if-Fails true x y r e f g h = f h
  if-Fails false x y r e f g h = g h

  -- When a search fails and the signal has not fired, the exception is an `HttpException`, and
  -- Redis is left as it was but for the count of misses.
  pub stream_search-eq-inl :
      (worker : ChatRequest → Response) (q : RagQuery) (r : RedisService client) (e : Failure)
      → (stream_search client rt worker false q r).result ≡ inl e
      → (is_http e ≡ true)
        × (((stream_search client rt worker false q r).redis ≡ r)
            ⊎ ((stream_search client rt worker false q r).redis ≡ count_miss client rt r))
  unfolding stream_search
  stream_search-eq-inl worker q r e h =
      if-Fails (is_empty (trim q.query)) _ _ r e (λ f. (ground arith, inl refl))
        (search_from-Fails _ _ worker q r e) h
