-- ===== src/Documents/Service/Deleted.antt =====
-- A document whose deletion fails loses nothing.
use ragpolyglot_demo.Base.{◌≡◌, inl, arith}
use ragpolyglot_demo.Base.Text.{Text}
use ragpolyglot_demo.Shared.Json.{Js}
use ragpolyglot_demo.Rag.Redis.{RedisClient}
use ragpolyglot_demo.Documents.Api.{Thrown, Remote, Api, send, incr}
use ragpolyglot_demo.Documents.Service.{delete_document}

module _ (js : Js) (remote : Remote) (redis_client : RedisClient) where
  -- If `deleteDocument` throws, the files of the directory of uploads and the Redis service are as
  -- before: the file is removed and the cache is made stale only after the document service has
  -- deleted the document.
  pub delete_document-failed :
      (id : Text) (w : Api redis_client) (e : Thrown)
      → (delete_document js remote redis_client id w).0 ≡ inl e
      → ((delete_document js remote redis_client id w).1.uploads ≡ w.uploads)
        × ((delete_document js remote redis_client id w).1.redis ≡ w.redis)
  unfolding delete_document send incr
  delete_document-failed id w e h = ground (arith, h)
