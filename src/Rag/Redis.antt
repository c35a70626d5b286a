-- ===== src/Rag/Redis.antt =====
-- apps/api-gateway/src/core/redis.service.ts: commands that are left out while the connection is
-- not ready, and whose failures are only logged.
use ragpolyglot_demo.Base.{ℕ, Bool, false, Option, none, some, if◌then◌else◌, or_else, ◌≡◌}
use ragpolyglot_demo.Base.Text.{Text, str_eq}

-- The commands of the client library on the state of the server, `none` where a command throws.
pub record RedisClient : Type 1 where
  pub Server : Type 0
  pub get : Text → Server → Option (Option Text)
  pub setex : Text → ℕ → Text → Server → Option Server
  pub incr : Text → Server → Option Server
  pub del : Text → Server → Option Server

module _ (client : RedisClient) where
  pub record RedisService : Type 0 where
    pub ready : Bool
    pub server : client.Server

  -- What `get` returns, `none` for null.
  unfoldable pub redis_get : Text → RedisService → Option Text
  redis_get key r = if r.ready then or_else (client.get key r.server) none else none

  abbrev command : (client.Server → Option client.Server) → RedisService → RedisService
  command run r = if r.ready then record r { server = or_else (run r.server) r.server } else r

  unfoldable pub redis_setex : Text → ℕ → Text → RedisService → RedisService
  redis_setex key ttl value r = command (client.setex key ttl value) r

  unfoldable pub redis_incr : Text → RedisService → RedisService
  redis_incr key r = command (client.incr key) r

  unfoldable pub redis_del : Text → RedisService → RedisService
  redis_del key r = command (client.del key) r

  -- What the server documents, while no command fails and before the time to live is over: a value
  -- that was set is read back, and a command on one key leaves the others alone.
  pub record IsStore : Type 0 where
    pub get-setex :
        (key : Text) (ttl : ℕ) (value : Text) (s : client.Server)
        → client.get key (or_else (client.setex key ttl value s) s) ≡ some (some value)
    pub get-setex_other :
        (key other : Text) (ttl : ℕ) (value : Text) (s : client.Server)
        → str_eq other key ≡ false
        → client.get other (or_else (client.setex key ttl value s) s) ≡ client.get other s
    pub get-incr_other :
        (key other : Text) (s : client.Server)
        → str_eq other key ≡ false
        → client.get other (or_else (client.incr key s) s) ≡ client.get other s
