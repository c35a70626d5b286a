-- ===== src/Documents/Api.antt =====
-- What the documents of the gateway stand on: the requests that it sends to the document service,
-- the directory of uploads and the Redis service, with the handlers as state passing.
use ragpolyglot_demo.Base.{Bool, Option, List, ◌∷◌, ◌⊎◌, inl, inr, if◌then◌else◌, not, filter}
use ragpolyglot_demo.Base.Text.{Text, str_eq}
use ragpolyglot_demo.Base.Order.{contains}
use ragpolyglot_demo.Shared.Json.{Json}
use ragpolyglot_demo.Shared.Number.{Number}
use ragpolyglot_demo.Shared.Records.{Document}
use ragpolyglot_demo.Rag.Errors.{HttpException}
use ragpolyglot_demo.Rag.Redis.{RedisClient, RedisService, redis_incr}
use ragpolyglot_demo.Documents.Upload.{UploadError}

-- What is sent in the body of a request.
pub data Body : Type 0 where
  empty : Body
  summarize : Option Number → Body
  create : Text → Text → Body
  ocr_lang : Option Text → Body
  rename : Text → Body

pub data Method : Type 0 where
  get post delete : Method

pub record Request : Type 0 where
  pub method : Method
  pub url : Text
  pub body : Body

-- What a handler throws: an `HttpException`, what the HTTP client throws, or a `TypeError`.
pub data Thrown : Type 0 where
  http : HttpException → Thrown
  client : UploadError → Thrown
  type_error : Thrown

-- The document service answers by all requests up to this one, the latest first. A payload that is
-- null is `none`; one that is not has the declared type. The rest is of Node's libraries.
pub record Remote : Type 0 where
  pub service_url : Text
  pub worker_url : Text
  pub documents : List Request → UploadError ⊎ List (Option Document)
  pub document : List Request → UploadError ⊎ Option Document
  pub summary : List Request → UploadError ⊎ Option (Option Text)
  pub chunks : List Request → UploadError ⊎ List Json
  pub ocr_languages : List Request → UploadError ⊎ Option Json
  -- the error of a deletion
  pub deleted : List Request → Option UploadError
  pub encode_uri_component : Text → Text
  pub basename : Text → Text
  pub extname : Text → Text
  -- whether `unlink` may remove a file of the directory
  pub can_unlink : Text → Bool

abbrev pub client_reply : {A : Type 0} → UploadError ⊎ A → Thrown ⊎ A
client_reply (inl e) = inl (Thrown.client e)
client_reply (inr a) = inr a

module _ (redis_client : RedisClient) where
  -- The files of `Config.uploadsDir` by name.
  pub record Api : Type 0 where
    pub requests : List Request
    pub uploads : List Text
    pub redis : RedisService redis_client

  abbrev pub Act : Type 0 → Type 0
  Act A = Api → (Thrown ⊎ A) × Api

module _ {redis_client : RedisClient} where
  abbrev pub return : {A : Type 0} → A → Act redis_client A
  return a = λ w. (inr a, w)

  abbrev pub throw : {A : Type 0} → Thrown → Act redis_client A
  throw e = λ w. (inl e, w)

  abbrev pub continue :
      {A B : Type 0}
      → (Thrown ⊎ A) × Api redis_client
      → (A → Act redis_client B)
      → (Thrown ⊎ B) × Api redis_client
  continue (inl e, w) f = (inl e, w)
  continue (inr a, w) f = f a w

  infixl 5 ◌>>=◌ ◌>>◌
  abbrev pub ◌>>=◌ :
      {A B : Type 0} → Act redis_client A → (A → Act redis_client B) → Act redis_client B
  m >>= f = λ w. continue (m w) f

  abbrev pub ◌>>◌ :
      {B : Type 0} → Act redis_client (Unit {0}) → Act redis_client B → Act redis_client B
  m >> k = m >>= λ _. k

  -- `try { m } catch (err) { h(err); throw err; }`
  abbrev pub rethrow :
      {A : Type 0}
      → (Thrown ⊎ A) × Api redis_client
      → (Thrown → Api redis_client → Api redis_client)
      → (Thrown ⊎ A) × Api redis_client
  rethrow (inl e, w) h = (inl e, h e w)
  rethrow (inr a, w) h = (inr a, w)

  abbrev pub on_error :
      {A : Type 0}
      → Act redis_client A
      → (Thrown → Api redis_client → Api redis_client)
      → Act redis_client A
  on_error m h = λ w. rethrow (m w) h

  -- `firstValueFrom(this.httpService.…)`
  unfoldable pub send :
      {A : Type 0} → (List Request → UploadError ⊎ A) → Request → Act redis_client A
  send answer r =
      λ w. (client_reply (answer (r ∷ w.requests)), record w { requests = r ∷ w.requests })

  -- `access(…, F_OK)`, as a test
  abbrev pub can_access : Text → Act redis_client Bool
  can_access filename = λ w. (inr (contains filename w.uploads), w)

  -- `unlink(…).catch(() => undefined)`
  unfoldable pub unlink : Remote → Text → Api redis_client → Api redis_client
  unlink remote filename w =
      if remote.can_unlink filename
      then record w { uploads = filter (λ f. not (str_eq f filename)) w.uploads }
      else w

  unfoldable pub incr : Text → Act redis_client (Unit {0})
  incr key = λ w. (inr tt, record w { redis = redis_incr redis_client key w.redis })
