-- ===== src/Core/Exceptions.antt =====
-- apps/api-gateway/src/core/filters/all-exceptions.filter.ts: from an exception to a response.
pub mod Status
use ragpolyglot_demo.Base.{
  false, ℕ, ◌+◌, ◌*◌, ◌/◌, Bool, ◌&&◌, Option, none, some, [], ◌∷◌, ◌++◌, ltb, leb, if◌then◌else◌,
  or_else,
}
use ragpolyglot_demo.Base.Text.{Text, codes, str_eq, is_empty}
use ragpolyglot_demo.Shared.Json.{Json}

-- `getResponse()` of an `HttpException`
pub data Raw : Type 0 where
  text : Text → Raw
  json : Json → Raw

-- `err.response.data` of an error of the HTTP client
pub record UpstreamData : Type 0 where
  pub detail : Option Text
  pub message : Option Text
  pub error : Option Text

-- An error of the HTTP client, with the status and the data of its response, if there was one.
pub record AxiosError : Type 0 where
  pub status : Option ℕ
  pub payload : Option UpstreamData
  pub code : Option Text
  pub message : Text

pub data Exception : Type 0 where
  http : ℕ → Raw → Exception
  multer : Text → Text → Exception
  axios : AxiosError → Exception
  other : Exception

-- The JSON of a response.
pub data ResponseBody : Type 0 where
  message_body : ℕ → Text → ResponseBody
  raw_body : Json → ResponseBody

pub record ErrorResponse : Type 0 where
  pub status : ℕ
  pub body : ResponseBody

abbrev body_of : ℕ → Raw → ResponseBody
body_of status (text message) = message_body status message
body_of status (json value) = raw_body value

abbrev pub send : ℕ → Raw → ErrorResponse
send status raw = record { status = status; body = body_of status raw }

-- `a || b` for a text that can be missing
abbrev or_text : Option Text → Text → Text
or_text none t = t
or_text (some []) t = t
or_text (some (c ∷ s)) _ = c ∷ s

abbrev pub code_is : Option Text → Text → Bool
code_is none name = false
code_is (some code) name = str_eq code name

abbrev describe_axios_error : AxiosError → Text
describe_axios_error err =
    if code_is err.code (codes "ECONNREFUSED")
    then codes "Upstream service is unreachable"
    else if code_is err.code (codes "ENOTFOUND")
    then codes "Upstream service host not found"
    else or_text (some err.message) (codes "Upstream request failed")

abbrev message_of : Option UpstreamData → Text → Text
message_of none described = described
message_of (some d) described = or_text d.detail (or_text d.message (or_text d.error described))

-- The status that is passed on.
abbrev pub passed_status : ℕ → ℕ
passed_status upstream_status =
    if leb 400 upstream_status && ltb upstream_status 500 then upstream_status else 502

abbrev catch_axios : AxiosError → ErrorResponse
catch_axios err =
    if code_is err.code (codes "ECONNABORTED")
    then send 504 (text (codes "Request timed out"))
    else send (passed_status (or_else err.status 502))
        (text (message_of err.payload (describe_axios_error err)))

-- `Math.round(bytes / (1024 * 1024))`
abbrev rounded_mb : ℕ → ℕ
rounded_mb bytes = (bytes + 524288) / 1048576

-- `print` is how a number stands in a text.
module _ (print : ℕ → Text) (max_upload_bytes : ℕ) where
  abbrev catch_multer : Text → Text → ErrorResponse
  catch_multer code message =
      if str_eq code (codes "LIMIT_FILE_SIZE")
      then send 413 (
          text (
            codes "File exceeds the "
            ++ (print (rounded_mb max_upload_bytes) ++ codes " MB upload limit")))
      else send 400 (text message)

  -- `AllExceptionsFilter.catch`
  unfoldable pub catch_exception : Exception → ErrorResponse
  catch_exception (http status raw) = send status raw
  catch_exception (multer code message) = catch_multer code message
  catch_exception (axios err) = catch_axios err
  catch_exception other = send 500 (text (codes "Internal server error"))
