-- ===== src/View/Client/Errors.antt =====
-- From an exception in the gateway to the error that the browser shows.
use ragpolyglot_demo.Base.{none, Option, ℕ, ◌≤◌, ◌≡◌, ap, ◌∙◌, false, some, inl, arith}
use ragpolyglot_demo.Base.Text.{Text, codes, str_eq, trim, is_empty}
use ragpolyglot_demo.Shared.Number.{whole}
use ragpolyglot_demo.Shared.Json.{Json, Js, Fields, property}
use ragpolyglot_demo.Core.Exceptions.{Exception, ErrorResponse, ResponseBody, catch_exception}
use ragpolyglot_demo.Core.Exceptions.Status.{IsError, catch_exception-bounds}
use ragpolyglot_demo.View.Client.{
  ClientError, FetchResponse, ok, or_next, message_text, extract_error_message, handle_response,
}

-- The object that is sent, `{ statusCode, message }` or the exception's own.
abbrev pub json_body : ResponseBody → Json
json_body (ResponseBody.message_body status message) = Json.object (
    Fields.field (codes "statusCode") (Json.number (whole status))
      (Fields.field (codes "message") (Json.string message) Fields.end))
json_body (ResponseBody.raw_body value) = value

abbrev string_in : Option Json → Option Text
string_in (some (Json.string s)) = some s
string_in _ = none

-- The message of a body: that of the filter itself, or the string under `message` in the object of
-- an exception, as Nest's own exceptions have it.
abbrev pub message_of_body : ResponseBody → Option Text
message_of_body (ResponseBody.message_body status message) = some message
message_of_body (ResponseBody.raw_body (Json.object row)) =
    string_in (property (codes "message") row)
message_of_body (ResponseBody.raw_body value) = none

module _ (js : Js) (stringify : Json → Text) where
  -- `response.status(status).json(body)`, as the browser receives it
  abbrev pub received : ErrorResponse → FetchResponse
  received r = record { status = r.status; text = stringify (json_body r.body) }

  message_text-string :
      (o rest : Option Json) (message fallback : Text)
      → string_in o ≡ some message
      → is_empty (trim message) ≡ false
      → message_text js (or_next o rest) fallback ≡ message
  message_text-string o rest message fallback e h = ground (arith, e, h)

  extract-message :
      (body : ResponseBody) (message fallback : Text)
      → message_of_body body ≡ some message
      → is_empty (trim message) ≡ false
      → extract_error_message js (some (json_body body)) fallback ≡ message
  unfolding extract_error_message property str_eq
  extract-message (ResponseBody.message_body status m) message fallback e h = ground (arith, e, h)
  extract-message (ResponseBody.raw_body (Json.object row)) message fallback e h =
      message_text-string _ _ message fallback e h
  extract-message (ResponseBody.raw_body Json.null) message fallback e h = cc
  extract-message (ResponseBody.raw_body (Json.boolean x)) message fallback e h = cc
  extract-message (ResponseBody.raw_body (Json.number x)) message fallback e h = cc
  extract-message (ResponseBody.raw_body (Json.string x)) message fallback e h = cc
  extract-message (ResponseBody.raw_body (Json.array x)) message fallback e h = cc

  ok-error : (status : ℕ) → 400 ≤ status → ok js status ≡ false
  ok-error status bound = ground (arith, bound)

  read_message :
      (r : ErrorResponse) (message fallback : Text)
      → js.parse (stringify (json_body r.body)) ≡ some (json_body r.body)
      → message_of_body r.body ≡ some message
      → is_empty (trim message) ≡ false
      → extract_error_message js (js.parse (stringify (json_body r.body))) fallback ≡ message
  read_message r message fallback round body h =
      ap (λ v. extract_error_message js v fallback) round
      ∙ extract-message r.body message fallback body h

  shown_error :
      (r : ErrorResponse) (message : Text)
      → js.parse (stringify (json_body r.body)) ≡ some (json_body r.body)
      → 400 ≤ r.status
      → message_of_body r.body ≡ some message
      → is_empty (trim message) ≡ false
      → handle_response js (received r)
        ≡ inl (ClientError.api (record { status = r.status; message = message }))
  unfolding handle_response
  shown_error r message round bound body h = rw (ok-error r.status bound) (
      ap (λ m. inl (ClientError.api (record { status = r.status; message = m })))
        (read_message r message _ round body h))

  -- An exception in the gateway whose response has a message that is not blank, be it made by the
  -- filter or the string `message` of the object that an `HttpException` carries, reaches the
  -- browser as an `ApiError` with the status of the response and that very message, if the status of
  -- an `HttpException` is an error's and the body that is written as JSON can be read back.
  pub handle_response-catch_exception :
      (print : ℕ → Text) (max_upload_bytes : ℕ) (e : Exception) (message : Text)
      → js.parse (stringify (json_body (catch_exception print max_upload_bytes e).body))
        ≡ some (json_body (catch_exception print max_upload_bytes e).body)
      → IsError e
      → message_of_body (catch_exception print max_upload_bytes e).body ≡ some message
      → is_empty (trim message) ≡ false
      → handle_response js (received (catch_exception print max_upload_bytes e))
        ≡ inl (
            ClientError.api (record {
              status = (catch_exception print max_upload_bytes e).status;
              message = message;
            }))
  handle_response-catch_exception print max_upload_bytes e message round h body filled =
      shown_error (catch_exception print max_upload_bytes e) message round
        (catch_exception-bounds print max_upload_bytes e h).0 body filled
