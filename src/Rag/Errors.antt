-- ===== src/Rag/Errors.antt =====
-- The exceptions that the gateway's services throw, and the translation of what goes wrong
-- upstream (rag.service.ts, `fromUpstreamMessage` and `toUpstreamError`).
use ragpolyglot_demo.Base.{ℕ, Option, none, some, if◌then◌else◌}
use ragpolyglot_demo.Base.Text.{Text, codes, str_eq, is_empty}

-- An `HttpException` of the framework: its status and message.
pub record HttpException : Type 0 where
  pub status : ℕ
  pub message : Text

-- Whatever a call throws: an `HttpException`, an `Error` whose name is `AbortError`, or another.
pub data Failure : Type 0 where
  http : HttpException → Failure
  abort_error other_error : Failure

abbrev pub bad_request : Text → HttpException
bad_request message = record { status = 400; message = message }

abbrev pub not_found : Text → HttpException
not_found message = record { status = 404; message = message }

abbrev pub bad_gateway : Text → HttpException
bad_gateway message = record { status = 502; message = message }

abbrev pub service_unavailable : Text → HttpException
service_unavailable message = record { status = 503; message = message }

abbrev pub unavailable : Text
unavailable = codes "Chat service unavailable"

-- `fromUpstreamMessage`; a message that is missing is falsy, as the empty one is.
unfoldable pub from_upstream_message : Option Text → HttpException
from_upstream_message none = bad_gateway unavailable
from_upstream_message (some message) =
    if str_eq message (codes "llm unavailable")
    then bad_gateway
        (codes "The language model is unavailable. Start your LLM service and try again.")
    else if str_eq message (codes "embedding failed")
    then bad_gateway
        (codes "The embedding service is unavailable. Check your embedding model and try again.")
    else bad_gateway (if is_empty message then unavailable else message)

unfoldable pub to_upstream_error : Failure → HttpException
to_upstream_error (http e) = e
to_upstream_error abort_error = bad_gateway (codes "Chat request timed out")
to_upstream_error other_error = bad_gateway unavailable
