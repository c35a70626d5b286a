-- ===== src/Core/Exceptions/Status.antt =====
-- The statuses of the responses.
use ragpolyglot_demo.Base.{ℕ, ◌≤◌, ◌<◌, ◌≡◌, arith}
use ragpolyglot_demo.Base.Text.{Text}
use ragpolyglot_demo.Core.Exceptions.{Exception, ResponseBody, catch_exception}

-- The status that an `HttpException` carries is an error's.
abbrev pub IsError : Exception → Type 0
IsError (Exception.http status raw) = (400 ≤ status) × (status < 600)
IsError _ = Unit

-- The status that stands in the body, if one does, is the response's.
abbrev pub Agrees : ℕ → ResponseBody → Type 0
Agrees status (ResponseBody.message_body s message) = s ≡ status
Agrees status (ResponseBody.raw_body value) = Unit

-- A response to an exception has the status of an error, from 400 to 599, if an `HttpException`
-- has one, and a body with a message says the same status.
pub catch_exception-bounds :
    (print : ℕ → Text) (max_upload_bytes : ℕ) (e : Exception)
    → IsError e
    → (400 ≤ (catch_exception print max_upload_bytes e).status)
      × ((catch_exception print max_upload_bytes e).status < 600)
      × Agrees
          (catch_exception print max_upload_bytes e).status
          (catch_exception print max_upload_bytes e).body
unfolding catch_exception
catch_exception-bounds print max_upload_bytes e h = ground (arith, h)
