-- ===== src/Tests/Client.antt =====
-- What the browser makes of an error of the gateway.
use ragpolyglot_demo.Base.{arith, ℕ, ◌≡◌, refl, some, [], inl}
use ragpolyglot_demo.Base.Text.{Text, codes, str_eq, trim}
use ragpolyglot_demo.Shared.Number.{whole}
use ragpolyglot_demo.Shared.Json.{Fields, Json, Js, property}
use ragpolyglot_demo.Core.Exceptions.{Raw, Exception, catch_exception}
use ragpolyglot_demo.View.Client.{ClientError, handle_response}
use ragpolyglot_demo.View.Client.Errors.{received, handle_response-catch_exception}
use ragpolyglot_demo.Tests.Shared.{ascii_js}

-- `new NotFoundException('Document not found')`, with the object that Nest makes for it
abbrev not_found : Json
not_found = Json.object (
    Fields.field (codes "message") (Json.string (codes "Document not found")) (
      Fields.field (codes "error") (Json.string (codes "Not Found"))
        (Fields.field (codes "statusCode") (Json.number (whole 404)) Fields.end)))

-- A body as it would be written, and a parser that knows it.
abbrev printed : Json → Text
printed value =
    codes "{\"message\":\"Document not found\",\"error\":\"Not Found\",\"statusCode\":404}"

abbrev reading_js : Js
reading_js = record {
  lower = ascii_js.lower;
  to_string = ascii_js.to_string;
  parse = λ s. some not_found;
}

abbrev print_none : ℕ → Text
print_none n = []

abbrev missing : Exception
missing = Exception.http 404 (Raw.json not_found)

handle_response-catch_exception_example :
    handle_response reading_js
      (received reading_js printed (catch_exception print_none 1048576 missing))
    ≡ inl (
        ClientError.api (record {
          status = (catch_exception print_none 1048576 missing).status;
          message = codes "Document not found";
        }))
unfolding catch_exception str_eq property trim
handle_response-catch_exception_example =
    handle_response-catch_exception reading_js printed print_none 1048576 missing
      (codes "Document not found") refl (omega arith, omega arith) refl refl
