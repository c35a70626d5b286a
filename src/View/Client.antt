-- ===== src/View/Client.antt =====
-- apps/react-frontend/src/api/client.ts: what the browser makes of a response of the gateway.
pub mod Errors
use ragpolyglot_demo.Base.{
  ℕ, Bool, ◌&&◌, not, Option, none, some, List, [], ◌∷◌, ◌++◌, ◌==◌, ◌⊎◌, inl, inr, map, ltb, leb,
  if◌then◌else◌,
}
use ragpolyglot_demo.Base.Text.{Text, codes, trim, is_empty}
use ragpolyglot_demo.Shared.Number.{whole}
use ragpolyglot_demo.Shared.Json.{Json, Js, Fields, property, as_object, items}
use ragpolyglot_demo.Config.EnvFile.{join}

pub record ApiError : Type 0 where
  pub status : ℕ
  pub message : Text

-- What a call throws: an `ApiError`, or the parser's exception.
pub data ClientError : Type 0 where
  api : ApiError → ClientError
  syntax_error : ClientError

-- A response with its text.
pub record FetchResponse : Type 0 where
  pub status : ℕ
  pub text : Text

-- `a ?? b`
abbrev pub or_next : Option Json → Option Json → Option Json
or_next none b = b
or_next (some Json.null) b = b
or_next (some v) b = some v

abbrev unless_blank : Text → Text → Text
unless_blank message fallback = if is_empty (trim message) then fallback else message

module _ (js : Js) where
  abbrev joined_strings : List Json → Text → Text
  joined_strings [] fallback = fallback
  joined_strings (v ∷ vs) fallback = join (codes ", ") (map js.to_string (v ∷ vs))

  abbrev pub message_text : Option Json → Text → Text
  message_text (some (Json.string message)) fallback = unless_blank message fallback
  message_text (some (Json.array vs)) fallback = joined_strings (items vs) fallback
  message_text _ fallback = fallback

  abbrev message_in : Option Fields → Text → Text
  message_in none fallback = fallback
  message_in (some row) fallback =
      message_text
        (or_next (property (codes "message") row)
          (or_next (property (codes "error") row) (property (codes "detail") row)))
        fallback

  -- `none` is the body of a response that is no JSON.
  unfoldable pub extract_error_message : Option Json → Text → Text
  extract_error_message none fallback = fallback
  extract_error_message (some (Json.string body)) fallback = unless_blank body fallback
  extract_error_message (some body) fallback = message_in (as_object body) fallback

  -- `Response.ok`
  abbrev pub ok : ℕ → Bool
  ok status = leb 200 status && ltb status 300

  abbrev parsed : Option Json → ClientError ⊎ Option Json
  parsed none = inl ClientError.syntax_error
  parsed (some v) = inr (some v)

  unfoldable pub handle_response : FetchResponse → ClientError ⊎ Option Json
  handle_response res =
      if not (ok res.status)
      then inl (
          ClientError.api (record {
            status = res.status;
            message =
                extract_error_message (js.parse res.text)
                  (codes "Server responded with " ++ js.to_string (Json.number (whole res.status)));
          }))
      else if res.status == 204
      then inr none
      else if is_empty res.text
      then inr none
      else parsed (js.parse res.text)
