-- ===== src/Tests/Shared.antt =====
-- The runtime of the tests, and the title of a conversation.
use ragpolyglot_demo.Base.{ℕ, ◌+◌, ◌<◌, ◌≤◌, ◌&&◌, map, none, [], leb, if◌then◌else◌, length, All}
use ragpolyglot_demo.Base.Text.{Text, codes}
use ragpolyglot_demo.Shared.Json.{Json, Js}
use ragpolyglot_demo.Shared.Title.{conversation_title_from_query}
use ragpolyglot_demo.Shared.Title.Laws.{IsPlain, conversation_title_shape}

abbrev ascii_lower : ℕ → ℕ
ascii_lower c = if leb 65 c && leb c 90 then c + 32 else c

abbrev string_of : Json → Text
string_of (Json.string s) = s
string_of _ = []

-- `toLowerCase` on ASCII, `String` on strings, and a parser that rejects everything.
abbrev pub ascii_js : Js
ascii_js = record { lower = map ascii_lower; to_string = string_of; parse = λ s. none }

conversation_title_shape_example :
    (0 < length (conversation_title_from_query (codes "  What   is a\nRAG? ")))
    × (length (conversation_title_from_query (codes "  What   is a\nRAG? ")) ≤ 60)
    × All IsPlain (conversation_title_from_query (codes "  What   is a\nRAG? "))
conversation_title_shape_example = conversation_title_shape (codes "  What   is a\nRAG? ")
