-- ===== src/Config/EnvFile.antt =====
-- apps/api-gateway/src/config/env-file.ts: reading and updating the text of a .env file.
pub mod Lines
pub mod Format
pub mod Merge
use ragpolyglot_demo.Base.{
  ℕ, Bool, true, false, ◌&&◌, ◌||◌, not, Option, none, some, List, [], ◌∷◌, ◌++◌, ◌==◌, any,
  if◌then◌else◌, or_else,
}
use ragpolyglot_demo.Base.Text.{Text, codes, str_eq, is_space, trim, is_empty}
use ragpolyglot_demo.Base.Dict.{Dict, lookup, insert, erase}

-- A line that ends in a carriage return, without it.
unfoldable pub drop_cr : Text → Text
drop_cr [] = []
drop_cr (c ∷ s) = let rest = drop_cr s in if is_empty s && c == 13 then [] else c ∷ rest

-- `content.split(/\r?\n/)`, behind the part of the line already read
unfoldable pub lines_from : Text → Text → List Text
lines_from cur [] = cur ∷ []
lines_from cur (c ∷ s) =
    let rest = lines_from (if c == 10 then [] else cur ++ c ∷ []) s in
    if c == 10 then drop_cr cur ∷ rest else rest

abbrev pub lines : Text → List Text
lines content = lines_from [] content

abbrev pub is_first : ℕ → Text → Bool
is_first a [] = false
is_first a (c ∷ s) = c == a

abbrev pub is_last : ℕ → Text → Bool
is_last a [] = false
is_last a (c ∷ []) = c == a
is_last a (c ∷ d ∷ s) = is_last a (d ∷ s)

abbrev pub prefix_with : ℕ → Option (Text × Text) → Option (Text × Text)
prefix_with c none = none
prefix_with c (some (before, after)) = some (c ∷ before, after)

-- The text before the first `=` and behind it.
unfoldable pub split_at_eq : Text → Option (Text × Text)
split_at_eq [] = none
split_at_eq (c ∷ s) =
    let rest = split_at_eq s in if c == 61 then some ([], s) else prefix_with c rest

-- `value.slice(1, -1)`, behind the first unit
unfoldable pub drop_last : Text → Text
drop_last [] = []
drop_last (c ∷ []) = []
drop_last (c ∷ d ∷ s) = c ∷ drop_last (d ∷ s)

abbrev pub tail : Text → Text
tail [] = []
tail (c ∷ s) = s

unfoldable pub strip_quotes : Text → Text
strip_quotes value =
    if (is_first 34 value && is_last 34 value) || (is_first 39 value && is_last 39 value)
    then drop_last (tail value)
    else value

-- The part of a trimmed line before `=` and behind it, unless `=` is missing or comes first.
abbrev pub unless_first : Option (Text × Text) → Option (Text × Text)
unless_first none = none
unless_first (some ([], after)) = none
unless_first (some (c ∷ before, after)) = some (c ∷ before, after)

abbrev pub key_value : Text → Option (Text × Text)
key_value line = if is_empty line || is_first 35 line then none else unless_first (split_at_eq line)

abbrev pub clean : Option (Text × Text) → Option (Text × Text)
clean none = none
clean (some (key, value)) = some (trim key, strip_quotes (trim value))

-- What a line assigns: nothing if it is blank, a comment or has no key.
unfoldable pub assignment : Text → Option (Text × Text)
assignment raw = clean (key_value (trim raw))

abbrev pub set_assigned : Option (Text × Text) → Dict Text → Dict Text
set_assigned none out = out
set_assigned (some (key, value)) out = insert key value out

unfoldable pub assign_all : List Text → Dict Text → Dict Text
assign_all [] out = out
assign_all (raw ∷ rest) out = assign_all rest (set_assigned (assignment raw) out)

unfoldable pub parse_env_assignments : Text → Dict Text
parse_env_assignments content = assign_all (lines content) []

-- `/[\s#"']/`
abbrev pub needs_quotes : Text → Bool
needs_quotes value = any (λ c. is_space c || c == 35 || c == 34 || c == 39) value

-- The two replacements, of `\` by `\\` and of `"` by `\"`
unfoldable pub escape : Text → Text
escape [] = []
escape (c ∷ s) = if c == 92 || c == 34 then 92 ∷ c ∷ escape s else c ∷ escape s

unfoldable pub format_env_value : Text → Text
format_env_value [] = []
format_env_value (c ∷ s) = if needs_quotes (c ∷ s) then 34 ∷ (escape (c ∷ s) ++ 34 ∷ []) else c ∷ s

abbrev pub assignment_line : Text → Text → Text
assignment_line key value = key ++ 61 ∷ format_env_value value

-- One round of the loop of `mergeEnvFile`: the line to put out, and the updates that remain.
abbrev pub replaced : Text → Text → Option Text → Dict Text → Text × Dict Text
replaced raw key none remaining = (raw, remaining)
replaced raw key (some value) remaining = (assignment_line key value, erase key remaining)

abbrev pub merge_at : Text → Option (Text × Text) → Dict Text → Text × Dict Text
merge_at raw none remaining = (raw, remaining)
merge_at raw (some (key, _)) remaining = replaced raw key (lookup key remaining) remaining

unfoldable pub merge_line : Text → Dict Text → Text × Dict Text
merge_line raw remaining = merge_at raw (assignment raw) remaining

-- The loop over the lines.
unfoldable pub merge_lines : List Text → Dict Text → List Text × Dict Text
merge_lines [] remaining = ([], remaining)
merge_lines (raw ∷ rest) remaining =
    let (line, left) = merge_line raw remaining in
    let (out, end) = merge_lines rest left in (line ∷ out, end)

unfoldable pub new_lines : Dict Text → List Text
new_lines [] = []
new_lines ((key, value) ∷ rest) = assignment_line key value ∷ new_lines rest

abbrev pub ends_blank : List Text → Bool
ends_blank [] = true
ends_blank (l ∷ []) = is_empty l
ends_blank (l ∷ k ∷ ls) = ends_blank (k ∷ ls)

-- What is appended for the updates whose key no line had.
abbrev pub appendix : List Text → Dict Text → List Text
appendix out [] = []
appendix out ((key, value) ∷ rest) =
    let added = codes "# Updated via /api/config" ∷ new_lines ((key, value) ∷ rest) in
    if ends_blank out then added else [] ∷ added

-- `out.join(nl)`
unfoldable pub join : Text → List Text → Text
join nl [] = []
join nl (l ∷ []) = l
join nl (l ∷ k ∷ ls) = l ++ (nl ++ join nl (k ∷ ls))

-- `content.includes('\r\n')`
unfoldable pub has_crlf : Text → Bool
has_crlf [] = false
has_crlf (c ∷ s) = (c == 13 && is_first 10 s) || has_crlf s

abbrev pub newline : Text → Text
newline content = if has_crlf content then 13 ∷ 10 ∷ [] else 10 ∷ []

abbrev pub lines_or_none : Text → List Text
lines_or_none [] = []
lines_or_none (c ∷ s) = lines (c ∷ s)

-- Whether `result` ends with the line break of the file.
abbrev pub ends_with_newline : Text → Text → Bool
ends_with_newline nl [] = false
ends_with_newline nl (c ∷ []) = str_eq (c ∷ []) nl
ends_with_newline nl (c ∷ d ∷ s) = str_eq (c ∷ d ∷ s) nl || ends_with_newline nl (d ∷ s)

abbrev pub close : Text → Text → Text → Text
close content nl result =
    if is_last 10 content && not (ends_with_newline nl result) then result ++ nl else result

-- `mergeEnvFile` for updates that are not empty.
abbrev pub merge_updates : Text → Dict Text → Text
merge_updates content updates =
    let nl = newline content in
    let (out, remaining) = merge_lines (lines_or_none content) updates in
    close content nl (join nl (out ++ appendix out remaining))

unfoldable pub merge_env_file : Text → Dict Text → Text
merge_env_file content [] = content
merge_env_file content ((key, value) ∷ rest) = merge_updates content ((key, value) ∷ rest)
