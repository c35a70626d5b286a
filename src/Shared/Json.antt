-- ===== src/Shared/Json.antt =====
-- Values of the type `unknown`: what `JSON.parse` returns and what a message or a row holds. A
-- property that is missing, or `undefined`, is read as `none`.
use ragpolyglot_demo.Base.{Bool, Option, none, some, List, [], ◌∷◌, if◌then◌else◌}
use ragpolyglot_demo.Base.Text.{Text, str_eq}
use ragpolyglot_demo.Shared.Number.{Number}

mutual
  pub data Json : Type 0 where
    null : Json
    boolean : Bool → Json
    number : Number → Json
    string : Text → Json
    array : Items → Json
    object : Fields → Json

  pub data Items : Type 0 where
    nil : Items
    cons : Json → Items → Items

  pub data Fields : Type 0 where
    end : Fields
    field : Text → Json → Fields → Fields

-- `row[name]` among an object's own properties
unfoldable pub property : Text → Fields → Option Json
property name end = none
property name (field key value rest) = if str_eq key name then some value else property name rest

abbrev pub items : Items → List Json
items nil = []
items (cons v vs) = v ∷ items vs

-- `typeof value === 'string'`, with the narrowed value
abbrev pub as_string : Option Json → Option Text
as_string (some (string s)) = some s
as_string _ = none

-- `typeof value === 'number'`, with the narrowed value
abbrev pub as_number : Option Json → Option Number
as_number (some (number n)) = some n
as_number _ = none

-- `value && typeof value === 'object'`, with the properties to read; the names that are read are
-- no properties of an array.
abbrev pub as_object : Json → Option Fields
as_object (object fs) = some fs
as_object (array _) = some end
as_object _ = none

-- `Array.isArray(value)`, with the elements
abbrev pub as_array : Option Json → Option (List Json)
as_array (some (array vs)) = some (items vs)
as_array _ = none

-- What the program takes from the language where a model would need Unicode tables, the printing
-- of doubles or a parser of JSON.
pub record Js : Type 0 where
  -- `s.toLowerCase()`
  pub lower : Text → Text
  -- `String(value)`
  pub to_string : Json → Text
  -- `JSON.parse(s)`, `none` where it throws
  pub parse : Text → Option Json
