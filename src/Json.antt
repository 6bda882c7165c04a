-- ===== src/Json.antt =====
-- A decoded JSON or YAML value, as encoding/json and yaml.v3 hand it out in an `any`.
use design_tokens_language_s.Prelude.{Bool, Option, none, some, [], if◌then◌else◌}
use design_tokens_language_s.GoString.{Bytes, str_eq}

mutual
  pub data Json : Type 0 where
    null : Json
    boolean : Bool → Json
    -- the number as it is written
    number : Bytes → Json
    text : Bytes → Json
    array : Items → Json
    object : Fields → Json

  pub data Items : Type 0 where
    end_of_array : Items
    item : Json → Items → Items

  pub data Fields : Type 0 where
    end_of_object : Fields
    field : Bytes → Json → Fields → Fields

-- m[key] on a decoded object: `none` stands for a missing key
unfoldable pub value_at : Bytes → Fields → Option Json
value_at key end_of_object = none
value_at key (field k v fields) =
    let rest = value_at key fields in if str_eq k key then some v else rest

-- v.(string)
abbrev pub as_text : Json → Option Bytes
as_text (text s) = some s
as_text _ = none

-- s, _ := v.(string)
unfoldable pub text_or_empty : Json → Bytes
text_or_empty (text s) = s
text_or_empty _ = []
