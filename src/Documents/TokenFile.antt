-- ===== src/Documents/TokenFile.antt =====
-- internal/documents/token_file_check.go: is a document a token file? The YAML parser's result, a map or
-- an error, is a parameter.
pub mod Patterns
use design_tokens_language_s.Prelude.{
  ℕ, ◌+◌, Bool, true, false, not, ◌&&◌, ◌||◌, Option, none, some, ◌==◌, ltb, if◌then◌else◌,
}
use design_tokens_language_s.GoString.{Bytes, ascii, has_prefix, has_suffix}
use design_tokens_language_s.Json.{
  Json, null, boolean, number, text, array, object, Fields, end_of_object, field, value_at, as_text,
}

-- dtcgSchemaURLPrefix
abbrev pub dtcg_schema_url_prefix : Bytes
dtcg_schema_url_prefix = ascii "https://www.designtokens.org/schemas/"

abbrev pub present {ℓ} : {A : Type ℓ} → Option A → Bool
present none = false
present (some a) = true

-- one level of hasDTCGPatterns, given what the loop over the nested objects finds
unfoldable pub level : Fields → ℕ → Bool → Bool
level fields depth nested =
    if ltb 10 depth
    then false
    else if present (value_at (ascii "$value") fields)
    then true
    else if present (value_at (ascii "$type") fields)
    then true
    else nested

-- depth == 0 && strings.HasPrefix(key, "$")
unfoldable pub is_metadata : Bytes → ℕ → Bool
is_metadata key depth = depth == 0 && has_prefix key (ascii "$")

unfoldable mutual
  -- the loop over the map
  pub any_nested : Fields → ℕ → Bool
  any_nested end_of_object depth = false
  any_nested (field key value fields) depth =
      let rest = any_nested fields depth in
      let inside = nested_patterns value depth in
      if is_metadata key depth then rest else inside || rest

  -- value.(map[string]any), and the recursive call, one level deeper
  pub nested_patterns : Json → ℕ → Bool
  nested_patterns (object nested) depth = level nested (depth + 1) (any_nested nested (depth + 1))
  nested_patterns _ depth = false

-- hasDTCGPatterns
unfoldable pub has_dtcg_patterns : Fields → ℕ → Bool
has_dtcg_patterns fields depth = level fields depth (any_nested fields depth)

module _ (unmarshal : Bytes → Option Fields) where
  -- IsDesignTokensSchema
  unfoldable pub is_design_tokens_schema : Bytes → Bool
  is_design_tokens_schema content = elim (unmarshal content) [
    | none ↦ false
    | some doc ↦ elim (value_at (ascii "$schema") doc) [
      | none ↦ false
      | some value ↦ elim (as_text value) [
        | none ↦ false
        | some url ↦
            if not (has_prefix url dtcg_schema_url_prefix)
            then false
            else if not (has_suffix url (ascii ".json"))
            then false
            else true
      ]
    ]
  ]

  -- LooksLikeDTCGContent
  unfoldable pub looks_like_dtcg_content : Bytes → Bool
  looks_like_dtcg_content content = elim (unmarshal content) [
    | none ↦ false
    | some doc ↦ has_dtcg_patterns doc 0
  ]
