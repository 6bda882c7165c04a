-- ===== src/CssValues.antt =====
-- lsp/helpers/css/helpers.go: token values as CSS text. The functions of packages strings, fmt and
-- regexp that go beyond single bytes are parameters.
pub mod Colors
pub mod Formatted
use design_tokens_language_s.Prelude.{
  Bool, true, false, ◌&&◌, ◌||◌, not, ℕ, ◌≤◌, List, [], ◌∷◌, leb, Option, none, some, if◌then◌else◌,
}
use design_tokens_language_s.Outcome.{Outcome, ok, err}
use design_tokens_language_s.CssValues.Colors.{css_named_colors}
use design_tokens_language_s.GoString.{
  Bytes, ascii, str_eq, has_prefix, has_suffix, contains, remove_byte,
}
use design_tokens_language_s.Tokens.{Token}

-- collections.Set.Has, on the set of the given values
unfoldable pub has : List Bytes → Bytes → Bool
has [] v = false
has (x ∷ xs) v = str_eq x v || has xs v

abbrev pub safe_css_types : List Bytes
safe_css_types =
    ascii "color" ∷ ascii "dimension" ∷ ascii "number" ∷ ascii "duration" ∷ ascii "cubicbezier" ∷ []

abbrev pub font_weight_keywords : List Bytes
font_weight_keywords =
    ascii "normal"
    ∷ ascii "bold"
    ∷ ascii "bolder"
    ∷ ascii "lighter"
    ∷ ascii "inherit"
    ∷ ascii "initial"
    ∷ ascii "unset"
    ∷ []

abbrev pub generic_font_families : List Bytes
generic_font_families =
    ascii "serif"
    ∷ ascii "sans-serif"
    ∷ ascii "monospace"
    ∷ ascii "cursive"
    ∷ ascii "fantasy"
    ∷ ascii "system-ui"
    ∷ []

-- strings.ContainsAny(s, chars), for ASCII chars
unfoldable pub contains_any : Bytes → Bytes → Bool
contains_any [] chars = false
contains_any (c ∷ s) chars = contains chars (c ∷ []) || contains_any s chars

pub data FormatError : Type 0 where
  invalid_font_weight failed_to_parse font_weight_out_of_range special_characters unknown_format
        not_a_fallback_type :
      Bytes → FormatError

-- What the code calls of packages strings, fmt and regexp.
pub record Text : Type 0 where
  pub to_lower : Bytes → Bytes
  pub trim_space : Bytes → Bytes
  -- fmt.Sprintf("%q", s)
  pub quoted : Bytes → Bytes
  -- fmt.Sscanf(s, "%d", &n): the number, if it could be read
  pub scanned : Bytes → Option ℕ
  pub css_number_pattern : Bytes → Bool
  pub css_dimension_pattern : Bytes → Bool
  pub css_identifier_pattern : Bytes → Bool
  pub font_weight_numeric_pattern : Bytes → Bool

abbrev pub blanks_and_quotes : Bytes
blanks_and_quotes = b' ' ∷ 9 ∷ 10 ∷ 34 ∷ 39 ∷ []

-- the characters that FormatTokenValueForCSS does not pass in an untyped value
abbrev pub special : Bytes
special = b' ' ∷ 9 ∷ 10 ∷ 34 ∷ 39 ∷ ascii "()[]{}"

-- IsCSSValueSemanticallyEquivalent's normalize, before ToLower
unfoldable pub without_blanks : Bytes → Bytes
without_blanks s = remove_byte 10 (remove_byte 9 (remove_byte 32 s))

-- IsCSSValueSemanticallyEquivalent
unfoldable pub is_css_value_semantically_equivalent : (Bytes → Bytes) → Bytes → Bytes → Bool
is_css_value_semantically_equivalent to_lower a b =
    str_eq (to_lower (without_blanks a)) (to_lower (without_blanks b))

module _ (text : Text) where
  -- formatFontWeightForCSS
  unfoldable pub format_font_weight_for_css : Bytes → Outcome FormatError Bytes
  format_font_weight_for_css value =
      if has font_weight_keywords (text.to_lower value)
      then ok value
      else if not (text.font_weight_numeric_pattern value)
      then err (invalid_font_weight value)
      else elim (text.scanned value) [
        | none ↦ err (failed_to_parse value)
        | some n ↦
            if not (leb 1 n) || not (leb n 1000)
            then err (font_weight_out_of_range value)
            else ok value
      ]

  -- isNamedColor
  unfoldable pub is_named_color : Bytes → Bool
  is_named_color value = has css_named_colors (text.to_lower value)

  -- formatUntypedTokenForCSS
  unfoldable pub format_untyped_token_for_css : Bytes → Outcome FormatError Bytes
  format_untyped_token_for_css value =
      if is_named_color value
      then ok value
      else if has_prefix value (ascii "#")
      then ok value
      else if contains value (ascii "(") && contains value (ascii ")")
      then ok value
      else if text.css_dimension_pattern value
      then ok value
      else if text.css_number_pattern value
      then ok value
      else if contains_any value special
      then err (special_characters value)
      else if text.css_identifier_pattern value
      then ok value
      else err (unknown_format value)

  -- strings.HasPrefix(value, q) && strings.HasSuffix(value, q)
  abbrev pub is_quoted_by : ℕ → Bytes → Bool
  is_quoted_by q value = has_prefix value (q ∷ []) && has_suffix value (q ∷ [])

  -- FormatFontFamilyValue on the trimmed value; the branches on quotes in a list give the same
  unfoldable pub format_trimmed : Bytes → Outcome FormatError Bytes
  format_trimmed value =
      if is_quoted_by 34 value || is_quoted_by 39 value
      then ok value
      else if has generic_font_families (text.to_lower value)
      then ok value
      else if contains value (ascii ",")
      then (if contains value (34 ∷ []) || contains value (39 ∷ []) then ok value else ok value)
      else if contains_any value blanks_and_quotes
      then ok (text.quoted value)
      else ok value

  -- FormatFontFamilyValue
  unfoldable pub format_font_family_value : Bytes → Outcome FormatError Bytes
  unfolding format_trimmed
  format_font_family_value value = format_trimmed (text.trim_space value)

  -- FormatTokenValueForCSS
  unfoldable pub format_token_value_for_css : Token → Outcome FormatError Bytes
  format_token_value_for_css token =
      let token_type = text.to_lower token.type in
      if str_eq token_type (ascii "fontweight")
      then format_font_weight_for_css token.value
      else if str_eq token_type (ascii "fontfamily")
      then format_font_family_value token.value
      else if str_eq token_type []
      then format_untyped_token_for_css token.value
      else if has safe_css_types token_type
      then ok token.value
      else err (not_a_fallback_type token_type)
