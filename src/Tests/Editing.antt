-- ===== src/Tests/Editing.antt =====
-- References, code actions, hovers, token files and package paths on short inputs.
use design_tokens_language_s.Prelude.{
  ℕ, ◌≡◌, ◌↔◌, refl, true, false, none, some, List, [], ◌∷◌, ◌++◌, All, arith,
}
use mathlib.Core.List.{cons-ne-nil}
use design_tokens_language_s.Outcome.{ok}
use design_tokens_language_s.GoString.{
  Bytes, ascii, split, index, has_prefix, has_suffix, str_eq, contains,
}
use design_tokens_language_s.Json.{text, object, Fields, field, end_of_object}
use design_tokens_language_s.Utf8.{decode_rune, rune_len}
use design_tokens_language_s.Position.{byte_offset_to_utf16, byte_round}
use design_tokens_language_s.Documents.Change.{Position, Range}
use design_tokens_language_s.Documents.TokenFile.{has_dtcg_patterns}
use design_tokens_language_s.Documents.TokenFile.Patterns.{has_dtcg_patterns_iff, IsMarked}
use design_tokens_language_s.Paths.{FilePath}
use design_tokens_language_s.Paths.Npm.{
  FileSystem, there, cut, is_inside, resolve_package_subpath, direct_file, exists, resolve_npm_path,
  package_parts, resolve_in_package, match_export_pattern, match_parts, replace_star, slash,
}
use design_tokens_language_s.Paths.Npm.Exports.{match_export_pattern-expands}
use design_tokens_language_s.Schema.{draft}
use design_tokens_language_s.Tokens.{Token}
use design_tokens_language_s.CssValues.{Text}
use design_tokens_language_s.Features.{VarCall}
use design_tokens_language_s.Features.References.{
  newline, line_range, search_lines, search, exceeds, find_substring_ranges,
}
use design_tokens_language_s.Features.References.Complete.{Covered, find_substring_ranges-Covered}
use design_tokens_language_s.Features.References.Ranges.{FoundAmong, find_substring_ranges_lem}
use design_tokens_language_s.Features.Hover.{
  calculate_range_size, is_position_in_range, innermost, is_smaller, minus_uint32,
  find_innermost_var_call,
}
use design_tokens_language_s.Features.Hover.Innermost.{Innermost, find_innermost_var_call_lem}
use design_tokens_language_s.Features.CodeActions.{all_actions}
use design_tokens_language_s.Features.CodeActions.InRange.{OnCalls, Meets, all_actions-OnCalls}

abbrev content : Bytes
content = ascii "var(--a) var(--a)"

find_two :
    find_substring_ranges content (ascii "--a") ≡ some (line_range 0 4 7 ∷ line_range 0 13 16 ∷ [])
unfolding find_substring_ranges search_lines split search index exceeds has_prefix
find_two = refl

find_substring_ranges_lem_example :
    (rs : List Range) × (find_substring_ranges content (ascii "--a") ≡ some rs)
    × All (FoundAmong (ascii "--a") 0 (split newline content)) rs
find_substring_ranges_lem_example =
    find_substring_ranges_lem content (ascii "--a") (cons-ne-nil _ _)

-- Behind a letter of two bytes and one code unit, the column that is found counts bytes.
abbrev accented : Bytes
accented = 0xC3 ∷ 0xA9 ∷ ascii "--a"

accented_run :
    (find_substring_ranges accented (ascii "--a") ≡ some (line_range 0 2 5 ∷ []))
    × (byte_offset_to_utf16 accented 2 ≡ 1)
unfolding find_substring_ranges search_lines split search index exceeds has_prefix
    byte_offset_to_utf16 byte_round decode_rune rune_len
accented_run = (refl, refl)

find_substring_ranges-Covered_example :
    (rs : List Range) × (find_substring_ranges content (ascii "--a") ≡ some rs) × Covered 0 13 rs
unfolding split
find_substring_ranges-Covered_example =
    find_substring_ranges-Covered content (ascii "--a") content 0 13 (cons-ne-nil _ _) refl
      (refl, omega arith) (omega arith) (omega arith)

abbrev position_at : ℕ → ℕ → Position
position_at line character = record { line = line; character = character }

abbrev range_at : ℕ → ℕ → ℕ → ℕ → Range
range_at line character stop_line stop_character = record {
  start = position_at line character;
  stop = position_at stop_line stop_character;
}

abbrev call_at : Range → VarCall
call_at r = record { fallback = none; token_name = ascii "--a"; range = r }

-- The inner call of these two ends before the column it starts at, so that its size wraps around: the
-- outer call is found.
abbrev nested : List VarCall
nested = call_at (range_at 0 10 1 30) ∷ call_at (range_at 0 20 1 5) ∷ []

wrapped_size :
    find_innermost_var_call (position_at 1 2) nested ≡ some (call_at (range_at 0 10 1 30))
unfolding find_innermost_var_call is_position_in_range calculate_range_size innermost is_smaller
    minus_uint32
wrapped_size = refl

find_innermost_var_call_lem_example :
    Innermost
      (λ (v : VarCall). v.range)
      (position_at 1 2)
      nested
      none
      (find_innermost_var_call (position_at 1 2) nested)
find_innermost_var_call_lem_example = find_innermost_var_call_lem (position_at 1 2) nested

abbrev exports : Bytes
exports = ascii "./tokens/*.json"

wildcard : match_export_pattern exports (ascii "./tokens/color.json") ≡ some (ascii "color")
unfolding match_export_pattern match_parts contains has_prefix has_suffix split str_eq
wildcard = refl

match_export_pattern-expands_example :
    replace_star exports (ascii "color") ≡ ascii "./tokens/color.json"
match_export_pattern-expands_example =
    match_export_pattern-expands exports (ascii "./tokens/color.json") (ascii "color") wildcard

abbrev fields_of_token : Fields
fields_of_token =
    field (ascii "color") (object (field (ascii "$value") (text (ascii "red")) end_of_object))
      end_of_object

has_dtcg_patterns_iff_example :
    (has_dtcg_patterns fields_of_token 0 ≡ true) ↔ IsMarked 0 fields_of_token
has_dtcg_patterns_iff_example = has_dtcg_patterns_iff fields_of_token 0

abbrev files : FilePath
files = record {
  ext = λ p. [];
  clean = λ p. p;
  is_abs = λ p. false;
  join = λ a b. a ++ slash ∷ b;
  to_slash = λ p. p;
  from_slash = λ p. p;
}

abbrev system : FileSystem
system = record { user_home_dir = none; stat = λ p. there; package_json = λ p. none }

abbrev package_path : Bytes
package_path = ascii "ds/t.json"

abbrev resolved_path : Bytes
resolved_path = ascii "/r/node_modules/ds/t.json"

resolves : resolve_npm_path files system package_path (ascii "/r") ≡ ok resolved_path
unfolding resolve_npm_path str_eq has_prefix package_parts cut contains is_inside resolve_in_package
    resolve_package_subpath direct_file exists
resolves = refl

abbrev text_library : Text
text_library = record {
  to_lower = λ s. s;
  trim_space = λ s. s;
  quoted = λ s. s;
  scanned = λ s. none;
  css_number_pattern = λ s. true;
  css_dimension_pattern = λ s. true;
  css_identifier_pattern = λ s. true;
  font_weight_numeric_pattern = λ s. true;
}

abbrev token : Token
token = record {
  name = ascii "a";
  value = ascii "red";
  type = ascii "color";
  path = ascii "a" ∷ [];
  file_path = [];
  definition_uri = [];
  line = 0;
  character = 0;
  deprecated = true;
  deprecation_message = ascii "Use b instead";
  schema_version = draft;
}

all_actions-OnCalls_example :
    All
      (OnCalls (ascii "file:///a.css") (Meets (range_at 0 0 2 0) nested))
      (all_actions text_library
        (λ name. some token)
        (ascii "file:///a.css")
        nested
        (range_at 0 0 2 0)
        []).0
all_actions-OnCalls_example =
    all_actions-OnCalls text_library (λ name. some token) (ascii "file:///a.css") (range_at 0 0 2 0)
      [] nested
