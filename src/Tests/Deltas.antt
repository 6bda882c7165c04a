-- ===== src/Tests/Deltas.antt =====
-- Semantic tokens: encoding and deltas at concrete data.
use design_tokens_language_s.Prelude.{
  Option, none, false, ℕ, ◌≡◌, ◌↔◌, refl, true, some, List, [], ◌∷◌, arith,
}
use design_tokens_language_s.Ints.{pos, ◌-ℤ◌}
use design_tokens_language_s.GoString.{Bytes, ascii, split}
use design_tokens_language_s.Schema.{draft}
use design_tokens_language_s.Tokens.{Token}
use design_tokens_language_s.Documents.Document.{Document}
use design_tokens_language_s.SemanticTokens.Extract.{
  Match, schema_aware_tokens, lines_tokens, line_tokens, detect_schema_version,
  curly_brace_references, part_tokens, token_at, type_variable, type_property,
}
use design_tokens_language_s.Position.{byte_offset_to_utf16, byte_round, string_length_utf16}
use design_tokens_language_s.Utf8.{decode_rune, rune_len, runes, runes_within}
use design_tokens_language_s.Outcome.{ok, err}
use design_tokens_language_s.SemanticTokens.Delta.{compute_delta, apply_edits}
use design_tokens_language_s.SemanticTokens.Delta.RoundTrip.{apply_edits-compute_delta}
use design_tokens_language_s.SemanticTokens.Encode.{
  SemanticToken, encode_semantic_tokens, append_validated_int, encode_token, encode_loop, negative,
  delta_start,
}
use design_tokens_language_s.SemanticTokens.Encode.Decode.{decode, decode-encode_semantic_tokens}
use design_tokens_language_s.SemanticTokens.Encode.Order.{
  accepted, IsOrdered, encode_semantic_tokens_iff,
}

abbrev sent : List ℕ
sent = 0 ∷ 4 ∷ 3 ∷ 0 ∷ 0 ∷ []

abbrev longer : List ℕ
longer = 0 ∷ 4 ∷ 3 ∷ 0 ∷ 0 ∷ 1 ∷ 2 ∷ 3 ∷ 0 ∷ 0 ∷ []

apply_edits-compute_delta_example : apply_edits sent (compute_delta sent longer) ≡ ok longer
apply_edits-compute_delta_example = apply_edits-compute_delta sent longer (ground arith)

abbrev token : ℕ → ℕ → SemanticToken
token line start_char = record {
  line = pos line;
  start_char = pos start_char;
  length = pos 3;
  token_type = pos 0;
  token_modifiers = pos 0;
}

abbrev two_tokens : List SemanticToken
two_tokens = token 0 4 ∷ token 1 2 ∷ []

-- Two tokens of one line in the wrong order are refused.
swapped_run :
    encode_semantic_tokens (token 0 4 ∷ token 0 2 ∷ [])
    ≡ err (negative 1 delta_start (pos 2 -ℤ pos 4))
unfolding encode_semantic_tokens encode_loop encode_token append_validated_int ◌-ℤ◌
swapped_run = refl

decode-encode_semantic_tokens_example : decode longer ≡ some two_tokens
unfolding encode_semantic_tokens encode_loop encode_token append_validated_int ◌-ℤ◌
decode-encode_semantic_tokens_example = decode-encode_semantic_tokens two_tokens longer refl

encode_semantic_tokens_iff_example :
    (accepted (encode_semantic_tokens two_tokens) ≡ true) ↔ IsOrdered (pos 0) (pos 0) two_tokens
encode_semantic_tokens_iff_example = encode_semantic_tokens_iff two_tokens (ground arith)

-- A draft document with one reference, on its second line.
abbrev reference : Document
reference = record {
  uri = [];
  language_id = ascii "json";
  content = ascii "{\n\"{a.b}\"";
  version = pos 1;
}

abbrev one_match : Bytes → List Match
one_match [] = []
one_match (c ∷ []) = []
one_match (c ∷ d ∷ line) = record { start = 1; stop = 6; group_start = 2; group_stop = 5 } ∷ []

abbrev no_match : Bytes → List Match
no_match line = []

abbrev no_field : Bytes → Option Bytes
no_field content = none

abbrev any_token : Bytes → Option Token
any_token name = some (record {
  name = name;
  value = [];
  type = [];
  path = [];
  file_path = [];
  definition_uri = [];
  line = 0;
  character = 0;
  deprecated = false;
  deprecation_message = [];
  schema_version = draft;
})

-- The two parts of the reference, of different types.
reference_run :
    schema_aware_tokens any_token no_field one_match no_match no_match reference
    ≡ token_at 1 2 1 type_variable ∷ token_at 1 4 1 type_property ∷ []
unfolding schema_aware_tokens lines_tokens line_tokens detect_schema_version curly_brace_references
    part_tokens split byte_offset_to_utf16 byte_round string_length_utf16 decode_rune rune_len runes
    runes_within
reference_run = refl
