-- ===== src/SemanticTokens/Extract.antt =====
-- lsp/methods/textDocument/semanticTokens/schema_aware.go: the tokens of a document, line by line. What
-- the regular expressions of internal/parser/common find in a line, as pairs of byte offsets, is a
-- parameter, and so is the server's token lookup.
use design_tokens_language_s.Prelude.{
  ℕ, ◌+◌, Option, none, some, List, [], ◌∷◌, ◌++◌, length, drop, take, if◌then◌else◌,
}
use design_tokens_language_s.Ints.{pos}
use design_tokens_language_s.GoString.{index, Bytes, ascii, contains, replace_byte, split}
use design_tokens_language_s.Position.{byte_offset_to_utf16, string_length_utf16}
use design_tokens_language_s.Documents.Document.{Document}
use design_tokens_language_s.Documents.Change.{newline}
use design_tokens_language_s.Schema.{SchemaVersion, unknown, draft, v2025_10}
use design_tokens_language_s.Tokens.{Token}
use design_tokens_language_s.SemanticTokens.Encode.{SemanticToken}

-- s[start:end]
abbrev pub slice : ℕ → ℕ → Bytes → Bytes
slice start stop s = drop start (take stop s)

-- SemanticTokenIntermediate, without modifiers
abbrev pub token_at : ℕ → ℕ → ℕ → ℕ → SemanticToken
token_at line start_char length token_type = record {
  line = pos line;
  start_char = pos start_char;
  length = pos length;
  token_type = pos token_type;
  token_modifiers = pos 0;
}

-- TokenTypeVariable and the others
abbrev pub type_variable : ℕ
type_variable = 0

abbrev pub type_property : ℕ
type_property = 1

abbrev pub type_keyword : ℕ
type_keyword = 3

abbrev pub type_string : ℕ
type_string = 4

-- The offsets of a match, and of its first group.
pub record Match : Type 0 where
  pub start : ℕ
  pub stop : ℕ
  pub group_start : ℕ
  pub group_stop : ℕ

-- the keyword within a match, if it is there
unfoldable pub keyword_token : Bytes → ℕ → ℕ → Bytes → ℕ → ℕ → List SemanticToken
keyword_token keyword start stop line line_num size = elim (index (slice start stop line) keyword) [
  | none ↦ []
  | some i ↦ token_at line_num (byte_offset_to_utf16 line (start + i)) size type_keyword ∷ []
]

-- extractJSONPointerTokens, over the matches
unfoldable pub json_pointer_tokens : List Match → Bytes → ℕ → List SemanticToken
json_pointer_tokens [] line line_num = []
json_pointer_tokens (m ∷ ms) line line_num =
    keyword_token (ascii "$ref") m.start m.stop line line_num 4
    ++ (token_at line_num (byte_offset_to_utf16 line m.group_start)
          (string_length_utf16 (slice m.group_start m.group_stop line)) type_string
        ∷ json_pointer_tokens ms line line_num)

-- extractRootKeywordTokens, over the matches
unfoldable pub root_keyword_tokens : List Match → Bytes → ℕ → List SemanticToken
root_keyword_tokens [] line line_num = []
root_keyword_tokens (m ∷ ms) line line_num =
    keyword_token (ascii "$root") m.start m.stop line line_num 5
    ++ root_keyword_tokens ms line line_num

-- the loop over the parts of a reference; the first has another type
unfoldable pub part_tokens : List Bytes → ℕ → ℕ → ℕ → List SemanticToken
part_tokens [] line_num start_char token_type = []
part_tokens (part ∷ parts) line_num start_char token_type =
    token_at line_num start_char (string_length_utf16 part) token_type
    ∷ part_tokens parts line_num (start_char + (string_length_utf16 part + 1)) type_property

module _ (token_named : Bytes → Option Token) where
  -- extractCurlyBraceReferences, over the matches
  unfoldable pub curly_brace_references : List Match → Bytes → ℕ → List SemanticToken
  curly_brace_references [] line line_num = []
  curly_brace_references (m ∷ ms) line line_num =
      let reference = slice m.group_start m.group_stop line in
      let rest = curly_brace_references ms line line_num in
      elim (token_named (replace_byte b'.' b'-' reference)) [
        | none ↦ rest
        | some t ↦
            part_tokens (split b'.' reference) line_num (byte_offset_to_utf16 line m.group_start)
              type_variable
            ++ rest
      ]

  module _ (schema_field : Bytes → Option Bytes) (curly_brace_matches : Bytes → List Match)
      (json_pointer_matches : Bytes → List Match) (root_keyword_matches : Bytes → List Match) where
    -- detectSchemaVersion
    unfoldable pub detect_schema_version : Bytes → SchemaVersion
    detect_schema_version content = elim (schema_field content) [
      | none ↦ draft
      | some url ↦
          if contains url (ascii "2025.10")
          then v2025_10
          else if contains url (ascii "draft")
          then draft
          else draft
    ]

    -- what one round of the loop over the lines appends
    unfoldable pub line_tokens : SchemaVersion → Bytes → ℕ → List SemanticToken
    line_tokens version line line_num =
        curly_brace_references (curly_brace_matches line) line line_num ++ elim version [
          | unknown ↦ []
          | draft ↦ []
          | v2025_10 ↦
              json_pointer_tokens (json_pointer_matches line) line line_num
              ++ root_keyword_tokens (root_keyword_matches line) line line_num
        ]

    unfoldable pub lines_tokens : SchemaVersion → List Bytes → ℕ → List SemanticToken
    lines_tokens version [] line_num = []
    lines_tokens version (line ∷ lines) line_num =
        line_tokens version line line_num ++ lines_tokens version lines (line_num + 1)

    -- GetSemanticTokensForDocumentSchemaAware
    unfoldable pub schema_aware_tokens : Document → List SemanticToken
    schema_aware_tokens doc =
        lines_tokens (detect_schema_version doc.content) (split newline doc.content) 0
