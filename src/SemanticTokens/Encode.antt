-- ===== src/SemanticTokens/Encode.antt =====
-- lsp/methods/textDocument/semanticTokens/semanticTokens.go: the delta encoding of the protocol.
pub mod Decode
pub mod Order
use design_tokens_language_s.Prelude.{
  ℕ, ◌+◌, ◌^◌, ◌-◌, Bool, List, [], ◌∷◌, ◌++◌, ltb, if◌then◌else◌,
}
use design_tokens_language_s.Ints.{ℤ, pos, negsuc, ◌-ℤ◌, eqb_ℤ}
use design_tokens_language_s.Outcome.{Outcome, ok, err, ◌>>=◌}
use design_tokens_language_s.Position.{max_uint32}

-- SemanticTokenIntermediate
pub record SemanticToken : Type 0 where
  pub line : ℤ
  pub start_char : ℤ
  pub length : ℤ
  pub token_type : ℤ
  pub token_modifiers : ℤ

pub data Field : Type 0 where
  delta_line delta_start length token_type token_modifiers : Field

-- The index of the token, the field, and its value.
pub data EncodeError : Type 0 where
  negative too_large : ℕ → Field → ℤ → EncodeError

-- appendValidatedInt
unfoldable pub append_validated_int : List ℕ → ℤ → Field → ℕ → Outcome EncodeError (List ℕ)
append_validated_int out (negsuc n) field token_index = err (negative token_index field (negsuc n))
append_validated_int out (pos n) field token_index =
    if ltb max_uint32 n then err (too_large token_index field (pos n)) else ok (out ++ n ∷ [])

-- one round of the loop of encodeSemanticTokens
unfoldable pub encode_token : List ℕ → ℕ → ℤ → ℤ → SemanticToken → Outcome EncodeError (List ℕ)
encode_token out i prev_line prev_start_char token = do
  let delta = token.line -ℤ prev_line
  let start = if eqb_ℤ delta (pos 0) then token.start_char -ℤ prev_start_char else token.start_char
  out1 ← append_validated_int out delta delta_line i
  out2 ← append_validated_int out1 start delta_start i
  out3 ← append_validated_int out2 token.length Field.length i
  out4 ← append_validated_int out3 token.token_type Field.token_type i
  append_validated_int out4 token.token_modifiers Field.token_modifiers i

unfoldable pub encode_loop : List SemanticToken → ℕ → ℤ → ℤ → List ℕ → Outcome EncodeError (List ℕ)
encode_loop [] i prev_line prev_start_char out = ok out
encode_loop (token ∷ tokens) i prev_line prev_start_char out = do
  out' ← encode_token out i prev_line prev_start_char token
  encode_loop tokens (i + 1) token.line token.start_char out'

-- encodeSemanticTokens
unfoldable pub encode_semantic_tokens : List SemanticToken → Outcome EncodeError (List ℕ)
unfolding encode_loop
encode_semantic_tokens tokens = encode_loop tokens 0 (pos 0) (pos 0) []
