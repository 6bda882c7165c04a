-- ===== src/SemanticTokens/Handlers.antt =====
-- lsp/methods/textDocument/semanticTokens/semanticTokens.go: the three request handlers. The server's
-- context is a parameter: its documents, the test for token files, and the extraction of the tokens.
pub mod Session
pub mod Ranges
use design_tokens_language_s.Prelude.{
  ℕ, Bool, true, false, not, ◌&&◌, ◌||◌, Option, none, some, List, [], ◌∷◌, ◌==◌, length, keep,
  if◌then◌else◌,
}
use design_tokens_language_s.Ints.{ℤ, pos, ltb_ℤ, eqb_ℤ}
use design_tokens_language_s.Outcome.{Outcome, ok, err, panicked}
use design_tokens_language_s.GoString.{Bytes, ascii, str_eq}
use design_tokens_language_s.Documents.Document.{Document}
use design_tokens_language_s.Documents.Change.{Range}
use design_tokens_language_s.SemanticTokens.Cache.{CacheEntry, TokenCache, get_for_uri, store}
use design_tokens_language_s.SemanticTokens.Delta.{Edit, compute_delta}
use design_tokens_language_s.SemanticTokens.Encode.{
  SemanticToken, EncodeError, encode_semantic_tokens,
}

pub data HandlerError : Type 0 where
  document_not_found : Bytes → HandlerError
  failed_to_encode : EncodeError → HandlerError

-- nil, protocol.SemanticTokens and protocol.SemanticTokensDelta
pub data Reply : Type 0 where
  no_reply : Reply
  full : Option Bytes → List ℕ → Reply
  delta : Bytes → List Edit → Reply

-- languageID == "json" || languageID == "yaml"
unfoldable pub is_data_language : Bytes → Bool
is_data_language id = str_eq id (ascii "json") || str_eq id (ascii "yaml")

-- the tests of the loop in SemanticTokensRange
unfoldable pub in_range : Range → SemanticToken → Bool
in_range range token =
    let start_line = pos range.start.line in
    let end_line = pos range.stop.line in
    not (ltb_ℤ token.line start_line)
    && not (ltb_ℤ end_line token.line)
    && not (eqb_ℤ token.line start_line && ltb_ℤ token.start_char (pos range.start.character))
    && not (eqb_ℤ token.line end_line && not (ltb_ℤ token.start_char (pos range.stop.character)))

-- prevEntry.Data, if there is an entry
abbrev pub previous_tokens : Option CacheEntry → Option (List ℕ)
previous_tokens none = none
previous_tokens (some e) = some e.tokens

-- what the delta handler answers once the tokens are stored under the new ID
unfoldable pub delta_reply : Option (List ℕ) → Bytes → List ℕ → Reply
delta_reply none new_id new_data = full (some new_id) new_data
delta_reply (some old_data) new_id new_data = delta new_id (compute_delta old_data new_data)

-- SemanticTokensRange
unfoldable pub semantic_tokens_range :
    (Bytes → Option Document)
    → (Document → List SemanticToken)
    → Bytes
    → Range
    → Outcome HandlerError Reply
semantic_tokens_range document get_semantic_tokens_for_document uri range = elim (document uri) [
  | none ↦ err (document_not_found uri)
  | some doc ↦
      elim (encode_semantic_tokens (keep (in_range range) (get_semantic_tokens_for_document doc))) [
        | err e ↦ err (failed_to_encode e)
        | panicked ↦ panicked
        | ok sent ↦ ok (full none sent)
      ]
]

module _ (document : Bytes → Option Document) (should_process_as_token_file : Bytes → Bool)
    (get_semantic_tokens_for_document : Document → List SemanticToken) where
  -- SemanticTokensFull, with the cache as it is left
  unfoldable pub semantic_tokens_full : Bytes → TokenCache → Outcome HandlerError Reply × TokenCache
  semantic_tokens_full uri c = elim (document uri) [
    | none ↦ (err (document_not_found uri), c)
    | some doc ↦
        if not (is_data_language doc.language_id)
        then (ok no_reply, c)
        else if not (should_process_as_token_file uri)
        then (ok no_reply, c)
        else elim (encode_semantic_tokens (get_semantic_tokens_for_document doc)) [
          | err e ↦ (err (failed_to_encode e), c)
          | panicked ↦ (panicked, c)
          | ok sent ↦
              let (result_id, c') = store uri sent doc.version c in
              (ok (full (some result_id) sent), c')
        ]
  ]

  -- SemanticTokensFullDelta, with the cache as it is left
  unfoldable pub semantic_tokens_full_delta :
      Bytes → Bytes → TokenCache → Outcome HandlerError Reply × TokenCache
  semantic_tokens_full_delta uri previous_result_id c = elim (document uri) [
    | none ↦ (err (document_not_found uri), c)
    | some doc ↦
        if not (is_data_language doc.language_id)
        then (ok no_reply, c)
        else if not (should_process_as_token_file uri)
        then (ok no_reply, c)
        else let previous = previous_tokens (get_for_uri previous_result_id uri c) in
          elim (encode_semantic_tokens (get_semantic_tokens_for_document doc)) [
            | err e ↦ (err (failed_to_encode e), c)
            | panicked ↦ (panicked, c)
            | ok sent ↦
                let (new_id, c') = store uri sent doc.version c in
                (ok (delta_reply previous new_id sent), c')
          ]
  ]
