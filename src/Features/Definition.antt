-- ===== src/Features/Definition.antt =====
-- lsp/methods/textDocument/definition/definition.go
pub mod First
use design_tokens_language_s.Prelude.{
  ℕ, Bool, true, false, not, ◌&&◌, ◌||◌, Option, none, some, List, [], ◌∷◌, ◌==◌, ltb, leb, length,
  if◌then◌else◌,
}
use design_tokens_language_s.Outcome.{Outcome, ok, err, panicked}
use design_tokens_language_s.GoString.{Bytes, ascii, str_eq}
use design_tokens_language_s.Tokens.{Token}
use design_tokens_language_s.Documents.Document.{Document}
use design_tokens_language_s.Documents.Change.{Position, Range}
use design_tokens_language_s.SemanticTokens.Handlers.{is_data_language}
use design_tokens_language_s.Features.{VarCall, is_css_supported_language}

-- isPositionInVarCall
unfoldable pub is_position_in_var_call : Position → VarCall → Bool
is_position_in_var_call pos v =
    let start = v.range.start in
    let stop = v.range.stop in
    if ltb pos.line start.line || ltb stop.line pos.line
    then false
    else if pos.line == start.line && ltb pos.character start.character
    then false
    else if pos.line == stop.line && leb stop.character pos.character
    then false
    else true

-- nil, []protocol.LocationLink with the origin, and []protocol.Location, of one element
pub data Answer : Type 0 where
  no_definition : Answer
  location_link : Range → Bytes → Range → Answer
  location : Bytes → Range → Answer

-- targetRange
unfoldable pub target_range : Token → Range
target_range t =
    let here : Position = record { line = t.line; character = t.character } in
    record { start = here; stop = here }

-- len(token.Path) > 0
abbrev pub has_path : List Bytes → Bool
has_path [] = false
has_path (x ∷ xs) = true

module _ (token_named : Bytes → Option Token) (supports_definition_links : Bool) where
  -- what the loop returns for the call at the cursor
  unfoldable pub answer_for : VarCall → Answer
  answer_for v = elim (token_named v.token_name) [
    | none ↦ no_definition
    | some t ↦
        if not (str_eq t.definition_uri []) && has_path t.path
        then (if supports_definition_links
            then location_link v.range t.definition_uri (target_range t)
            else location t.definition_uri (target_range t))
        else no_definition
  ]

  -- the loop over result.VarCalls
  unfoldable pub find_definition : Position → List VarCall → Answer
  find_definition pos [] = no_definition
  find_definition pos (v ∷ vs) = elim (is_position_in_var_call pos v) [
    | true ↦ answer_for v
    | false ↦ find_definition pos vs
  ]

  module _ {E : Type 0} (document : Bytes → Option Document)
      (should_process_as_token_file : Bytes → Bool)
      (definition_for_token_file : Document → Position → Outcome E Answer)
      (parse_css : Bytes → Bytes → Outcome E (Option (List VarCall))) where
    -- Definition
    unfoldable pub definition : Bytes → Position → Outcome E Answer
    definition uri position = elim (document uri) [
      | none ↦ ok no_definition
      | some doc ↦
          if is_data_language doc.language_id
          then (if not (should_process_as_token_file uri)
              then ok no_definition
              else definition_for_token_file doc position)
          else if not (is_css_supported_language doc.language_id)
          then ok no_definition
          else elim (parse_css doc.content doc.language_id) [
            | err e ↦ err e
            | panicked ↦ panicked
            | ok none ↦ ok no_definition
            | ok (some var_calls) ↦ ok (find_definition position var_calls)
          ]
    ]
