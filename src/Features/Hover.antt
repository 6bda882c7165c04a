-- ===== src/Features/Hover.antt =====
-- lsp/methods/textDocument/hover/hover.go. The rendered templates are parameters, and so is the
-- reference at a position of a token file.
pub mod Innermost
use design_tokens_language_s.Prelude.{
  ℕ, ◌+◌, ◌-◌, ◌*◌, ◌%◌, ◌^◌, Bool, true, false, not, ◌&&◌, ◌||◌, Option, none, some, List, [], ◌∷◌,
  ◌==◌, ltb, leb, if◌then◌else◌,
}
use design_tokens_language_s.Outcome.{Outcome, ok, err, panicked}
use design_tokens_language_s.GoString.{Bytes, ascii, str_eq, has_suffix}
use design_tokens_language_s.Tokens.{Token}
use design_tokens_language_s.Documents.Document.{Document}
use design_tokens_language_s.Documents.Change.{Position, Range}
use design_tokens_language_s.CssValues.{has}
use design_tokens_language_s.Features.{VarCall, is_css_supported_language}
use design_tokens_language_s.Server.{MarkupKind}

-- css.Variable, the parts that are read
pub record Variable : Type 0 where
  pub name : Bytes
  pub range : Range

-- common.TokenReferenceWithRange, the parts that are read
pub record TokenReference : Type 0 where
  pub token_name : Bytes
  pub line : ℕ
  pub start_char : ℕ
  pub end_char : ℕ

-- protocol.Hover
pub record HoverResponse : Type 0 where
  pub kind : MarkupKind
  pub value : Bytes
  pub range : Range

-- isPositionInRange
unfoldable pub is_position_in_range : Position → Range → Bool
is_position_in_range pos r =
    if ltb pos.line r.start.line || ltb r.stop.line pos.line
    then false
    else if pos.line == r.start.line && ltb pos.character r.start.character
    then false
    else if pos.line == r.stop.line && leb r.stop.character pos.character
    then false
    else true

-- a - b on uint32
unfoldable pub minus_uint32 : ℕ → ℕ → ℕ
minus_uint32 a b = (a + 2 ^ 32 - b) % 2 ^ 32

-- calculateRangeSize
unfoldable pub calculate_range_size : Range → ℕ
calculate_range_size r =
    let line_diff = minus_uint32 r.stop.line r.start.line in
    let char_diff = minus_uint32 r.stop.character r.start.character in
    if line_diff == 0 then char_diff else line_diff * 10000 + char_diff

-- rangeSize < smallestRangeSize, or there is no best item yet
unfoldable pub is_smaller : ℕ → Option ℕ → Bool
is_smaller size none = true
is_smaller size (some smallest) = ltb size smallest

module _ {ℓ} {A : Type ℓ} (range_of : A → Range) where
  -- the size of the best item so far
  abbrev pub size_of : Option A → Option ℕ
  size_of none = none
  size_of (some x) = some (calculate_range_size (range_of x))

  -- The loop of findInnermostVarCall and of findInnermostVariable, with the best item so far.
  unfoldable pub innermost : Position → List A → Option A → Option A
  innermost position [] best = best
  innermost position (x ∷ xs) best =
      let better = innermost position xs (some x) in
      let same = innermost position xs best in
      if is_position_in_range position (range_of x)
      then (if is_smaller (calculate_range_size (range_of x)) (size_of best) then better else same)
      else same

-- findInnermostVarCall
unfoldable pub find_innermost_var_call : Position → List VarCall → Option VarCall
find_innermost_var_call position vs = innermost (λ (v : VarCall). v.range) position vs none

-- findInnermostVariable
unfoldable pub find_innermost_variable : Position → List Variable → Option Variable
find_innermost_variable position vs = innermost (λ (v : Variable). v.range) position vs none

-- isTokenFile
unfoldable pub is_token_language : Bytes → Bool
is_token_language = has (ascii "json" ∷ ascii "jsonc" ∷ ascii "yaml" ∷ [])

-- createHoverResponse
unfoldable pub create_hover_response : Bytes → Range → MarkupKind → HoverResponse
create_hover_response content range format = record {
  kind = format;
  value = content;
  range = range;
}

-- createTokenRefHoverResponse
unfoldable pub create_token_ref_hover_response : Bytes → TokenReference → MarkupKind → HoverResponse
create_token_ref_hover_response content ref format = record {
  kind = format;
  value = content;
  range = record {
    start = record { line = ref.line; character = ref.start_char };
    stop = record { line = ref.line; character = ref.end_char };
  };
}

module _ {E : Type 0} (format : MarkupKind) (token_named : Bytes → Option Token)
    (render_token_hover : Token → MarkupKind → Outcome E Bytes)
    (render_unknown_token : Bytes → MarkupKind → Outcome E Bytes) where
  -- a rendered text as a response, or its error
  abbrev pub respond : Outcome E Bytes → (Bytes → HoverResponse) → Outcome E (Option HoverResponse)
  respond (ok content) make = ok (some (make content))
  respond (err e) make = err e
  respond panicked make = panicked

  -- the text for a token, or for one that is not known
  unfoldable pub render_named : Bytes → Outcome E Bytes
  render_named name = elim (token_named name) [
    | none ↦ render_unknown_token name format
    | some t ↦ render_token_hover t format
  ]

  -- processVarCallHover
  unfoldable pub process_var_call_hover : VarCall → Outcome E (Option HoverResponse)
  process_var_call_hover v =
      respond (render_named v.token_name) (λ content. create_hover_response content v.range format)

  -- processVariableHover
  unfoldable pub process_variable_hover : Variable → Outcome E (Option HoverResponse)
  process_variable_hover v = elim (token_named v.name) [
    | none ↦ ok none
    | some t ↦
        respond (render_token_hover t format)
          (λ content. create_hover_response content v.range format)
  ]

  -- processTokenReferenceHover
  unfoldable pub process_token_reference_hover : TokenReference → Outcome E (Option HoverResponse)
  process_token_reference_hover ref =
      respond (render_named ref.token_name)
        (λ content. create_token_ref_hover_response content ref format)

  -- the var() calls come first, then the declarations
  unfoldable pub css_hover :
      Position → List VarCall → List Variable → Outcome E (Option HoverResponse)
  css_hover position var_calls variables = elim (find_innermost_var_call position var_calls) [
    | some v ↦ process_var_call_hover v
    | none ↦ elim (find_innermost_variable position variables) [
      | some v ↦ process_variable_hover v
      | none ↦ ok none
    ]
  ]

  module _ (document : Bytes → Option Document)
      (parse_css : Bytes → Bytes → Outcome E (Option (List VarCall × List Variable)))
      (find_reference_at_position : Bytes → ℕ → ℕ → Option TokenReference) where
    -- handleCSSHover
    unfoldable pub handle_css_hover : Document → Position → Outcome E (Option HoverResponse)
    handle_css_hover doc position = elim (parse_css doc.content doc.language_id) [
      | err e ↦ err e
      | panicked ↦ panicked
      | ok none ↦ ok none
      | ok (some (var_calls, variables)) ↦ css_hover position var_calls variables
    ]

    -- handleTokenFileHover
    unfoldable pub handle_token_file_hover : Document → Position → Outcome E (Option HoverResponse)
    handle_token_file_hover doc position =
        elim (find_reference_at_position doc.content position.line position.character) [
          | none ↦ ok none
          | some ref ↦ process_token_reference_hover ref
        ]

    -- Hover
    unfoldable pub hover : Bytes → Position → Outcome E (Option HoverResponse)
    hover uri position = elim (document uri) [
      | none ↦ ok none
      | some doc ↦
          if is_css_supported_language doc.language_id
          then handle_css_hover doc position
          else if is_token_language doc.language_id
              || has_suffix uri (ascii ".json")
              || has_suffix uri (ascii ".yaml")
              || has_suffix uri (ascii ".yml")
          then handle_token_file_hover doc position
          else ok none
    ]
