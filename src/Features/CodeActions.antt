-- ===== src/Features/CodeActions.antt =====
-- lsp/methods/textDocument/codeAction: the actions that are offered for the var() calls in a range.
-- The warnings that a request collects are the errors of FormatTokenValueForCSS, in order.
pub mod InRange
use design_tokens_language_s.Prelude.{
  ℕ, suc, ◌+◌, Bool, true, false, not, ◌&&◌, ◌||◌, Option, none, some, List, [], ◌∷◌, ◌++◌, ◌==◌,
  ltb, take, drop, length, if◌then◌else◌,
}
use design_tokens_language_s.Outcome.{Outcome, ok, err, panicked}
use design_tokens_language_s.GoString.{Bytes, ascii, str_eq, index, replace_byte}
use design_tokens_language_s.Tokens.{Token}
use design_tokens_language_s.Documents.Document.{Document}
use design_tokens_language_s.Documents.Change.{Position, Range}
use design_tokens_language_s.Ranges.{ranges_intersect}
use design_tokens_language_s.CssValues.{
  Text, FormatError, format_token_value_for_css, is_css_value_semantically_equivalent,
}
use design_tokens_language_s.Features.{VarCall, is_css_supported_language}

-- protocol.TextEdit
pub record TextEdit : Type 0 where
  pub range : Range
  pub new_text : Bytes

-- protocol.CodeActionKind, the kinds that are offered
pub data ActionKind : Type 0 where
  quick_fix refactor_rewrite source_fix_all : ActionKind

-- A diagnostic that the client sends along: its range and its code.
pub record SentDiagnostic : Type 0 where
  pub range : Range
  pub code : Option Bytes

-- protocol.CodeAction: the edits of one document, the diagnostic it fixes, whether it is preferred, and
-- the document of an action that is resolved later.
pub record CodeAction : Type 0 where
  pub title : Bytes
  pub kind : ActionKind
  pub edit : Option (Bytes × List TextEdit)
  pub diagnostic : Option SentDiagnostic
  pub is_preferred : Bool
  pub resolved_for : Option Bytes

-- an action, if there is one, and the warnings
abbrev pub Made : Type 0
Made = Option CodeAction × List FormatError

abbrev pub is_some {ℓ} : {A : Type ℓ} → Option A → Bool
is_some none = false
is_some (some x) = true

-- fmt.Sprintf("var(%s)", name)
unfoldable pub var_text : Bytes → Bytes
var_text name = ascii "var(" ++ name ++ ascii ")"

-- fmt.Sprintf("var(%s, %s)", name, value)
unfoldable pub var_with_fallback : Bytes → Bytes → Bytes
var_with_fallback name value = ascii "var(" ++ name ++ ascii ", " ++ value ++ ascii ")"

-- an action that replaces a var() call
unfoldable pub replacing :
    Bytes → ActionKind → Bytes → VarCall → Bytes → Option SentDiagnostic → Bool → CodeAction
replacing title kind uri v new_text diagnostic is_preferred = record {
  title = title;
  kind = kind;
  edit = some (uri, record { range = v.range; new_text = new_text } ∷ []);
  diagnostic = diagnostic;
  is_preferred = is_preferred;
  resolved_for = none;
}

-- an action with the formatted value, or a warning
abbrev pub with_value : Outcome FormatError Bytes → (Bytes → CodeAction) → Made
with_value (ok value) make = (some (make value), [])
with_value (err e) make = (none, e ∷ [])
with_value panicked make = (none, [])

-- the loop for the matching diagnostic
unfoldable pub matching_diagnostic : VarCall → List SentDiagnostic → Option SentDiagnostic
matching_diagnostic v [] = none
matching_diagnostic v (d ∷ ds) =
    let rest = matching_diagnostic v ds in
    if d.range.start.line == v.range.start.line
      && d.range.start.character == v.range.start.character
    then some d
    else rest

-- the pattern "Use X instead", trimmed
unfoldable pub use_instead : (Bytes → Bytes) → Bytes → Option Bytes
use_instead trim_space message = elim (index message (ascii "Use ")) [
  | none ↦ none
  | some i ↦
      let rest = drop (i + 4) message in
      elim (index rest (ascii " instead")) [
        | none ↦ none
        | some stop ↦ some (trim_space (take stop rest))
      ]
]

-- the pattern "Replaced by X"
unfoldable pub replaced_by : Bytes → Option Bytes
replaced_by message = elim (index message (ascii "Replaced by ")) [
  | none ↦ none
  | some i ↦
      let rest = drop (i + 12) message in
      elim (index rest (ascii " ")) [ none ↦ some rest | some stop ↦ some (take stop rest) ]
]

-- extractRecommendedToken
unfoldable pub extract_recommended_token : (Bytes → Bytes) → Bytes → Bytes
extract_recommended_token trim_space message =
    if str_eq message [] then [] else elim (use_instead trim_space message) [
      | some name ↦ name
      | none ↦ elim (replaced_by message) [ some name ↦ name | none ↦ [] ]
    ]

-- diag.Code != nil && diag.Code.Value == "incorrect-fallback"
unfoldable pub is_incorrect_fallback : SentDiagnostic → Bool
is_incorrect_fallback d = elim d.code [
  | none ↦ false
  | some code ↦ str_eq code (ascii "incorrect-fallback")
]

unfoldable pub count_incorrect : List SentDiagnostic → ℕ
count_incorrect [] = 0
count_incorrect (d ∷ ds) =
    let rest = count_incorrect ds in if is_incorrect_fallback d then suc rest else rest

-- createFixAllActionIfNeeded, and createFixAllFallbacksAction
unfoldable pub create_fix_all_action_if_needed : Bytes → List SentDiagnostic → Option CodeAction
create_fix_all_action_if_needed uri diagnostics =
    if ltb (length diagnostics) 2
    then none
    else if ltb (count_incorrect diagnostics) 2
    then none
    else some (record {
      title = ascii "Fix all token fallback values";
      kind = source_fix_all;
      edit = none;
      diagnostic = none;
      is_preferred = false;
      resolved_for = some uri;
    })

-- requestedRange.Start == requestedRange.End
unfoldable pub is_collapsed : Range → Bool
is_collapsed r = r.start.line == r.stop.line && r.start.character == r.stop.character

abbrev pub made_list : Made → List CodeAction × List FormatError
made_list (none, warnings) = ([], warnings)
made_list (some a, warnings) = (a ∷ [], warnings)

-- two lists of actions, with their warnings
abbrev pub and_then :
    List CodeAction × List FormatError
    → List CodeAction × List FormatError
    → List CodeAction × List FormatError
and_then (actions, warnings) (more, more_warnings) = (actions ++ more, warnings ++ more_warnings)

-- an action with these edits, if there are any
unfoldable pub toggle_range : Bytes → List TextEdit → Option CodeAction
toggle_range uri [] = none
toggle_range uri (e ∷ edits) = some (record {
  title = ascii "Toggle design token fallback values (in range)";
  kind = refactor_rewrite;
  edit = some (uri, e ∷ edits);
  diagnostic = none;
  is_preferred = false;
  resolved_for = none;
})

module _ (text : Text) (token_named : Bytes → Option Token) where
  -- createReplacementAction
  unfoldable pub create_replacement_action :
      Bytes → VarCall → Bytes → Token → Option SentDiagnostic → Made
  create_replacement_action uri v css_var_name replacement diagnostic =
      let title = ascii "Replace with '" ++ css_var_name ++ ascii "'" in
      elim v.fallback [
        | none ↦ (
          some (
              replacing title quick_fix uri v (var_text css_var_name) diagnostic
                (is_some diagnostic)),
          [],
        )
        | some _ ↦ with_value (format_token_value_for_css text replacement) (λ value.
            replacing title quick_fix uri v (var_with_fallback css_var_name value) diagnostic
              (is_some diagnostic))
      ]

  -- createLiteralValueAction: an error is no warning here
  unfoldable pub create_literal_value_action :
      Bytes → VarCall → Token → Option SentDiagnostic → Made
  create_literal_value_action uri v token diagnostic =
      elim (format_token_value_for_css text token) [
        | err e ↦ (none, [])
        | panicked ↦ (none, [])
        | ok value ↦ (
          some (
              replacing (ascii "Replace with literal value '" ++ value ++ ascii "'") quick_fix uri v
                value diagnostic false),
          [],
        )
      ]

  -- createFixFallbackAction
  unfoldable pub create_fix_fallback_action : Bytes → VarCall → Token → List SentDiagnostic → Made
  create_fix_fallback_action uri v token diagnostics =
      let diagnostic = matching_diagnostic v diagnostics in
      with_value (format_token_value_for_css text token) (λ value.
        replacing (ascii "Fix fallback value to '" ++ value ++ ascii "'") quick_fix uri v
          (var_with_fallback v.token_name value) diagnostic (is_some diagnostic))

  -- createAddFallbackAction
  unfoldable pub create_add_fallback_action : Bytes → VarCall → Token → Made
  create_add_fallback_action uri v token =
      with_value (format_token_value_for_css text token) (λ value.
        replacing (ascii "Add fallback value '" ++ value ++ ascii "'") quick_fix uri v
          (var_with_fallback v.token_name value) none false)

  -- the replacement by a recommended token, if it is known
  unfoldable pub recommended_action : Bytes → VarCall → Bytes → Option SentDiagnostic → Made
  recommended_action uri v recommended diagnostic =
      if str_eq recommended []
      then (none, [])
      else let css_var_name = ascii "--" ++ replace_byte b'.' b'-' recommended in
        elim (token_named css_var_name) [
          | none ↦ (none, [])
          | some replacement ↦ create_replacement_action uri v css_var_name replacement diagnostic
        ]

  -- createDeprecatedTokenActions
  unfoldable pub create_deprecated_token_actions :
      Bytes → VarCall → Token → List SentDiagnostic → List CodeAction × List FormatError
  create_deprecated_token_actions uri v token diagnostics =
      let diagnostic = matching_diagnostic v diagnostics in
      and_then
        (made_list (
          recommended_action uri v
            (extract_recommended_token text.trim_space token.deprecation_message) diagnostic))
        (made_list (create_literal_value_action uri v token diagnostic))

  -- the new text of a toggled call
  unfoldable pub toggled : VarCall → Token → Outcome FormatError Bytes
  toggled v token = elim v.fallback [
    | some _ ↦ ok (var_text v.token_name)
    | none ↦ elim (format_token_value_for_css text token) [
      | err e ↦ err e
      | panicked ↦ panicked
      | ok value ↦ ok (var_with_fallback v.token_name value)
    ]
  ]

  -- createToggleFallbackAction
  unfoldable pub create_toggle_fallback_action : Bytes → VarCall → Made
  create_toggle_fallback_action uri v = elim (token_named v.token_name) [
    | none ↦ (none, [])
    | some token ↦ with_value (toggled v token) (λ new_text.
        replacing (ascii "Toggle design token fallback value") refactor_rewrite uri v new_text none
          false)
  ]

  -- the loop of createToggleRangeFallbacksAction
  unfoldable pub toggle_edits : List VarCall → List TextEdit × List FormatError
  toggle_edits [] = ([], [])
  toggle_edits (v ∷ vs) =
      let (edits, warnings) = toggle_edits vs in
      elim (token_named v.token_name) [
        | none ↦ (edits, warnings)
        | some token ↦ elim (toggled v token) [
          | ok new_text ↦ (record { range = v.range; new_text = new_text } ∷ edits, warnings)
          | err e ↦ (edits, e ∷ warnings)
          | panicked ↦ (edits, warnings)
        ]
      ]

  -- createToggleRangeFallbacksAction
  unfoldable pub create_toggle_range_fallbacks_action : Bytes → List VarCall → Made
  create_toggle_range_fallbacks_action uri vs =
      let (edits, warnings) = toggle_edits vs in (toggle_range uri edits, warnings)

  -- createToggleActions
  unfoldable pub create_toggle_actions :
      Bytes → List VarCall → Range → List CodeAction × List FormatError
  create_toggle_actions uri [] requested = ([], [])
  create_toggle_actions uri (v ∷ vs) requested =
      if is_collapsed requested
      then made_list (create_toggle_fallback_action uri v)
      else made_list (create_toggle_range_fallbacks_action uri (v ∷ vs))

  -- the actions for a fallback, or for one that is missing
  unfoldable pub fallback_action : Bytes → VarCall → Token → List SentDiagnostic → Made
  fallback_action uri v token diagnostics = elim v.fallback [
    | some fallback ↦
        if not (is_css_value_semantically_equivalent text.to_lower fallback token.value)
        then create_fix_fallback_action uri v token diagnostics
        else (none, [])
    | none ↦
        if str_eq token.type (ascii "color") || str_eq token.type (ascii "dimension")
        then create_add_fallback_action uri v token
        else (none, [])
  ]

  -- the actions for a call whose token is known
  unfoldable pub token_actions :
      Bytes → VarCall → Token → List SentDiagnostic → List CodeAction × List FormatError
  token_actions uri v token diagnostics =
      and_then
        (if token.deprecated
          then create_deprecated_token_actions uri v token diagnostics
          else ([], []))
        (made_list (fallback_action uri v token diagnostics))

  -- processVarCalls: the actions, the warnings, and the calls in range
  unfoldable pub process_var_calls :
      Bytes
      → List VarCall
      → Range
      → List SentDiagnostic
      → (List CodeAction × List FormatError) × List VarCall
  process_var_calls uri [] requested diagnostics = (([], []), [])
  process_var_calls uri (v ∷ vs) requested diagnostics =
      let (made, in_range) = process_var_calls uri vs requested diagnostics in
      if not (ranges_intersect requested v.range)
      then (made, in_range)
      else elim (token_named v.token_name) [
        | none ↦ (made, v ∷ in_range)
        | some token ↦ (and_then (token_actions uri v token diagnostics) made, v ∷ in_range)
      ]

  -- the actions on a document's calls
  unfoldable pub all_actions :
      Bytes → List VarCall → Range → List SentDiagnostic → List CodeAction × List FormatError
  all_actions uri vs requested diagnostics =
      let (made, in_range) = process_var_calls uri vs requested diagnostics in
      and_then made (
        and_then (create_toggle_actions uri in_range requested)
          (made_list (create_fix_all_action_if_needed uri diagnostics, [])))

  -- the loop of resolveFixAllFallbacks
  unfoldable pub fix_all_edits : List VarCall → List TextEdit × List FormatError
  fix_all_edits [] = ([], [])
  fix_all_edits (v ∷ vs) =
      let (edits, warnings) = fix_all_edits vs in
      elim (token_named v.token_name) [
        | none ↦ (edits, warnings)
        | some token ↦ elim v.fallback [
          | none ↦ (edits, warnings)
          | some fallback ↦
              if not (is_css_value_semantically_equivalent text.to_lower fallback token.value)
              then elim (format_token_value_for_css text token) [
                | ok value ↦ (
                  record { range = v.range; new_text = var_with_fallback v.token_name value }
                      ∷ edits,
                  warnings,
                )
                | err e ↦ (edits, e ∷ warnings)
                | panicked ↦ (edits, warnings)
              ]
              else (edits, warnings)
        ]
      ]

  module _ {E : Type 0} (document : Bytes → Option Document)
      (parse_css : Bytes → Bytes → Outcome E (Option (List VarCall)))
      (supports_code_action_literals : Bool) where
    -- CodeAction: `none` stands for nil
    unfoldable pub code_action :
        Bytes
        → Range
        → List SentDiagnostic
        → Outcome E (Option (List CodeAction × List FormatError))
    code_action uri requested diagnostics =
        if not supports_code_action_literals then ok none else elim (document uri) [
          | none ↦ ok none
          | some doc ↦
              if not (is_css_supported_language doc.language_id)
              then ok none
              else elim (parse_css doc.content doc.language_id) [
                | err e ↦ err e
                | panicked ↦ panicked
                | ok none ↦ ok (some (all_actions uri [] requested diagnostics))
                | ok (some vs) ↦ ok (some (all_actions uri vs requested diagnostics))
              ]
        ]

    -- resolveFixAllFallbacks
    unfoldable pub resolve_fix_all_fallbacks : CodeAction → CodeAction × List FormatError
    resolve_fix_all_fallbacks action = elim action.resolved_for [
      | none ↦ (action, [])
      | some uri ↦ elim (document uri) [
        | none ↦ (action, [])
        | some doc ↦ elim (parse_css doc.content doc.language_id) [
          | err e ↦ (action, [])
          | panicked ↦ (action, [])
          | ok none ↦ (action, [])
          | ok (some vs) ↦
              let (edits, warnings) = fix_all_edits vs in
              (record action { edit = some (uri, edits) }, warnings)
        ]
      ]
    ]

    -- CodeActionResolve
    unfoldable pub code_action_resolve : CodeAction → CodeAction × List FormatError
    code_action_resolve action =
        if str_eq action.title (ascii "Fix all token fallback values")
        then resolve_fix_all_fallbacks action
        else (action, [])
