-- ===== src/Features/Diagnostics.antt =====
-- lsp/methods/textDocument/diagnostic/diagnostic.go: GetDiagnostics.
pub mod Clean
use design_tokens_language_s.Prelude.{
  ℕ, Bool, true, false, not, ◌&&◌, Option, none, some, List, [], ◌∷◌, ◌++◌, if◌then◌else◌,
}
use design_tokens_language_s.Outcome.{Outcome, ok, err, panicked}
use design_tokens_language_s.GoString.{Bytes, ascii, str_eq}
use design_tokens_language_s.Tokens.{Token}
use design_tokens_language_s.Documents.Document.{Document}
use design_tokens_language_s.Documents.Change.{Range}
use design_tokens_language_s.CssValues.{without_blanks}
use design_tokens_language_s.Features.{VarCall, is_css_supported_language}
use design_tokens_language_s.Features.Definition.{target_range}

pub data Severity : Type 0 where
  error_severity information_severity : Severity

-- protocol.DiagnosticRelatedInformation
pub record RelatedInformation : Type 0 where
  pub uri : Bytes
  pub range : Range
  pub message : Bytes

-- protocol.Diagnostic; `deprecated` says that its tags are DiagnosticTagDeprecated
pub record Diagnostic : Type 0 where
  pub range : Range
  pub severity : Severity
  pub message : Bytes
  pub deprecated : Bool
  pub related_information : Option RelatedInformation

-- isCSSValueSemanticallyEquivalent of this package: the same text as the helper's
unfoldable pub is_equivalent : (Bytes → Bytes) → Bytes → Bytes → Bool
is_equivalent to_lower a b = str_eq (to_lower (without_blanks a)) (to_lower (without_blanks b))

-- the message of the first diagnostic
unfoldable pub deprecation_message_of : Bytes → Token → Bytes
deprecation_message_of name t =
    let message = name ++ ascii " is deprecated" in
    if not (str_eq t.deprecation_message [])
    then message ++ (ascii ": " ++ t.deprecation_message)
    else message

-- An option as a list of one element or none.
abbrev pub listed {ℓ} : {A : Type ℓ} → Option A → List A
listed none = []
listed (some x) = x ∷ []

module _ (to_lower : Bytes → Bytes) (css_variable_name : Token → Bytes)
    (token_named : Bytes → Option Token) (supports_related_info : Bool) where
  -- the diagnostic of a deprecated token
  unfoldable pub deprecation : VarCall → Token → Option Diagnostic
  deprecation v t =
      if t.deprecated
      then some (record {
        range = v.range;
        severity = information_severity;
        message = deprecation_message_of v.token_name t;
        deprecated = true;
        related_information =
            if supports_related_info && not (str_eq t.definition_uri [])
            then some (record {
              uri = t.definition_uri;
              range = target_range t;
              message = ascii "Token " ++ (css_variable_name t ++ ascii " defined here");
            })
            else none;
      })
      else none

  -- the diagnostic of a fallback that differs
  unfoldable pub wrong_fallback : VarCall → Token → Option Diagnostic
  wrong_fallback v t = elim v.fallback [
    | none ↦ none
    | some fallback ↦
        if not (is_equivalent to_lower fallback t.value)
        then some (record {
          range = v.range;
          severity = error_severity;
          message = ascii "Token fallback does not match expected value: " ++ t.value;
          deprecated = false;
          related_information = none;
        })
        else none
  ]

  -- one round of the loop over result.VarCalls
  unfoldable pub diagnose : VarCall → List Diagnostic
  diagnose v = elim (token_named v.token_name) [
    | none ↦ []
    | some t ↦ listed (deprecation v t) ++ listed (wrong_fallback v t)
  ]

  unfoldable pub diagnose_all : List VarCall → List Diagnostic
  diagnose_all [] = []
  diagnose_all (v ∷ vs) = diagnose v ++ diagnose_all vs

  module _ {E : Type 0} (document : Bytes → Option Document)
      (parse_css : Bytes → Bytes → Outcome E (Option (List VarCall))) where
    -- GetDiagnostics
    unfoldable pub get_diagnostics : Bytes → Outcome E (List Diagnostic)
    get_diagnostics uri = elim (document uri) [
      | none ↦ ok []
      | some doc ↦
          if not (is_css_supported_language doc.language_id)
          then ok []
          else elim (parse_css doc.content doc.language_id) [
            | err e ↦ err e
            | panicked ↦ panicked
            | ok none ↦ ok []
            | ok (some var_calls) ↦ ok (diagnose_all var_calls)
          ]
    ]
