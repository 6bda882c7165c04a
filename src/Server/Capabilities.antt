-- ===== src/Server/Capabilities.antt =====
-- lsp/server.go: what the client says that it supports.
use design_tokens_language_s.Prelude.{Bool, true, false, Option, none, some, List, [], ◌∷◌}
use design_tokens_language_s.Server.{Server, MarkupKind, markdown, TextDocumentCapabilities}

-- s.clientCapabilities.TextDocument, with its tests for nil
unfoldable pub text_document_of : Server → Option TextDocumentCapabilities
text_document_of s = elim s.client_capabilities [ none ↦ none | some caps ↦ caps.text_document ]

-- *p, or false if p is nil
abbrev pub or_false : Option Bool → Bool
or_false none = false
or_false (some b) = b

-- SupportsSnippets
unfoldable pub supports_snippets : Server → Bool
supports_snippets s = elim (text_document_of s) [
  | none ↦ false
  | some t ↦ elim t.completion [
    | none ↦ false
    | some c ↦ elim c.completion_item [ none ↦ false | some i ↦ or_false i.snippet_support ]
  ]
]

-- content_format[0], or Markdown if there is none
abbrev pub first_format : List MarkupKind → MarkupKind
first_format [] = markdown
first_format (k ∷ ks) = k

-- PreferredHoverFormat
unfoldable pub preferred_hover_format : Server → MarkupKind
preferred_hover_format s = elim (text_document_of s) [
  | none ↦ markdown
  | some t ↦ elim t.hover [ none ↦ markdown | some h ↦ first_format h.content_format ]
]

-- SupportsDefinitionLinks
unfoldable pub supports_definition_links : Server → Bool
supports_definition_links s = elim (text_document_of s) [
  | none ↦ false
  | some t ↦ elim t.definition [ none ↦ false | some d ↦ or_false d.link_support ]
]

-- SupportsDiagnosticRelatedInfo
unfoldable pub supports_diagnostic_related_info : Server → Bool
supports_diagnostic_related_info s = elim (text_document_of s) [
  | none ↦ false
  | some t ↦ elim t.publish_diagnostics [ none ↦ false | some p ↦ or_false p.related_information ]
]

-- SupportsCodeActionLiterals
unfoldable pub supports_code_action_literals : Server → Bool
supports_code_action_literals s = elim (text_document_of s) [
  | none ↦ false
  | some t ↦ elim t.code_action [
    | none ↦ false
    | some c ↦ elim c.code_action_literal_support [ none ↦ false | some _ ↦ true ]
  ]
]
