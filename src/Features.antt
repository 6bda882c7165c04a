-- ===== src/Features.antt =====
-- lsp/methods/textDocument: what the server answers for a position or a document of CSS. The parser's
-- result is a parameter, and so are asimonim's method CSSVariableName and the server's token lookup.
pub mod Definition
pub mod Diagnostics
pub mod Completion
pub mod References
pub mod CodeActions
pub mod Hover
use design_tokens_language_s.Prelude.{Bool, Option, List, [], ◌∷◌}
use design_tokens_language_s.GoString.{Bytes, ascii}
use design_tokens_language_s.Documents.Change.{Position, Range}
use design_tokens_language_s.CssValues.{has}

-- css.VarCall
pub record VarCall : Type 0 where
  pub fallback : Option Bytes
  pub token_name : Bytes
  pub range : Range

-- parser.IsCSSSupportedLanguage
unfoldable pub is_css_supported_language : Bytes → Bool
is_css_supported_language = has (
    ascii "css"
    ∷ ascii "html"
    ∷ ascii "javascript"
    ∷ ascii "javascriptreact"
    ∷ ascii "typescript"
    ∷ ascii "typescriptreact"
    ∷ [])

-- protocol.Location, and a range of no length at a token's definition
pub record Location : Type 0 where
  pub uri : Bytes
  pub range : Range
