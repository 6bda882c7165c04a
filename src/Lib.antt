-- ===== src/Lib.antt =====
-- Design tokens language server: the logic behind the protocol's messages.
--
-- The server keeps the open documents (internal/documents), which the editor changes by ranges in
-- UTF-16 columns (internal/position), and the tokens of the loaded files (internal/tokens). On
-- request it computes the semantic tokens of a document, encodes them as differences, keeps the last
-- data of each document in a cache, and sends edits against it (lsp/methods/textDocument/semanticTokens).
-- The server (lsp) holds these parts together: a notification changes the documents, drops what is
-- cached for a closed document, loads the tokens that the configuration names again, and pushes
-- diagnostics unless the client pulls them. The methods of Documents.Manager, Tokens and
-- SemanticTokens.Cache are what Server.Notifications and Server.Session call.
--
--   Prelude        the names that all modules share, tests and lists over the native numbers
--   Ints           Go's int, where a value may be negative
--   Outcome        results of calls that may return an error or panic
--   GoString       byte strings and the functions of package strings that the code calls
--   GoMap          a Go map with string keys, as an association list without a second key
--   Utf8           decoding of runes by the rules of packages unicode/utf8 and unicode/utf16
--   Position       internal/position/utf16.go: UTF16ToByteOffset, ByteOffsetToUTF16, StringLengthUTF16
--   Documents      internal/documents: Document (document.go), Change (the incremental changes of
--                  manager.go) and Manager (DidOpen, DidChange, DidClose)
--   Schema         internal/schema/version.go: the versions
--   Tokens         internal/tokens/manager.go: every method of the manager, with asimonim's
--                  CSSVariableName as a parameter
--   SemanticTokens lsp/methods/textDocument/semanticTokens: Extract (schema_aware.go), Encode and
--                  Handlers (semanticTokens.go), Delta (delta.go), Cache (cache.go)
--   Ranges         lsp/helpers/ranges.go: RangesIntersect and PositionToUTF16
--   CssValues      lsp/helpers/css/helpers.go: which token values may go into CSS, and their comparison
--   Features       lsp/methods/textDocument: Definition (definition/definition.go), Diagnostics
--                  (diagnostic/diagnostic.go), Completion (completion/completion.go), References
--                  (references/references.go), CodeActions (codeAction) and Hover (hover/hover.go),
--                  with the CSS parser's result as a parameter
--   Json           decoded JSON and YAML
--   Paths          lsp/path.go (Npm: the lookup of packages) and internal/uriutil/convert.go (Uri)
--   Server         lsp/server.go, lsp/types: the state that the handlers share, with Capabilities,
--                  Files (which files are token files), Config (lsp/configuration.go,
--                  didChangeConfiguration.go), Loading (lsp/tokens.go, lsp/resolver_doc.go and the
--                  loading in lsp/configuration.go), Notifications (lifecycle.go,
--                  didChangeWatchedFiles.go, initialize.go, initialized.go), Middleware
--                  (lsp/middleware.go), Session (lsp/custom_handler.go: the handlers as steps) and
--                  Environment (what the server calls outside of its repository)
--   Tests          runs at concrete inputs
--
-- A method that runs under a lock is one step from a state to a state. Strings are lists of bytes.
-- Loops over a string or a slice run on fuel, the length of what they go through, since each round
-- passes an element at least. A Go int is an integer without a bound where only sizes of texts and
-- differences of lines and columns are stored in it; conversions to uint32 wrap around. The cache's
-- counter is taken modulo 2 ^ 64; the theorems on new result IDs ask that it has not come to its end.
-- The order in which a Go map is run through is that of the association list, which is arbitrary.
--
-- What regular expressions, the CSS parser, asimonim and the functions of Go's text packages beyond
-- single bytes return is a parameter of the definitions that use it.
--
-- The search of References runs on a fuel of one round more than the line has bytes: each round that
-- finds the text goes on behind it. Its columns are modelled as the code computes them, in bytes.
--
-- Not modelled: the parsers and document colours, since they walk over the results of third-party
-- libraries; the references and definitions within token files; the discovery of token files by glob
-- patterns, and the reading of package.json and of asimonim's configuration file, which is a
-- parameter; the templates that a hover renders; logging and transport. The handlers run one at a
-- time: what two of them do between their locks is not interleaved.
mod Prelude
pub mod Ints
pub mod Outcome
pub mod GoString
pub mod GoMap
pub mod Utf8
pub mod Position
pub mod Documents
mod Tests
pub mod Json
pub mod Schema
pub mod Tokens
pub mod SemanticTokens
pub mod Ranges
pub mod CssValues
pub mod Paths
pub mod Features
pub mod Server
