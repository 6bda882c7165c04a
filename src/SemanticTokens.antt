-- ===== src/SemanticTokens.antt =====
-- lsp/methods/textDocument/semanticTokens: extraction, delta encoding, edits and the cache.
pub mod Delta
pub mod Cache
pub mod Encode
pub mod Extract
pub mod Handlers
