-- ===== src/Documents.antt =====
-- internal/documents: the open documents, their incremental changes and the manager.
pub mod TokenFile
pub mod Document
pub mod Change
pub mod Manager
