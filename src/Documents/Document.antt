-- ===== src/Documents/Document.antt =====
-- internal/documents/document.go
use design_tokens_language_s.Prelude.{if◌then◌else◌}
use design_tokens_language_s.Ints.{ℤ, ltb_ℤ}
use design_tokens_language_s.GoString.{Bytes}
use design_tokens_language_s.Outcome.{Outcome, ok, err}

pub record Document : Type 0 where
  pub uri : Bytes
  pub language_id : Bytes
  pub content : Bytes
  pub version : ℤ

-- NewDocument
unfoldable pub new_document : Bytes → Bytes → ℤ → Bytes → Document
new_document uri language_id version content = record {
  uri = uri;
  language_id = language_id;
  content = content;
  version = version;
}

-- "rejected stale update", with the document's version and the update's
pub data StaleUpdate : Type 0 where
  stale : ℤ → ℤ → StaleUpdate

-- SetContent: the document as it is left is the result.
unfoldable pub set_content : Bytes → ℤ → Document → Outcome StaleUpdate Document
set_content content version d =
    if ltb_ℤ version d.version
    then err (stale d.version version)
    else ok (record d { content = content; version = version })
