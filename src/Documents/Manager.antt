-- ===== src/Documents/Manager.antt =====
-- internal/documents/manager.go: the map of open documents. Each method runs under the lock, so a
-- history of calls is a sequence; errors are returned and leave a state too.
pub mod Laws
pub mod History
use design_tokens_language_s.Prelude.{ℕ, Option, none, some, List, [], ◌∷◌, map}
use design_tokens_language_s.Ints.{ℤ}
use design_tokens_language_s.GoString.{Bytes}
use design_tokens_language_s.GoMap.{GoMap, lookup, insert, delete}
use design_tokens_language_s.Outcome.{Outcome, ok, err, panicked}
use design_tokens_language_s.Documents.Document.{Document, StaleUpdate, new_document, set_content}
use design_tokens_language_s.Documents.Change.{ChangeError, ContentChange, apply_changes}

abbrev pub Manager : Type 0
Manager = GoMap Document

pub data ManagerError : Type 0 where
  document_not_found : Bytes → ManagerError
  failed_to_apply_changes : ChangeError → ManagerError
  failed_to_set_content : StaleUpdate → ManagerError

-- What a method returns, and the documents as it leaves them.
abbrev pub Method : Type 0
Method = Manager → Outcome ManagerError (Unit {0}) × Manager

-- NewManager
abbrev pub new_manager : Manager
new_manager = []

-- Get: `none` stands for nil
unfoldable pub get : Bytes → Manager → Option Document
get uri m = lookup uri m

-- GetAll
unfoldable pub get_all : Manager → List Document
get_all m = map (λ e. e.1) m

-- DidOpen: an open document of the same URI is replaced
unfoldable pub did_open : Bytes → Bytes → ℤ → Bytes → Method
did_open uri language_id version content m =
    (ok tt, insert uri (new_document uri language_id version content) m)

-- DidClose
unfoldable pub did_close : Bytes → Method
did_close uri m = elim (lookup uri m) [
  | none ↦ (err (document_not_found uri), m)
  | some d ↦ (ok tt, delete uri m)
]

-- SetContent on the document that the map holds, and the error it is wrapped in
set_document : Bytes → Bytes → ℤ → Document → Method
set_document uri content version d m = elim (set_content content version d) [
  | ok d' ↦ (ok tt, insert uri d' m)
  | err e ↦ (err (failed_to_set_content e), m)
  | panicked ↦ (panicked, m)
]

-- DidChange, once the document is found
change_document : Bytes → ℤ → List ContentChange → Document → Method
unfolding set_document
change_document uri version changes d m = elim (apply_changes d.content changes) [
  | ok content ↦ set_document uri content version d m
  | err e ↦ (err (failed_to_apply_changes e), m)
  | panicked ↦ (panicked, m)
]

-- DidChange
unfoldable pub did_change : Bytes → ℤ → List ContentChange → Method
unfolding change_document
did_change uri version changes m = elim (lookup uri m) [
  | none ↦ (err (document_not_found uri), m)
  | some d ↦ change_document uri version changes d m
]
