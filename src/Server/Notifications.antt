-- ===== src/Server/Notifications.antt =====
-- lsp/methods/textDocument/lifecycle.go, lsp/methods/workspace/didChangeWatchedFiles.go and
-- didChangeConfiguration.go, lsp/methods/lifecycle/initialize.go and initialized.go, and
-- PublishDiagnostics of lsp/server.go: what a notification does to the server, and what is sent to
-- the client.
pub mod Pull
use design_tokens_language_s.Prelude.{
  Bool, true, false, not, ◌&&◌, ◌||◌, Option, none, some, List, [], ◌∷◌, ◌++◌, if◌then◌else◌,
}
use design_tokens_language_s.Ints.{ℤ}
use design_tokens_language_s.Outcome.{Outcome, ok, err, panicked}
use design_tokens_language_s.GoString.{Bytes, ascii, str_eq}
use design_tokens_language_s.Json.{Json}
use design_tokens_language_s.Documents
use design_tokens_language_s.Documents.Change.{ContentChange}
use design_tokens_language_s.Documents.Document.{Document}
use design_tokens_language_s.Documents.Manager.{ManagerError}
use design_tokens_language_s.Documents.TokenFile.{is_design_tokens_schema, looks_like_dtcg_content}
use design_tokens_language_s.Tokens
use design_tokens_language_s.SemanticTokens.Cache.{invalidate}
use design_tokens_language_s.Features.Diagnostics.{Diagnostic, get_diagnostics}
use design_tokens_language_s.Paths.Uri.{path_to_uri, uri_to_path}
use design_tokens_language_s.Server.{ClientCapabilities, Server}
use design_tokens_language_s.Server.Capabilities.{supports_diagnostic_related_info}
use design_tokens_language_s.Server.Config.{parse_configuration, load_package_json_config}
use design_tokens_language_s.Server.Environment.{Environment}
use design_tokens_language_s.Server.Files.{
  is_token_file, remove_loaded_file, register_file_watchers,
}
use design_tokens_language_s.Server.Loading.{
  load_tokens_from_config, load_tokens_from_document_content,
}

-- What the server sends to the client.
pub data Message : Type 0 where
  publish : Bytes → List Diagnostic → Message
  register_watchers : List Bytes → Message

pub data PublishError : Type 0 where
  no_client_context : PublishError
  no_diagnostics : Bytes → PublishError

-- What a notification's handler returns, the server as it leaves it, and the messages it sends.
abbrev pub Notified : Type 0
Notified = Outcome ManagerError (Unit {0}) × Server × List Message

-- protocol.FileEvent
pub data FileChangeType : Type 0 where
  file_created file_changed file_deleted : FileChangeType

pub record FileEvent : Type 0 where
  pub uri : Bytes
  pub type : FileChangeType

abbrev pub is_deleted : FileChangeType → Bool
is_deleted file_deleted = true
is_deleted _ = false

-- the parts of protocol.InitializeParams that are read
pub record InitializeParams : Type 0 where
  pub capabilities : ClientCapabilities
  pub root_uri : Option Bytes
  pub root_path : Option Bytes

-- a message is only sent if there is no error
abbrev pub sent : Outcome PublishError (List Message) → List Message
sent (ok messages) = messages
sent (err e) = []
sent panicked = []

-- *detectedCapability, or false
abbrev pub detected : Option Bool → Bool
detected none = false
detected (some b) = b

-- TokenManager().Clear(), if a file was deleted
unfoldable pub clear_if : Bool → Server → Server
clear_if has_deleted s = if has_deleted then record s { tokens = Tokens.clear s.tokens } else s

module _ (env : Environment) where
  -- diagnostic.GetDiagnostics on the server
  abbrev pub diagnostics_of : Bytes → Server → Outcome Bytes (List Diagnostic)
  diagnostics_of uri s =
      get_diagnostics env.to_lower env.css_variable_name
        (λ name. Tokens.get env.css_variable_name name s.tokens)
        (supports_diagnostic_related_info s) (λ u. Documents.Manager.get u s.documents)
        env.parse_css uri

  -- PublishDiagnostics, with a context or without
  unfoldable pub publish_diagnostics : Bool → Bytes → Server → Outcome PublishError (List Message)
  publish_diagnostics context uri s =
      if not (context || s.has_context)
      then err no_client_context
      else if s.use_pull_diagnostics
      then ok []
      else elim (diagnostics_of uri s) [
        | err e ↦ err (no_diagnostics e)
        | panicked ↦ panicked
        | ok diagnostics ↦ ok (publish uri diagnostics ∷ [])
      ]

  -- diagnostics are pushed unless the client pulls them
  unfoldable pub push : Bool → Bytes → Server → List Message
  push context uri s =
      if not s.use_pull_diagnostics && context then sent (publish_diagnostics context uri s) else []

  -- the loop over AllDocuments
  unfoldable pub push_all : Bool → List Document → Server → List Message
  push_all context [] s = []
  push_all context (doc ∷ docs) s = push context doc.uri s ++ push_all context docs s

  -- tokens of a document that looks like a token file are loaded
  unfoldable pub auto_load : Bytes → Bytes → Bytes → Server → Server
  auto_load uri language_id content s =
      if (str_eq language_id (ascii "json") || str_eq language_id (ascii "yaml"))
        && (is_design_tokens_schema env.unmarshal content
            || looks_like_dtcg_content env.unmarshal content)
      then (load_tokens_from_document_content env uri language_id content s).1
      else s

  -- DidOpen
  unfoldable pub did_open : Bytes → Bytes → ℤ → Bytes → Server → Notified
  did_open uri language_id version content s =
      let (opened, documents) =
        Documents.Manager.did_open uri language_id version content s.documents in
      let s1 = record s { documents = documents } in
      let s2 = auto_load uri language_id content s1 in
      elim opened [
        | err e ↦ (err e, s1, [])
        | panicked ↦ (panicked, s1, [])
        | ok u ↦ (ok tt, s2, push s2.has_context uri s2)
      ]

  -- DidChange
  unfoldable pub did_change : Bytes → ℤ → List ContentChange → Server → Notified
  did_change uri version changes s =
      let (changed, documents) = Documents.Manager.did_change uri version changes s.documents in
      let s1 = record s { documents = documents } in
      elim changed [
        | err e ↦ (err e, s1, [])
        | panicked ↦ (panicked, s1, [])
        | ok u ↦ (ok tt, s1, push s1.has_context uri s1)
      ]

  -- DidClose
  unfoldable pub did_close : Bytes → Server → Notified
  did_close uri s =
      let (closed, documents) = Documents.Manager.did_close uri s.documents in
      (closed, record s { documents = documents; token_cache = invalidate uri s.token_cache }, [])

  -- the loop over the file events: does it reload, is a file deleted, and the server
  unfoldable pub scan_events : List FileEvent → Server → (Bool × Bool) × Server
  scan_events [] s = ((false, false), s)
  scan_events (change ∷ changes) s =
      let path = uri_to_path env.go change.uri in
      let ((needs_reload, has_deleted), s1) =
        scan_events changes
          (if is_deleted change.type then remove_loaded_file env.files path s else s) in
      let untouched = scan_events changes s in
      if is_token_file env.files path s
      then ((true, is_deleted change.type || has_deleted), s1)
      else untouched

  -- LoadTokensFromConfig, and diagnostics of all documents
  unfoldable pub reload_and_push : Bool → Server → Server × List Message
  reload_and_push context s =
      let s1 = (load_tokens_from_config env s).1 in
      (s1, push_all context (Documents.Manager.get_all s1.documents) s1)

  -- DidChangeWatchedFiles
  unfoldable pub did_change_watched_files : List FileEvent → Server → Notified
  did_change_watched_files changes s =
      let ((needs_reload, has_deleted), s1) = scan_events changes s in
      let s2 = clear_if has_deleted s1 in
      let (s3, messages) = reload_and_push s2.has_context s2 in
      if needs_reload then (ok tt, s3, messages) else (ok tt, s1, [])

  -- DidChangeConfiguration, with a context or without
  unfoldable pub did_change_configuration : Bool → Json → Server → Notified
  did_change_configuration context settings s = elim (parse_configuration env settings) [
    | err e ↦ (ok tt, s, [])
    | panicked ↦ (panicked, s, [])
    | ok config ↦
        let (s1, messages) = reload_and_push context (record s { config = config }) in
        (ok tt, s1, messages)
  ]

  -- the root of the workspace
  unfoldable pub set_root : InitializeParams → Server → Server
  set_root params s = elim params.root_uri [
    | some uri ↦ record s { root_uri = uri; root_path = uri_to_path env.go uri }
    | none ↦ elim params.root_path [
      | some path ↦ record s { root_uri = path_to_uri env.go path; root_path = path }
      | none ↦ s
    ]
  ]

  -- Initialize: does it announce pull diagnostics, and the server
  unfoldable pub initialize : InitializeParams → Server → Bool × Server
  initialize params s =
      let pulls = detected s.client_diagnostic_capability in
      (
        pulls,
        set_root params (record s {
          client_capabilities = some params.capabilities;
          use_pull_diagnostics = pulls;
        }),
      )

  -- the request for watchers, if one is sent
  abbrev pub watch : Option (List Bytes) → List Message
  watch none = []
  watch (some patterns) = register_watchers patterns ∷ []

  -- Initialized, with a context or without
  unfoldable pub initialized : Bool → Server → Notified
  initialized context s =
      let s1 = (load_package_json_config env (record s { has_context = context })).1 in
      let s2 = (load_tokens_from_config env s1).1 in
      (ok tt, s2, watch (register_file_watchers env.files s2))
