-- ===== src/Server/Session.antt =====
-- lsp/server.go and lsp/custom_handler.go: a session of the server, as the sequence of the handlers
-- that it runs, one at a time.
pub mod Calm
pub mod Parts
pub mod Sound
use design_tokens_language_s.Prelude.{Bool, Option, none, some, List, [], ◌∷◌}
use design_tokens_language_s.Ints.{ℤ}
use design_tokens_language_s.Outcome.{Outcome}
use design_tokens_language_s.GoString.{Bytes}
use design_tokens_language_s.Json.{Json}
use design_tokens_language_s.Documents
use design_tokens_language_s.Documents.Change.{ContentChange}
use design_tokens_language_s.SemanticTokens.Handlers.{
  HandlerError, Reply, semantic_tokens_full, semantic_tokens_full_delta,
}
use design_tokens_language_s.Server.{Server}
use design_tokens_language_s.Server.Environment.{Environment}
use design_tokens_language_s.Server.Files.{should_process_as_token_file}
use design_tokens_language_s.Paths.Uri.{uri_to_path}
use design_tokens_language_s.Server.Notifications.{
  FileEvent, InitializeParams, did_open, did_change, did_close, did_change_watched_files,
  did_change_configuration, initialize, initialized,
}

-- A call of the client that changes the server's state.
pub data Event : Type 0 where
  -- the detected support for pull diagnostics, and the parameters
  initialize_request : Bool → InitializeParams → Event
  initialized_notice : Bool → Event
  opened : Bytes → Bytes → ℤ → Bytes → Event
  changed : Bytes → ℤ → List ContentChange → Event
  closed : Bytes → Event
  watched_files : List FileEvent → Event
  configured : Bool → Json → Event
  tokens_full : Bytes → Event
  tokens_delta : Bytes → Bytes → Event

module _ (env : Environment) where
  -- textDocument/semanticTokens/full on the server
  unfoldable pub request_full : Bytes → Server → Outcome HandlerError Reply × Server
  request_full uri s =
      let (reply, cache) =
        semantic_tokens_full (λ u. Documents.Manager.get u s.documents)
          (λ u. should_process_as_token_file env.files (uri_to_path env.go) env.unmarshal u s)
          env.get_semantic_tokens_for_document uri s.token_cache in
      (reply, record s { token_cache = cache })

  -- textDocument/semanticTokens/full/delta on the server
  unfoldable pub request_delta : Bytes → Bytes → Server → Outcome HandlerError Reply × Server
  request_delta uri previous_result_id s =
      let (reply, cache) =
        semantic_tokens_full_delta (λ u. Documents.Manager.get u s.documents)
          (λ u. should_process_as_token_file env.files (uri_to_path env.go) env.unmarshal u s)
          env.get_semantic_tokens_for_document uri previous_result_id s.token_cache in
      (reply, record s { token_cache = cache })

  -- CustomHandler.Handle: the server after a call
  unfoldable pub step : Event → Server → Server
  step (initialize_request pulls params) s =
      (initialize env params (record s { client_diagnostic_capability = some pulls })).1
  step (initialized_notice context) s = (initialized env context s).1
  step (opened uri language_id version content) s =
      (did_open env uri language_id version content s).1
  step (changed uri version changes) s = (did_change env uri version changes s).1
  step (closed uri) s = (did_close env uri s).1
  step (watched_files changes) s = (did_change_watched_files env changes s).1
  step (configured context settings) s = (did_change_configuration env context settings s).1
  step (tokens_full uri) s = (request_full uri s).1
  step (tokens_delta uri previous_result_id) s = (request_delta uri previous_result_id s).1

  unfoldable pub run : List Event → Server → Server
  run [] s = s
  run (e ∷ es) s = run es (step e s)
