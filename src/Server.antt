-- ===== src/Server.antt =====
-- lsp/server.go, lsp/types/config.go and lsp/types/context.go: the state of the server, which the
-- handlers share. A method that takes a lock is one step; a notification to the client is an output.
pub mod Capabilities
pub mod Environment
pub mod Files
pub mod Config
pub mod Loading
pub mod Notifications
pub mod Session
pub mod Middleware
use design_tokens_language_s.Prelude.{Bool, true, false, Option, none, some, List, [], ◌∷◌}
use design_tokens_language_s.Ints.{ℤ, pos}
use design_tokens_language_s.GoString.{Bytes, ascii}
use design_tokens_language_s.GoMap.{GoMap}
use design_tokens_language_s.Json.{Json}
use design_tokens_language_s.Documents
use design_tokens_language_s.Tokens
use design_tokens_language_s.SemanticTokens.Cache.{TokenCache, new_token_cache}

-- protocol.ClientCapabilities.TextDocument, the parts that the server reads; `none` stands for nil
pub record CompletionItemCapability : Type 0 where
  pub snippet_support : Option Bool

pub record CompletionCapability : Type 0 where
  pub completion_item : Option CompletionItemCapability

-- protocol.MarkupKind
pub data MarkupKind : Type 0 where
  plain_text markdown : MarkupKind

pub record HoverCapability : Type 0 where
  pub content_format : List MarkupKind

pub record DefinitionCapability : Type 0 where
  pub link_support : Option Bool

pub record PublishDiagnosticsCapability : Type 0 where
  pub related_information : Option Bool

pub record CodeActionCapability : Type 0 where
  pub code_action_literal_support : Option (Unit {0})

pub record TextDocumentCapabilities : Type 0 where
  pub completion : Option CompletionCapability
  pub hover : Option HoverCapability
  pub definition : Option DefinitionCapability
  pub publish_diagnostics : Option PublishDiagnosticsCapability
  pub code_action : Option CodeActionCapability

pub record ClientCapabilities : Type 0 where
  pub text_document : Option TextDocumentCapabilities

-- types.ServerConfig
pub record ServerConfig : Type 0 where
  -- `none` stands for nil, here and for the resolvers
  pub tokens_files : Option (List Json)
  pub resolvers : Option (List Bytes)
  pub prefix : Bytes
  pub group_markers : List Bytes
  pub group_markers_set : Bool
  pub network_fallback : Bool
  pub network_timeout : ℤ
  pub cdn : Bytes

-- DefaultConfig
abbrev pub default_config : ServerConfig
default_config = record {
  tokens_files = none;
  resolvers = none;
  prefix = [];
  group_markers = ascii "_" ∷ ascii "@" ∷ ascii "DEFAULT" ∷ [];
  group_markers_set = false;
  network_fallback = false;
  network_timeout = pos 0;
  cdn = [];
}

-- TokenFileOptions
pub record TokenFileOptions : Type 0 where
  pub prefix : Bytes
  pub group_markers : List Bytes

pub record Server : Type 0 where
  pub documents : Documents.Manager.Manager
  pub tokens : Tokens.Manager
  pub root_uri : Bytes
  pub root_path : Bytes
  pub config : ServerConfig
  pub loaded_files : GoMap TokenFileOptions
  pub client_diagnostic_capability : Option Bool
  pub client_capabilities : Option ClientCapabilities
  pub use_pull_diagnostics : Bool
  -- is there a connection to the client?
  pub has_context : Bool
  pub token_cache : TokenCache

-- the state that NewServer makes
abbrev pub new_server : Server
new_server = record {
  documents = Documents.Manager.new_manager;
  tokens = Tokens.new_manager;
  root_uri = [];
  root_path = [];
  config = default_config;
  loaded_files = [];
  client_diagnostic_capability = none;
  client_capabilities = none;
  use_pull_diagnostics = false;
  has_context = false;
  token_cache = new_token_cache;
}
