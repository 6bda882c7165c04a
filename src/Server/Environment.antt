-- ===== src/Server/Environment.antt =====
-- What the server calls outside of its repository: the file system, the network, the packages of Go,
-- and the libraries asimonim, tree-sitter and yaml.
use design_tokens_language_s.Prelude.{Bool, Option, List}
use design_tokens_language_s.Ints.{ℤ}
use design_tokens_language_s.Outcome.{Outcome}
use design_tokens_language_s.GoString.{Bytes}
use design_tokens_language_s.Json.{Json, Fields}
use design_tokens_language_s.Schema.{SchemaVersion}
use design_tokens_language_s.Documents.Document.{Document}
use design_tokens_language_s.Tokens.{Token}
use design_tokens_language_s.SemanticTokens.Encode.{SemanticToken}
use design_tokens_language_s.Features.{VarCall}
use design_tokens_language_s.Paths.{FilePath}
use design_tokens_language_s.Paths.Npm.{FileSystem}
use design_tokens_language_s.Paths.Uri
use design_tokens_language_s.Server.{ServerConfig, TokenFileOptions}

pub record Environment : Type 0 where
  pub files : FilePath
  pub system : FileSystem
  pub go : Uri.Library
  -- filepath.Dir, os.ReadFile
  pub dir : Bytes → Bytes
  pub read_file : Bytes → Option Bytes
  -- ReadPackageJsonConfig: an error (`none`), no configuration, or one
  pub package_json_config : Bytes → Option (Option ServerConfig)
  -- strings.ToLower
  pub to_lower : Bytes → Bytes
  -- JSONParser.Parse of asimonim
  pub parse_tokens : Bytes → TokenFileOptions → Option (List Token)
  -- ResolveAliases of asimonim: what a token becomes among all the tokens
  pub resolve_alias : SchemaVersion → List Token → Token → Token
  -- ExtractSourcePaths of asimonim, on the content and the directory of a resolver document
  pub extract_source_paths : Bytes → Bytes → Option (List Bytes)
  -- IsPackageSpecifier and CDNURL of asimonim, with the name of the provider
  pub is_package_specifier : Bytes → Bool
  pub cdn_url : Bytes → Bytes → Option Bytes
  -- Fetch of asimonim's load.HTTPFetcher: seconds until the timeout, and the URL
  pub fetch : ℤ → Bytes → Option Bytes
  pub default_timeout : ℤ
  -- Token.CSSVariableName of asimonim
  pub css_variable_name : Token → Bytes
  -- the parsers for documents, over tree-sitter: an error, no result, or the var() calls
  pub parse_css : Bytes → Bytes → Outcome Bytes (Option (List VarCall))
  -- yaml.Unmarshal into a map
  pub unmarshal : Bytes → Option Fields
  -- json.Unmarshal of a marshalled value into a ServerConfig that has values already
  pub unmarshal_config : Json → ServerConfig → Option ServerConfig
  -- GetSemanticTokensForDocument, with the regular expressions it matches
  pub get_semantic_tokens_for_document : Document → List SemanticToken
