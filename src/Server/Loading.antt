-- ===== src/Server/Loading.antt =====
-- lsp/tokens.go, lsp/resolver_doc.go and the loading in lsp/configuration.go: which tokens the server
-- holds. The errors of a call are a list: the empty one stands for nil, and errors.Join appends.
pub mod Frame
pub mod Reload
use design_tokens_language_s.Prelude.{
  ℕ, suc, Bool, true, false, not, ◌&&◌, ◌||◌, Option, none, some, List, [], ◌∷◌, ◌++◌, ◌==◌, map,
  if◌then◌else◌,
}
use design_tokens_language_s.Outcome.{Outcome, ok, err, panicked}
use design_tokens_language_s.GoString.{Bytes, ascii, str_eq}
use design_tokens_language_s.GoMap.{GoMap, insert}
use design_tokens_language_s.Json.{Json}
use design_tokens_language_s.Schema.{SchemaVersion, unknown, draft, version_eq}
use design_tokens_language_s.Tokens
use design_tokens_language_s.Tokens.{Token, TokenError, add, clear, get_all}
use design_tokens_language_s.Documents.TokenFile.{present}
use design_tokens_language_s.Paths.Npm.{PathError, normalize_path}
use design_tokens_language_s.Paths.Uri.{path_to_uri, uri_to_path}
use design_tokens_language_s.Server.{ServerConfig, TokenFileOptions, Server}
use design_tokens_language_s.Server.Config.{
  ItemError, TokenFileItem, parse_token_file_item, network_timeout,
}
use design_tokens_language_s.Server.Environment.{Environment}
use design_tokens_language_s.Server.Files.{elements, has_token_extension}

pub data LoadError : Type 0 where
  unsupported_file_type failed_to_read parse_failed no_cdn_url fetch_failed
        failed_to_extract_sources :
      Bytes → LoadError
  failed_to_add : TokenError → LoadError
  bad_item : ItemError → LoadError
  failed_to_resolve : PathError → LoadError

-- What a method on the server returns, and the server as it leaves it.
abbrev pub Loads : Type 0
Loads = Server → List LoadError × Server

-- detectSchemaVersion
unfoldable pub detect_schema_version : List Token → SchemaVersion
detect_schema_version [] = draft
detect_schema_version (t ∷ ts) =
    let rest = detect_schema_version ts in
    if not (version_eq t.schema_version unknown) then t.schema_version else rest

-- &TokenFileOptions{}
abbrev pub no_options : TokenFileOptions
no_options = record { prefix = []; group_markers = [] }

-- A call, and the next one on what it leaves.
abbrev pub then_load : Loads → Loads → Loads
then_load first next s =
    let (errors, s1) = first s in let (more, s2) = next s1 in (errors ++ more, s2)

-- the loop of parseAndAddTokens: how many were added, and the errors
unfoldable pub add_all :
    Bytes → Bytes → List Token → Tokens.Manager → (ℕ × List LoadError) × Tokens.Manager
add_all file_path file_uri [] m = ((0, []), m)
add_all file_path file_uri (t ∷ ts) m =
    let (added, m1) =
      add (some (record t { file_path = file_path; definition_uri = file_uri })) m in
    let ((count, errors), m2) = add_all file_path file_uri ts m1 in
    elim added [
      | ok u ↦ ((suc count, errors), m2)
      | err e ↦ ((count, failed_to_add e ∷ errors), m2)
      | panicked ↦ ((count, errors), m2)
    ]

-- the file is tracked if there was no error
unfoldable pub track : Bytes → TokenFileOptions → List LoadError → Server → Server
track clean_path opts [] s = record s { loaded_files = insert clean_path opts s.loaded_files }
track clean_path opts (e ∷ errors) s = s

-- the errors of loadFromCDN count only if it added nothing
unfoldable pub cdn_errors : ℕ × List LoadError → List LoadError
cdn_errors (count, errors) = if count == 0 then errors else []

-- a loop whose round is a call on the server
unfoldable pub load_each {ℓ} : {A : Type ℓ} → (A → Loads) → List A → Loads
load_each load [] s = ([], s)
load_each load (x ∷ xs) s = then_load (load x) (load_each load xs) s

module _ (env : Environment) where
  -- parseAndAddTokens
  unfoldable pub parse_and_add_tokens :
      Bytes → Bytes → Bytes → TokenFileOptions → Server → (ℕ × List LoadError) × Server
  parse_and_add_tokens content file_path file_uri opts s = elim (env.parse_tokens content opts) [
    | none ↦ ((0, parse_failed file_path ∷ []), s)
    | some ts ↦
        let (added, m) = add_all file_path file_uri ts s.tokens in (added, record s { tokens = m })
  ]

  -- ResolveAllTokens
  unfoldable pub resolve_all_tokens : Server → Server
  resolve_all_tokens s =
      let all = get_all s.tokens in
      record s {
        tokens = map (λ e. (e.0, env.resolve_alias (detect_schema_version all) all e.1)) s.tokens;
      }

  -- loadTokenFileInternal
  unfoldable pub load_token_file_internal : Bytes → TokenFileOptions → Loads
  load_token_file_internal file_path opts s =
      if not (has_token_extension (env.to_lower (env.files.ext file_path)))
      then (unsupported_file_type file_path ∷ [], s)
      else elim (env.read_file (env.files.clean file_path)) [
        | none ↦ (failed_to_read file_path ∷ [], s)
        | some content ↦
            let (added, s1) =
              parse_and_add_tokens content file_path (path_to_uri env.go file_path) opts s in
            (added.1, s1)
      ]

  -- LoadTokenFileWithOptions, and loadTokenFileAndLog
  unfoldable pub load_token_file_with_options : Bytes → TokenFileOptions → Loads
  load_token_file_with_options file_path opts s =
      let (errors, s1) = load_token_file_internal file_path opts s in
      (errors, track (env.files.clean file_path) opts errors s1)

  -- LoadTokenFile
  unfoldable pub load_token_file : Bytes → Bytes → Loads
  load_token_file file_path prefix =
      load_token_file_with_options file_path (record { prefix = prefix; group_markers = [] })

  -- loadFromCDN
  unfoldable pub load_from_cdn :
      Bytes → TokenFileOptions → ServerConfig → Server → (ℕ × List LoadError) × Server
  load_from_cdn spec_path opts cfg s = elim (env.cdn_url spec_path cfg.cdn) [
    | none ↦ ((0, no_cdn_url spec_path ∷ []), s)
    | some url ↦ elim (env.fetch (network_timeout env.default_timeout cfg) url) [
      | none ↦ ((0, fetch_failed url ∷ []), s)
      | some content ↦ parse_and_add_tokens content [] url opts s
    ]
  ]

  -- a path is resolved, and its file loaded; an error in that is tried on the CDN
  unfoldable pub load_path : ServerConfig → Bytes → Bytes → TokenFileOptions → Loads
  load_path cfg root path opts s = elim (normalize_path env.files env.system path root) [
    | ok normalized_path ↦ load_token_file_with_options normalized_path opts s
    | panicked ↦ ([], s)
    | err e ↦
        if cfg.network_fallback && env.is_package_specifier path
        then (let (added, s1) = load_from_cdn path opts cfg s in (cdn_errors added, s1))
        else (failed_to_resolve e ∷ [], s)
  ]

  -- one round of the loop of loadExplicitTokenFiles
  unfoldable pub load_item : ServerConfig → Bytes → Json → Loads
  load_item cfg root entry s = elim (parse_token_file_item entry cfg.prefix cfg.group_markers) [
    | err e ↦ (bad_item e ∷ [], s)
    | panicked ↦ ([], s)
    | ok parsed ↦
        if str_eq parsed.path []
        then ([], s)
        else load_path cfg root parsed.path
            (record { prefix = parsed.prefix; group_markers = parsed.group_markers }) s
  ]

  -- loadExplicitTokenFiles
  unfoldable pub load_explicit_token_files : Loads
  load_explicit_token_files s =
      load_each (load_item s.config s.root_path) (elements s.config.tokens_files) s

  -- loadResolverDocument
  unfoldable pub load_resolver_document : Bytes → TokenFileOptions → Loads
  load_resolver_document resolver_path opts s =
      elim (env.read_file (env.files.clean resolver_path)) [
        | none ↦ (failed_to_read resolver_path ∷ [], s)
        | some content ↦ elim (env.extract_source_paths content (env.dir resolver_path)) [
          | none ↦ (failed_to_extract_sources resolver_path ∷ [], s)
          | some source_paths ↦
              load_each (λ path. load_path s.config s.root_path path opts) source_paths s
        ]
      ]

  -- one round of the loop of loadResolverDocuments
  unfoldable pub load_resolver : ServerConfig → Bytes → Bytes → Loads
  load_resolver cfg root resolver_path s =
      elim (normalize_path env.files env.system resolver_path root) [
        | err e ↦ (failed_to_resolve e ∷ [], s)
        | panicked ↦ ([], s)
        | ok path ↦
            load_resolver_document path
              (record { prefix = cfg.prefix; group_markers = cfg.group_markers }) s
      ]

  -- loadResolverDocuments
  unfoldable pub load_resolver_documents : Loads
  load_resolver_documents s =
      load_each (load_resolver s.config s.root_path) (elements s.config.resolvers) s

  -- the end of reloadPreviouslyLoadedFiles: the aliases are resolved if there was no error
  unfoldable pub resolve_without_errors : List LoadError → Loads
  resolve_without_errors [] s = ([], resolve_all_tokens s)
  resolve_without_errors (e ∷ errors) s = (e ∷ errors, s)

  -- reloadPreviouslyLoadedFiles
  unfoldable pub reload_previously_loaded_files : Loads
  reload_previously_loaded_files s =
      let (errors, s1) =
        load_each (λ (e : Bytes × TokenFileOptions). load_token_file_internal e.0 e.1)
          s.loaded_files (record s { tokens = clear s.tokens }) in
      resolve_without_errors errors s1

  -- the files that were loaded before are loaded again, if there are any
  unfoldable pub reload_if_loaded : GoMap TokenFileOptions → Loads
  reload_if_loaded [] s = ([], s)
  reload_if_loaded (e ∷ loaded) s = reload_previously_loaded_files s

  -- LoadTokensFromConfig
  unfoldable pub load_tokens_from_config : Loads
  load_tokens_from_config s =
      if present s.config.tokens_files || present s.config.resolvers
      then (let (errors, s1) =
            then_load load_explicit_token_files load_resolver_documents
              (record s { tokens = clear s.tokens }) in
          (errors, resolve_all_tokens s1))
      else reload_if_loaded s.loaded_files s

  -- the aliases are resolved if a token was added
  unfoldable pub resolve_if_added : (ℕ × List LoadError) × Server → List LoadError × Server
  resolve_if_added ((count, errors), s) = (errors, if count == 0 then s else resolve_all_tokens s)

  -- LoadTokensFromJSON
  unfoldable pub load_tokens_from_json : Bytes → Bytes → Loads
  load_tokens_from_json content prefix s =
      resolve_if_added
        (parse_and_add_tokens content [] [] (record { prefix = prefix; group_markers = [] }) s)

  -- LoadTokensFromDocumentContent
  unfoldable pub load_tokens_from_document_content : Bytes → Bytes → Bytes → Loads
  load_tokens_from_document_content uri language_id content s =
      if str_eq language_id (ascii "json") || str_eq language_id (ascii "yaml")
      then resolve_if_added (parse_and_add_tokens content (uri_to_path env.go uri) uri no_options s)
      else ([], s)
