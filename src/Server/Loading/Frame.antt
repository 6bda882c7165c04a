-- ===== src/Server/Loading/Frame.antt =====
-- What loading leaves alone, and that it keeps the tokens under their keys.
use design_tokens_language_s.Prelude.{
  ℕ, ◌==◌, ◌≡◌, refl, ap, ◌∙◌, ◌||◌, ◌&&◌, some, List, [], ◌∷◌, map, Bool-cases, Option-cases, inl,
  inr, if◌then◌else◌,
}
use design_tokens_language_s.Outcome.{Outcome-cases}
use design_tokens_language_s.GoString.{Bytes, ascii, str_eq}
use design_tokens_language_s.GoMap.{GoMap, Fresh, IsMap}
use design_tokens_language_s.Schema.{SchemaVersion}
use design_tokens_language_s.Tokens
use design_tokens_language_s.Tokens.{Token, clear, get_all}
use design_tokens_language_s.Tokens.Store.{IsKeyed, Correct, add-IsKeyed}
use design_tokens_language_s.Json.{Json}
use design_tokens_language_s.Documents.TokenFile.{present}
use design_tokens_language_s.Paths.Npm.{normalize_path}
use design_tokens_language_s.Paths.Uri.{path_to_uri, uri_to_path}
use design_tokens_language_s.Server.{ServerConfig, TokenFileOptions, Server}
use design_tokens_language_s.Server.Environment.{Environment}
use design_tokens_language_s.Server.Files.{elements, has_token_extension}
use design_tokens_language_s.Server.Config.{parse_token_file_item, network_timeout}
use design_tokens_language_s.Server.Loading.{
  Loads, LoadError, then_load, add_all, track, load_each, parse_and_add_tokens, resolve_all_tokens,
  load_token_file_internal, load_token_file_with_options, load_from_cdn, load_path, load_item,
  load_explicit_token_files, load_resolver_document, load_resolver, load_resolver_documents,
  no_options, resolve_without_errors, reload_if_loaded, reload_previously_loaded_files,
  load_tokens_from_config, resolve_if_added, load_tokens_from_document_content,
}

-- Only the tokens and the loaded files differ, and the tokens are still under their keys.
pub record Keeps (s s' : Server) : Type 0 where
  pub rest_same : s' ≡ record s { tokens = s'.tokens; loaded_files = s'.loaded_files }
  pub keyed : IsKeyed s.tokens → IsKeyed s'.tokens

Keeps-refl : (s : Server) → Keeps s s
Keeps-refl s = record { rest_same = refl; keyed = λ k. k }

Keeps-trans : {s t u : Server} → Keeps s t → Keeps t u → Keeps s u
Keeps-trans {s} {t} {u} k j = record {
  rest_same =
      j.rest_same
      ∙ ap (λ (x : Server). record x { tokens = u.tokens; loaded_files = u.loaded_files })
          k.rest_same;
  keyed = λ i. j.keyed (k.keyed i);
}

Keeps-tokens :
    (s : Server) (m : Tokens.Manager)
    → (IsKeyed s.tokens → IsKeyed m)
    → Keeps s (record s { tokens = m })
Keeps-tokens s m k = record { rest_same = refl; keyed = k }

pub cleared : (s : Server) → Keeps s (record s { tokens = clear s.tokens })
unfolding clear
cleared s = Keeps-tokens s [] (λ k. record { is_map = tt; correct = tt })

-- Each call of this kind keeps the rest of the server.
abbrev pub AllKeep : Loads → Type 0
AllKeep load = (s : Server) → Keeps s (load s).1

then_keeps : (first next : Loads) → AllKeep first → AllKeep next → AllKeep (then_load first next)
then_keeps first next f n s = Keeps-trans (f s) (n (first s).1)

each_keeps {ℓ} :
    {A : Type ℓ} (load : A → Loads) (xs : List A)
    → ((x : A) → AllKeep (load x))
    → AllKeep (load_each load xs)
unfolding load_each
each_keeps load [] k s = Keeps-refl s
each_keeps load (x ∷ xs) k s =
    then_keeps (load x) (load_each load xs) (k x) (each_keeps load xs k) s

add_all-IsKeyed :
    (file_path uri : Bytes) (ts : List Token) (m : Tokens.Manager)
    → IsKeyed m
    → IsKeyed (add_all file_path uri ts m).1
unfolding add_all Tokens.add
add_all-IsKeyed file_path uri [] m k = k
add_all-IsKeyed file_path uri (t ∷ ts) m k =
    add_all-IsKeyed file_path uri ts _
      (add-IsKeyed (some (record t { file_path = file_path; definition_uri = uri })) m k)

-- Resolving an alias does not rename or move a token.
abbrev pub ResolvesInPlace : Environment → Type 0
ResolvesInPlace env =
    (version : SchemaVersion) (all : List Token) (t : Token)
    → ((env.resolve_alias version all t).name ≡ t.name)
      × ((env.resolve_alias version all t).file_path ≡ t.file_path)

module _ (env : Environment) (in_place : ResolvesInPlace env) where
  parse-Keeps :
      (content file_path uri : Bytes) (opts : TokenFileOptions) (s : Server)
      → Keeps s (parse_and_add_tokens env content file_path uri opts s).1
  unfolding parse_and_add_tokens
  parse-Keeps content file_path uri opts s = elim (Option-cases (env.parse_tokens content opts)) [
    | inl e ↦ rw (e, parse_and_add_tokens) (Keeps-refl s)
    | inr (ts, e) ↦
        rw (e, parse_and_add_tokens) (Keeps-tokens s _ (add_all-IsKeyed file_path uri ts s.tokens))
  ]

  resolved_Fresh :
      (v : SchemaVersion) (all : List Token) (key : Bytes) (m : Tokens.Manager)
      → Fresh key m
      → Fresh key (map (λ e. (e.0, env.resolve_alias v all e.1)) m)
  resolved_Fresh v all key [] f = tt
  resolved_Fresh v all key ((k, t) ∷ m) f = (f.0, resolved_Fresh v all key m f.1)

  resolved_IsMap :
      (v : SchemaVersion) (all : List Token) (m : Tokens.Manager)
      → IsMap m
      → IsMap (map (λ e. (e.0, env.resolve_alias v all e.1)) m)
  resolved_IsMap v all [] i = tt
  resolved_IsMap v all ((k, t) ∷ m) i = (resolved_Fresh v all k m i.0, resolved_IsMap v all m i.1)

  resolved_Correct :
      (v : SchemaVersion) (all : List Token) (m : Tokens.Manager)
      → Correct m
      → Correct (map (λ e. (e.0, env.resolve_alias v all e.1)) m)
  resolved_Correct v all [] c = tt
  resolved_Correct v all ((k, t) ∷ m) c =
      let (n, f) = in_place v all t in (rw (n, f) c.0, resolved_Correct v all m c.1)

  resolve-Keeps : (s : Server) → Keeps s (resolve_all_tokens env s)
  unfolding resolve_all_tokens get_all
  resolve-Keeps s = Keeps-tokens s _ (λ k. record {
    is_map = resolved_IsMap _ _ s.tokens k.is_map;
    correct = resolved_Correct _ _ s.tokens k.correct;
  })

  internal_keeps :
      (path : Bytes) (opts : TokenFileOptions) → AllKeep (load_token_file_internal env path opts)
  unfolding load_token_file_internal
  internal_keeps path opts s =
      elim (Bool-cases (has_token_extension (env.to_lower (env.files.ext path)))) [
        | inr e ↦ rw e (Keeps-refl s)
        | inl e ↦ rw e (elim (Option-cases (env.read_file (env.files.clean path))) [
          | inl f ↦ rw f (Keeps-refl s)
          | inr (content, f) ↦ rw f (parse-Keeps content path (path_to_uri env.go path) opts s)
        ])
      ]

  track-Keeps :
      (path : Bytes) (opts : TokenFileOptions) (errors : List LoadError) (s : Server)
      → Keeps s (track path opts errors s)
  unfolding track
  track-Keeps path opts [] s = record { rest_same = refl; keyed = λ k. k }
  track-Keeps path opts (e ∷ errors) s = Keeps-refl s

  file_keeps :
      (path : Bytes) (opts : TokenFileOptions)
      → AllKeep (load_token_file_with_options env path opts)
  unfolding load_token_file_with_options
  file_keeps path opts s =
      Keeps-trans (internal_keeps path opts s) (track-Keeps (env.files.clean path) opts _ _)

  cdn-Keeps :
      (path : Bytes) (opts : TokenFileOptions) (cfg : ServerConfig) (s : Server)
      → Keeps s (load_from_cdn env path opts cfg s).1
  unfolding load_from_cdn
  cdn-Keeps path opts cfg s = elim (Option-cases (env.cdn_url path cfg.cdn)) [
    | inl e ↦ rw (e, load_from_cdn) (Keeps-refl s)
    | inr (url, e) ↦
        rw (e, load_from_cdn)
          (elim (Option-cases (env.fetch (network_timeout env.default_timeout cfg) url)) [
            | inl f ↦ rw f (Keeps-refl s)
            | inr (content, f) ↦ rw f (parse-Keeps content [] url opts s)
          ])
  ]

  path_keeps :
      (cfg : ServerConfig) (root path : Bytes) (opts : TokenFileOptions)
      → AllKeep (load_path env cfg root path opts)
  unfolding load_path
  path_keeps cfg root path opts s =
      elim (Outcome-cases (normalize_path env.files env.system path root)) [
        | inl (p, e) ↦ rw (e, load_path) (file_keeps p opts s)
        | inr (inr e) ↦ rw (e, load_path) (Keeps-refl s)
        | inr (inl (x, e)) ↦
            rw (e, load_path)
              (elim (Bool-cases (cfg.network_fallback && env.is_package_specifier path)) [
                | inl b ↦ rw b (cdn-Keeps path opts cfg s)
                | inr b ↦ rw b (Keeps-refl s)
              ])
      ]

  item_keeps :
      (cfg : ServerConfig) (root : Bytes) (entry : Json) → AllKeep (load_item env cfg root entry)
  unfolding load_item
  item_keeps cfg root entry s =
      elim (Outcome-cases (parse_token_file_item entry cfg.prefix cfg.group_markers)) [
        | inr (inr e) ↦ rw (e, load_item) (Keeps-refl s)
        | inr (inl (x, e)) ↦ rw (e, load_item) (Keeps-refl s)
        | inl (p, e) ↦
            rw (e, load_item)
              (elim (Bool-cases (str_eq p.path [])) [
                | inl b ↦ rw b (Keeps-refl s)
                | inr b ↦ rw b (path_keeps cfg root p.path _ s)
              ])
      ]

  explicit_keeps : AllKeep (load_explicit_token_files env)
  unfolding load_explicit_token_files
  explicit_keeps s =
      each_keeps (load_item env s.config s.root_path) (elements s.config.tokens_files)
        (item_keeps s.config s.root_path) s

  document_keeps :
      (path : Bytes) (opts : TokenFileOptions) → AllKeep (load_resolver_document env path opts)
  unfolding load_resolver_document
  document_keeps path opts s = elim (Option-cases (env.read_file (env.files.clean path))) [
    | inl e ↦ rw (e, load_resolver_document) (Keeps-refl s)
    | inr (content, e) ↦
        rw (e, load_resolver_document)
          (elim (Option-cases (env.extract_source_paths content (env.dir path))) [
            | inl f ↦ rw f (Keeps-refl s)
            | inr (paths, f) ↦ rw f (
                each_keeps (λ p. load_path env s.config s.root_path p opts) paths
                  (λ p. path_keeps s.config s.root_path p opts) s)
          ])
  ]

  resolver_keeps :
      (cfg : ServerConfig) (root path : Bytes) → AllKeep (load_resolver env cfg root path)
  unfolding load_resolver
  resolver_keeps cfg root path s =
      elim (Outcome-cases (normalize_path env.files env.system path root)) [
        | inl (p, e) ↦ rw (e, load_resolver) (document_keeps p _ s)
        | inr (inl (x, e)) ↦ rw (e, load_resolver) (Keeps-refl s)
        | inr (inr e) ↦ rw (e, load_resolver) (Keeps-refl s)
      ]

  resolvers_keep : AllKeep (load_resolver_documents env)
  unfolding load_resolver_documents
  resolvers_keep s =
      each_keeps (load_resolver env s.config s.root_path) (elements s.config.resolvers)
        (resolver_keeps s.config s.root_path) s

  finish_keeps : (errors : List LoadError) → AllKeep (resolve_without_errors env errors)
  unfolding resolve_without_errors
  finish_keeps [] s = resolve-Keeps s
  finish_keeps (e ∷ errors) s = Keeps-refl s

  reload_keeps : AllKeep (reload_previously_loaded_files env)
  unfolding reload_previously_loaded_files
  reload_keeps s = Keeps-trans (cleared s) (
      Keeps-trans
        (each_keeps (λ (e : Bytes × TokenFileOptions). load_token_file_internal env e.0 e.1)
          s.loaded_files (λ e. internal_keeps e.0 e.1) _)
        (finish_keeps _ _))

  loaded_keeps : (loaded : GoMap TokenFileOptions) → AllKeep (reload_if_loaded env loaded)
  unfolding reload_if_loaded
  loaded_keeps [] s = Keeps-refl s
  loaded_keeps (e ∷ more) s = reload_keeps s

  added-Keeps :
      (count : ℕ) (s : Server) → Keeps s (if count == 0 then s else resolve_all_tokens env s)
  added-Keeps count s = elim (Bool-cases (count == 0)) [
    | inl b ↦ rw b (Keeps-refl s)
    | inr b ↦ rw b (resolve-Keeps s)
  ]

  -- If resolving aliases neither renames tokens nor moves them to another file, then loading from
  -- the configuration changes nothing but the tokens and the loaded files, and keeps the tokens
  -- under their keys.
  pub load_tokens_from_config-Keeps : AllKeep (load_tokens_from_config env)
  unfolding load_tokens_from_config
  load_tokens_from_config-Keeps s =
      elim (Bool-cases (present s.config.tokens_files || present s.config.resolvers)) [
        | inl b ↦ rw b (
            Keeps-trans (cleared s) (
              Keeps-trans
                (then_keeps (load_explicit_token_files env) (load_resolver_documents env)
                  explicit_keeps resolvers_keep _)
                (resolve-Keeps _)))
        | inr b ↦ rw b (loaded_keeps s.loaded_files s)
      ]

  -- So does loading from a document that looks like a token file.
  pub load_tokens_from_document_content-Keeps :
      (uri language_id content : Bytes)
      → AllKeep (load_tokens_from_document_content env uri language_id content)
  unfolding load_tokens_from_document_content resolve_if_added
  load_tokens_from_document_content-Keeps uri language_id content s =
      elim (Bool-cases (str_eq language_id (ascii "json") || str_eq language_id (ascii "yaml"))) [
        | inl b ↦ rw b (
            Keeps-trans (parse-Keeps content (uri_to_path env.go uri) uri no_options s)
              (added-Keeps _ _))
        | inr b ↦ rw b (Keeps-refl s)
      ]
