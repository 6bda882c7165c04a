-- ===== src/Server/Files.antt =====
-- lsp/server.go: which files are token files. The functions of package path/filepath are a parameter,
-- and so are the conversion of a URI and the YAML parser.
use design_tokens_language_s.Prelude.{
  Bool, true, false, not, ◌&&◌, ◌||◌, Option, none, some, List, [], ◌∷◌, if◌then◌else◌,
}
use design_tokens_language_s.GoString.{Bytes, ascii, str_eq}
use design_tokens_language_s.GoMap.{lookup, delete}
use design_tokens_language_s.Json.{Json, text, object, Fields, value_at, text_or_empty}
use design_tokens_language_s.Documents.Manager.{get}
use design_tokens_language_s.Documents.TokenFile.{
  present, is_design_tokens_schema, looks_like_dtcg_content,
}
use design_tokens_language_s.Paths.{FilePath}
use design_tokens_language_s.Server.{Server}

-- the path of an entry of tokensFiles, or the empty string
unfoldable pub configured_path : Json → Bytes
configured_path (text p) = p
configured_path (object fields) = elim (value_at (ascii "path") fields) [
  | none ↦ []
  | some v ↦ text_or_empty v
]
configured_path _ = []

-- range over a slice that may be nil
abbrev pub elements {ℓ} : {A : Type ℓ} → Option (List A) → List A
elements none = []
elements (some xs) = xs

-- ext != ".json" && ext != ".yaml" && ext != ".yml", negated
unfoldable pub has_token_extension : Bytes → Bool
has_token_extension ext =
    str_eq ext (ascii ".json") || str_eq ext (ascii ".yaml") || str_eq ext (ascii ".yml")

module _ (files : FilePath) where
  -- tokenPath, resolved against the root
  unfoldable pub resolve_path : Bytes → Bytes → Bytes
  resolve_path root path =
      if not (str_eq root []) && not (files.is_abs path) then files.join root path else path

  -- the loop over cfg.TokensFiles
  unfoldable pub is_configured : Bytes → Bytes → List Json → Bool
  is_configured root clean_path [] = false
  is_configured root clean_path (item ∷ items) =
      let rest = is_configured root clean_path items in
      let token_path = configured_path item in
      if str_eq token_path []
      then rest
      else if str_eq clean_path (files.clean (resolve_path root token_path))
      then true
      else rest

  -- IsTokenFile
  unfoldable pub is_token_file : Bytes → Server → Bool
  is_token_file path s =
      if not (has_token_extension (files.ext path))
      then false
      else if present (lookup (files.clean path) s.loaded_files)
      then true
      else is_configured s.root_path (files.clean path) (elements s.config.tokens_files)

  -- RemoveLoadedFile
  unfoldable pub remove_loaded_file : Bytes → Server → Server
  remove_loaded_file path s = record s { loaded_files = delete (files.clean path) s.loaded_files }

  -- the glob pattern of one watcher in RegisterFileWatchers
  unfoldable pub watch_pattern : Bytes → Bytes → Bytes
  watch_pattern root path =
      if files.is_abs path
      then files.to_slash (files.clean path)
      else if not (str_eq root [])
      then files.to_slash (files.clean (files.join root path))
      else files.to_slash path

  -- the loop of RegisterFileWatchers
  unfoldable pub watchers : Bytes → List Json → List Bytes
  watchers root [] = []
  watchers root (item ∷ items) =
      let rest = watchers root items in
      let path = configured_path item in
      if str_eq path [] then rest else watch_pattern root path ∷ rest

  -- RegisterFileWatchers: the patterns it registers, if it sends a request
  unfoldable pub register_file_watchers : Server → Option (List Bytes)
  register_file_watchers s =
      if not s.has_context
      then none
      else elim (watchers s.root_path (elements s.config.tokens_files)) [
        | [] ↦ none
        | p ∷ ps ↦ some (p ∷ ps)
      ]

  module _ (uri_to_path : Bytes → Bytes) (unmarshal : Bytes → Option Fields) where
    -- ShouldProcessAsTokenFile
    unfoldable pub should_process_as_token_file : Bytes → Server → Bool
    should_process_as_token_file uri s =
        if is_token_file (uri_to_path uri) s then true else elim (get uri s.documents) [
          | none ↦ false
          | some doc ↦
              if is_design_tokens_schema unmarshal doc.content
              then true
              else looks_like_dtcg_content unmarshal doc.content
        ]
