-- ===== src/Server/Config.antt =====
-- lsp/configuration.go and lsp/methods/workspace/didChangeConfiguration.go: the settings, and how an
-- entry of tokensFiles is read.
pub mod Merge
use design_tokens_language_s.Prelude.{
  Bool, true, false, not, ◌&&◌, Option, none, some, List, [], ◌∷◌, if◌then◌else◌,
}
use design_tokens_language_s.Ints.{ℤ, pos, ltb_ℤ, eqb_ℤ}
use design_tokens_language_s.Outcome.{Outcome, ok, err, panicked}
use design_tokens_language_s.GoString.{Bytes, ascii, str_eq}
use design_tokens_language_s.Json.{
  Json, null, boolean, number, text, array, object, Items, end_of_array, item, Fields, value_at,
  as_text, text_or_empty,
}
use design_tokens_language_s.Documents.TokenFile.{present}
use design_tokens_language_s.Server.{ServerConfig, default_config, Server}
use design_tokens_language_s.Server.Environment.{Environment}

-- the errors of parseTokenFileItem: an empty path, in a string or in an object, or no path
pub data ItemError : Type 0 where
  empty_path empty_entry_path missing_path : ItemError

-- the path of an entry, its prefix and its group markers
pub record TokenFileItem : Type 0 where
  pub path : Bytes
  pub prefix : Bytes
  pub group_markers : List Bytes

-- the strings among the elements of an array
unfoldable pub texts : Items → List Bytes
texts end_of_array = []
texts (item v vs) = let rest = texts vs in elim (as_text v) [ none ↦ rest | some s ↦ s ∷ rest ]

-- the group markers that an entry gives, if they are an array
unfoldable pub given_markers : Json → List Bytes
given_markers (array items) = texts items
given_markers _ = []

-- parseGroupMarkersFromItem
unfoldable pub parse_group_markers_from_item : Fields → List Bytes → List Bytes
parse_group_markers_from_item fields default_group_markers =
    elim (value_at (ascii "groupMarkers") fields) [
      | none ↦ default_group_markers
      | some v ↦ elim (given_markers v) [
        | [] ↦ default_group_markers
        | marker ∷ markers ↦ marker ∷ markers
      ]
    ]

-- the prefix of an object
unfoldable pub item_prefix : Fields → Bytes → Bytes
item_prefix fields default_prefix = elim (value_at (ascii "prefix") fields) [
  | none ↦ default_prefix
  | some v ↦ text_or_empty v
]

-- parseTokenFileItem: an entry of another type has an empty path
unfoldable pub parse_token_file_item : Json → Bytes → List Bytes → Outcome ItemError TokenFileItem
parse_token_file_item (text v) default_prefix default_group_markers =
    if str_eq v []
    then err empty_path
    else ok (record { path = v; prefix = default_prefix; group_markers = default_group_markers })
parse_token_file_item (object v) default_prefix default_group_markers =
    elim (value_at (ascii "path") v) [
      | none ↦ err missing_path
      | some path ↦
          if str_eq (text_or_empty path) []
          then err empty_entry_path
          else ok (record {
            path = text_or_empty path;
            prefix = item_prefix v default_prefix;
            group_markers = parse_group_markers_from_item v default_group_markers;
          })
    ]
parse_token_file_item _ default_prefix default_group_markers =
    ok (record { path = []; prefix = []; group_markers = [] })

-- mergePackageJsonConfig: the current configuration, as it is left
unfoldable pub merge_package_json_config : ServerConfig → ServerConfig → ServerConfig
merge_package_json_config current pkg = record {
  prefix =
      if str_eq current.prefix [] && not (str_eq pkg.prefix []) then pkg.prefix else current.prefix;
  group_markers =
      if not current.group_markers_set && pkg.group_markers_set
      then pkg.group_markers
      else current.group_markers;
  group_markers_set =
      if not current.group_markers_set && pkg.group_markers_set
      then true
      else current.group_markers_set;
  tokens_files =
      if not (present current.tokens_files) && present pkg.tokens_files
      then pkg.tokens_files
      else current.tokens_files;
  network_fallback =
      if not current.network_fallback && pkg.network_fallback
      then true
      else current.network_fallback;
  network_timeout =
      if eqb_ℤ current.network_timeout (pos 0) && not (eqb_ℤ pkg.network_timeout (pos 0))
      then pkg.network_timeout
      else current.network_timeout;
  cdn = if str_eq current.cdn [] && not (str_eq pkg.cdn []) then pkg.cdn else current.cdn;
  resolvers =
      if not (present current.resolvers) && present pkg.resolvers
      then pkg.resolvers
      else current.resolvers;
}

-- networkTimeout, in seconds
unfoldable pub network_timeout : ℤ → ServerConfig → ℤ
network_timeout default_timeout cfg =
    if ltb_ℤ (pos 0) cfg.network_timeout then cfg.network_timeout else default_timeout

pub data ConfigError : Type 0 where
  cannot_read_package_json : ConfigError

pub data SettingsError : Type 0 where
  settings_not_a_map cannot_unmarshal_settings : SettingsError

-- the server's own settings, under either of the two keys
unfoldable pub our_settings : Fields → Option Json
our_settings settings = elim (value_at (ascii "designTokensLanguageServer") settings) [
  | some val ↦ some val
  | none ↦ value_at (ascii "design-tokens-language-server") settings
]

-- does the client give group markers?
unfoldable pub has_group_markers : Json → Bool
has_group_markers (object settings) = present (value_at (ascii "groupMarkers") settings)
has_group_markers _ = false

module _ (env : Environment) where
  -- parseConfiguration
  unfoldable pub parse_configuration : Json → Outcome SettingsError ServerConfig
  parse_configuration null = ok default_config
  parse_configuration (object settings) = elim (our_settings settings) [
    | none ↦ ok default_config
    | some ours ↦ elim (env.unmarshal_config ours default_config) [
      | none ↦ err cannot_unmarshal_settings
      | some config ↦
          if has_group_markers ours
          then ok (record config { group_markers_set = true })
          else ok config
    ]
  ]
  parse_configuration _ = err settings_not_a_map

  -- LoadPackageJsonConfig
  unfoldable pub load_package_json_config : Server → Outcome ConfigError (Unit {0}) × Server
  load_package_json_config s =
      if str_eq s.root_path [] then (ok tt, s) else elim (env.package_json_config s.root_path) [
        | none ↦ (err cannot_read_package_json, s)
        | some none ↦ (ok tt, s)
        | some (some pkg) ↦ (ok tt, record s { config = merge_package_json_config s.config pkg })
      ]
