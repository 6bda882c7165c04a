-- ===== src/Tests/Sessions.antt =====
-- The server on short sessions, in an environment with one token file.
use design_tokens_language_s.Prelude.{
  ◌≡◌, ◌≢◌, ◌⊎◌, refl, inl, true, false, none, some, List, [], ◌∷◌, ◌++◌, drop, if◌then◌else◌,
  arith, ℕ,
}
use design_tokens_language_s.Ints.{pos}
use design_tokens_language_s.Outcome.{Outcome, ok, panicked}
use design_tokens_language_s.GoString.{Bytes, ascii, has_prefix, str_eq}
use design_tokens_language_s.Json.{text, field, end_of_object}
use design_tokens_language_s.Schema.{draft}
use design_tokens_language_s.Documents.Change.{ContentChange}
use design_tokens_language_s.Tokens.{Token, add}
use design_tokens_language_s.Paths.{FilePath}
use design_tokens_language_s.Paths.Npm.{FileSystem, there}
use design_tokens_language_s.Paths.Uri
use design_tokens_language_s.Paths.Uri.{slash, uri_to_path, path_to_uri, has_drive}
use design_tokens_language_s.Server.{Server, ServerConfig, default_config, new_server}
use design_tokens_language_s.Server.Environment.{Environment}
use design_tokens_language_s.Server.Files.{is_token_file, has_token_extension}
use design_tokens_language_s.Server.Loading.{
  load_tokens_from_config, load_token_file_with_options, load_token_file_internal, no_options,
  add_all, parse_and_add_tokens,
}
use design_tokens_language_s.Server.Loading.Frame.{
  Keeps, ResolvesInPlace, load_tokens_from_config-Keeps,
}
use design_tokens_language_s.Server.Loading.Reload.{
  load_tokens_from_config_fresh, load_token_file_tracked,
}
use design_tokens_language_s.Server.Notifications.{
  did_open, did_change, did_change_watched_files, did_change_configuration, FileEvent, file_deleted,
}
use design_tokens_language_s.Server.Notifications.Pull.{pull_sends_nothing}
use design_tokens_language_s.Server.Session.{Event, opened, tokens_full, tokens_delta, closed, run}
use design_tokens_language_s.Server.Session.Parts.{IsSound}
use design_tokens_language_s.Server.Session.Sound.{run-IsSound, new_server-IsSound}
use design_tokens_language_s.Server.Middleware.{RequestContext, method, new_request_context}
use design_tokens_language_s.Server.Middleware.Recovery.{method_lem, Succeeds, Fails}

abbrev files : FilePath
files = record {
  ext = λ p. ascii ".json";
  clean = λ p. p;
  is_abs = λ p. true;
  join = λ a b. a ++ slash ∷ b;
  to_slash = λ p. p;
  from_slash = λ p. p;
}

abbrev system : FileSystem
system = record { user_home_dir = none; stat = λ p. there; package_json = λ p. none }

-- an escape that changes nothing, and URIs of the scheme "file" only
abbrev go : Uri.Library
go = record {
  parse = λ uri.
      if has_prefix uri (ascii "file://")
      then some (record { scheme = ascii "file"; host = []; path = drop 7 uri })
      else none;
  path_escape = λ s. s;
  path_unescape = λ s. some s;
  abs = λ p. some p;
  to_slash = λ p. p;
  from_slash = λ p. p;
  to_upper = λ s. s;
  is_windows = false;
}

abbrev token : Token
token = record {
  name = ascii "color-brand";
  value = ascii "red";
  type = ascii "color";
  path = ascii "color" ∷ ascii "brand" ∷ [];
  file_path = [];
  definition_uri = [];
  line = 0;
  character = 0;
  deprecated = false;
  deprecation_message = [];
  schema_version = draft;
}

abbrev env : Environment
env = record {
  files = files;
  system = system;
  go = go;
  dir = λ p. p;
  read_file = λ p. some (ascii "{}");
  package_json_config = λ p. some none;
  to_lower = λ s. s;
  parse_tokens = λ content opts. some (token ∷ []);
  resolve_alias = λ version all t. t;
  extract_source_paths = λ content dir. none;
  is_package_specifier = λ p. false;
  cdn_url = λ p cdn. none;
  fetch = λ timeout url. none;
  default_timeout = pos 30;
  css_variable_name = λ t. ascii "--" ++ t.name;
  parse_css = λ content language_id. ok none;
  unmarshal = λ content. some (field (ascii "$value") (text (ascii "red")) end_of_object);
  unmarshal_config = λ j config. some config;
  get_semantic_tokens_for_document = λ doc. [];
}

in_place : ResolvesInPlace env
in_place version all t = (refl, refl)

abbrev uri : Bytes
uri = ascii "file:///t.json"

abbrev events : List Event
events =
    opened uri (ascii "json") (pos 1) (ascii "{}")
    ∷ tokens_full uri
    ∷ tokens_delta uri (ascii "st-1")
    ∷ closed uri
    ∷ []

run-IsSound_example : IsSound (run env events new_server)
run-IsSound_example = run-IsSound env in_place events new_server new_server-IsSound (ground arith)

abbrev pulling : Server
pulling = record new_server { use_pull_diagnostics = true; has_context = true }

abbrev changes : List ContentChange
changes = record { range = none; text = ascii "a{}" } ∷ []

abbrev deleted : List FileEvent
deleted = record { uri = uri; type = file_deleted } ∷ []

pull_sends_nothing_example :
    ((did_open env uri (ascii "json") (pos 1) (ascii "{}") pulling).2 ≡ [])
    × ((did_change env uri (pos 1) changes pulling).2 ≡ [])
    × ((did_change_watched_files env deleted pulling).2 ≡ [])
    × ((did_change_configuration env true (text []) pulling).2 ≡ [])
pull_sends_nothing_example =
    pull_sends_nothing env in_place pulling uri (ascii "json") (ascii "{}") (pos 1) changes deleted
      true (text []) refl

abbrev config : ServerConfig
config = record default_config { tokens_files = some (text (ascii "/t.json") ∷ []) }

abbrev configured_server : Server
configured_server = record new_server { config = config }

load_tokens_from_config-Keeps_example :
    Keeps configured_server (load_tokens_from_config env configured_server).1
load_tokens_from_config-Keeps_example = load_tokens_from_config-Keeps env in_place configured_server

load_tokens_from_config_fresh_example :
    load_tokens_from_config env (record configured_server { tokens = (ascii "old", token) ∷ [] })
    ≡ load_tokens_from_config env configured_server
load_tokens_from_config_fresh_example =
    load_tokens_from_config_fresh env configured_server ((ascii "old", token) ∷ []) (inl refl)

abbrev path : Bytes
path = ascii "/t.json"

loads_without_error : (load_token_file_with_options env path no_options new_server).0 ≡ []
unfolding load_token_file_with_options load_token_file_internal has_token_extension
    parse_and_add_tokens add_all str_eq add
loads_without_error = refl

json_extension : has_token_extension (ascii ".json") ≡ true
unfolding has_token_extension str_eq
json_extension = refl

load_token_file_tracked_example :
    is_token_file files path (load_token_file_with_options env path no_options new_server).1 ≡ true
load_token_file_tracked_example =
    load_token_file_tracked env path no_options new_server loads_without_error json_extension

abbrev complete : ServerConfig
complete = record {
  tokens_files = some [];
  resolvers = some [];
  prefix = ascii "ds";
  group_markers = [];
  group_markers_set = true;
  network_fallback = true;
  network_timeout = pos 5;
  cdn = ascii "unpkg";
}

-- a handler that panics
abbrev broken : RequestContext ℕ Bytes → Outcome Bytes ℕ × RequestContext ℕ Bytes
broken r = (panicked, record r { server = 7 })

abbrev hover_method : Bytes
hover_method = ascii "textDocument/hover"

method_lem_example :
    ((method hover_method broken 3).0 ≢ panicked)
    × ((method hover_method broken 3).1 ≡ 7)
    × (Succeeds hover_method (broken (new_request_context 3)) (method hover_method broken 3)
        ⊎ Fails hover_method (broken (new_request_context 3)) (method hover_method broken 3))
method_lem_example = method_lem hover_method broken 3
