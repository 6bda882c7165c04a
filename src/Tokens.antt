-- ===== src/Tokens.antt =====
-- internal/tokens/manager.go: the tokens of the loaded files, under composite keys. A Go map iterates
-- in an unspecified order, here that of the list; each method runs under the lock.
pub mod Keys
pub mod Store
pub mod Find
pub mod Files
use design_tokens_language_s.Prelude.{
  ℕ, ◌+◌, Bool, true, false, not, ◌&&◌, ◌||◌, Option, none, some, List, [], ◌∷◌, ◌++◌, map, keep,
  length, if◌then◌else◌,
}
use design_tokens_language_s.Outcome.{Outcome, ok, err}
use design_tokens_language_s.GoString.{
  Bytes, str_eq, has_prefix, has_suffix, trim_prefix, contains, replace_byte, after_last,
}
use design_tokens_language_s.GoMap.{GoMap, lookup, insert, delete}
use design_tokens_language_s.Schema.{SchemaVersion, unknown, version_eq}

-- The fields of asimonim's Token that the server reads and writes.
pub record Token : Type 0 where
  pub name : Bytes
  pub value : Bytes
  pub type : Bytes
  pub path : List Bytes
  pub file_path : Bytes
  pub definition_uri : Bytes
  pub line : ℕ
  pub character : ℕ
  pub deprecated : Bool
  pub deprecation_message : Bytes
  pub schema_version : SchemaVersion

abbrev pub Manager : Type 0
Manager = GoMap Token

pub data TokenError : Type 0 where
  token_is_nil : TokenError
  token_not_found : Bytes → TokenError

abbrev pub colon : ℕ
colon = b':'

-- NewManager
abbrev pub new_manager : Manager
new_manager = []

-- makeKey
unfoldable pub make_key : Bytes → Bytes → Bytes
make_key file_path token_name =
    if str_eq file_path [] then token_name else file_path ++ colon ∷ token_name

-- Add: `none` stands for nil
unfoldable pub add : Option Token → Manager → Outcome TokenError (Unit {0}) × Manager
add none m = (err token_is_nil, m)
add (some t) m = (ok tt, insert (make_key t.file_path t.name) t m)

-- The name that Get looks for: dots to hyphens, and no leading "--".
unfoldable pub search_name : Bytes → Bytes
search_name q =
    trim_prefix (if contains q (b'.' ∷ []) then replace_byte b'.' b'-' q else q) (b'-' ∷ b'-' ∷ [])

-- asimonim's method Token.CSSVariableName
module _ (css_variable_name : Token → Bytes) where
  -- the loop of Get
  scan : Bytes → Bytes → Manager → Option Token
  scan q name [] = none
  scan q name ((key, t) ∷ m) =
      if has_suffix key (colon ∷ name) || str_eq key name
      then some t
      else if str_eq (css_variable_name t) q
      then some t
      else scan q name m

  -- Get
  unfoldable pub get : Bytes → Manager → Option Token
  unfolding scan
  get q m = elim (lookup q m) [ some t ↦ some t | none ↦ scan q (search_name q) m ]

-- GetAll
unfoldable pub get_all : Manager → List Token
get_all m = map (λ e. e.1) m

-- What the loop of Remove tests on an entry: the text behind the key's last colon, or the token's name
-- if the key has none.
unfoldable pub names_entry : Bytes → Bytes → Token → Bool
names_entry name key t = elim (after_last colon key) [
  | [] ↦ str_eq t.name name
  | token_name ∷ _ ↦ str_eq token_name name
]

-- the loop of Remove: the first entry that passes is deleted
unfoldable pub remove_first : Bytes → Manager → Option Manager
remove_first name [] = none
remove_first name ((key, t) ∷ m) = elim (names_entry name key t) [
  | true ↦ some m
  | false ↦ elim (remove_first name m) [ none ↦ none | some rest ↦ some ((key, t) ∷ rest) ]
]

-- Remove
unfoldable pub remove : Bytes → Manager → Outcome TokenError (Unit {0}) × Manager
unfolding remove_first
remove name m = elim (lookup name m) [
  | some t ↦ (ok tt, delete name m)
  | none ↦ elim (remove_first name m) [
    | none ↦ (err (token_not_found name), m)
    | some m' ↦ (ok tt, m')
  ]
]

-- Clear
unfoldable pub clear : Manager → Manager
clear m = []

-- FindByPrefix
unfoldable pub find_by_prefix : Bytes → Manager → List Token
unfolding get_all
find_by_prefix prefix m = keep (λ t. has_prefix t.name prefix) (get_all m)

-- Count
unfoldable pub count : Manager → ℕ
count m = length m

-- GetBySchemaVersion
unfoldable pub get_by_schema_version : SchemaVersion → Manager → List Token
unfolding get_all
get_by_schema_version version m = keep (λ t. version_eq t.schema_version version) (get_all m)

-- GetBySourceFile
unfoldable pub get_by_source_file : Bytes → Manager → List Token
unfolding get_all
get_by_source_file file_path m = keep (λ t. str_eq t.file_path file_path) (get_all m)

-- GetQualified
unfoldable pub get_qualified : Bytes → Bytes → Manager → Option Token
get_qualified token_name file_path m = lookup (make_key file_path token_name) m

-- RemoveBySourceFile: the number removed, and the manager
unfoldable pub remove_by_source_file : Bytes → Manager → ℕ × Manager
remove_by_source_file file_path [] = (0, [])
remove_by_source_file file_path ((key, t) ∷ m) =
    let (removed, rest) = remove_by_source_file file_path m in
    if str_eq t.file_path file_path then (removed + 1, rest) else (removed, (key, t) ∷ rest)

-- the set of GetSourceFiles, as its loop fills it
collect_files : Manager → GoMap (Unit {0}) → GoMap (Unit {0})
collect_files [] files = files
collect_files ((key, t) ∷ m) files =
    collect_files m (if str_eq t.file_path [] then files else insert t.file_path tt files)

-- GetSourceFiles
unfoldable pub get_source_files : Manager → List Bytes
unfolding collect_files
get_source_files m = map (λ e. e.0) (collect_files m [])

-- The loop of GetSchemaVersionForFile: `none` while no token of the file was found.
version_loop : Bytes → Manager → Option SchemaVersion → SchemaVersion
version_loop file_path [] none = unknown
version_loop file_path [] (some version) = version
version_loop file_path ((key, t) ∷ m) found = elim (str_eq t.file_path file_path) [
  | false ↦ version_loop file_path m found
  | true ↦ elim found [
    | none ↦ version_loop file_path m (some t.schema_version)
    | some version ↦ elim (version_eq t.schema_version version) [
      | true ↦ version_loop file_path m (some version)
      | false ↦ unknown
    ]
  ]
]

-- GetSchemaVersionForFile
unfoldable pub get_schema_version_for_file : Bytes → Manager → SchemaVersion
unfolding version_loop
get_schema_version_for_file file_path m = version_loop file_path m none
