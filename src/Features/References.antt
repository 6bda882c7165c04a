-- ===== src/Features/References.antt =====
-- lsp/methods/textDocument/references/references.go. The parsers are parameters, and so are
-- asimonim's CSSVariableName and the field Reference of its tokens.
pub mod Ranges
pub mod Complete
use design_tokens_language_s.Prelude.{
  ℕ, suc, zero, ◌+◌, ◌-◌, ◌^◌, Bool, true, false, not, ◌&&◌, ◌||◌, Option, none, some, List, [],
  ◌∷◌, ◌++◌, ◌==◌, ltb, leb, length, drop, map, get_elem?, if◌then◌else◌,
}
use design_tokens_language_s.Outcome.{Outcome, ok, err, panicked}
use design_tokens_language_s.GoString.{Bytes, ascii, str_eq, has_prefix, index, split, join}
use design_tokens_language_s.GoString.Decimal.{decimal}
use design_tokens_language_s.GoMap.{GoMap, insert}
use design_tokens_language_s.Tokens.{Token}
use design_tokens_language_s.Documents.Document.{Document}
use design_tokens_language_s.Documents.Change.{Position, Range}
use design_tokens_language_s.Features.{VarCall, Location, is_css_supported_language}
use design_tokens_language_s.Features.Definition.{is_position_in_var_call, target_range}

abbrev pub newline : ℕ
newline = 10

abbrev pub max_uint32 : ℕ
max_uint32 = 2 ^ 32 - 1

-- A range within one line.
abbrev pub line_range : ℕ → ℕ → ℕ → Range
line_range line start stop = record {
  start = record { line = line; character = start };
  stop = record { line = line; character = stop };
}

-- lineNum > math.MaxUint32 || actualIdx > math.MaxUint32 || endIdx > math.MaxUint32
unfoldable pub exceeds : ℕ → ℕ → ℕ → Bool
exceeds line_num start stop = ltb max_uint32 line_num || ltb max_uint32 start || ltb max_uint32 stop

-- The inner loop of findSubstringRanges from an offset on: `none` if the fuel runs out.
unfoldable pub search : ℕ → ℕ → Bytes → Bytes → ℕ → Option (List Range)
search zero line_num line substring offset = none
search (suc fuel) line_num line substring offset = elim (index (drop offset line) substring) [
  | none ↦ some []
  | some i ↦
      let start = offset + i in
      let stop = start + length substring in
      elim (search fuel line_num line substring stop) [
        | none ↦ none
        | some rest ↦
            some
              (if exceeds line_num start stop then rest else line_range line_num start stop ∷ rest)
      ]
]

-- the outer loop, from a line on
unfoldable pub search_lines : ℕ → List Bytes → Bytes → Option (List Range)
search_lines line_num [] substring = some []
search_lines line_num (line ∷ lines) substring =
    elim (search (suc (length line)) line_num line substring 0) [
      | none ↦ none
      | some found ↦ elim (search_lines (suc line_num) lines substring) [
        | none ↦ none
        | some rest ↦ some (found ++ rest)
      ]
    ]

-- findSubstringRanges
unfoldable pub find_substring_ranges : Bytes → Bytes → Option (List Range)
find_substring_ranges content substring = search_lines 0 (split newline content) substring

-- getLine
unfoldable pub get_line : Bytes → ℕ → Bytes
get_line content line_num = elim (get_elem? (split newline content) line_num) [
  | none ↦ []
  | some line ↦ line
]

-- getCharAt
unfoldable pub get_char_at : Bytes → Position → ℕ
get_char_at content pos = elim (get_elem? (get_line content pos.line) pos.character) [
  | none ↦ 0
  | some c ↦ c
]

-- isValidCSSReference
unfoldable pub is_valid_css_reference : Bytes → Position → Bool
is_valid_css_reference content end_pos =
    let line_length = length (get_line content end_pos.line) in
    if ltb max_uint32 line_length
    then false
    else if ltb end_pos.character line_length
    then get_char_at content end_pos == b',' || get_char_at content end_pos == b')'
    else false

-- fmt.Sprintf("%s:%d:%d", docURI, r.Start.Line, r.Start.Character)
unfoldable pub location_key : Bytes → Range → Bytes
location_key uri r = uri ++ b':' ∷ decimal r.start.line ++ b':' ∷ decimal r.start.character

abbrev pub LocationMap : Type 0
LocationMap = GoMap Location

-- the loop over the ranges of one document; `passes` is the test on a range
unfoldable pub add_ranges : Bytes → (Range → Bool) → List Range → LocationMap → LocationMap
add_ranges uri passes [] m = m
add_ranges uri passes (r ∷ rs) m =
    add_ranges uri passes rs
      (if passes r then insert (location_key uri r) (record { uri = uri; range = r }) m else m)

-- the ranges of a document are added, if the search ends
unfoldable pub add_document :
    Bytes → (Range → Bool) → Option (List Range) → LocationMap → Option LocationMap
add_document uri passes none m = none
add_document uri passes (some ranges) m = some (add_ranges uri passes ranges m)

-- findCSSReferences
unfoldable pub find_css_references : List Document → Bytes → LocationMap → Option LocationMap
find_css_references [] name m = some m
find_css_references (doc ∷ docs) name m =
    if not (is_css_supported_language doc.language_id)
    then find_css_references docs name m
    else elim (add_document doc.uri (λ r. is_valid_css_reference doc.content r.stop)
        (find_substring_ranges doc.content name) m) [
          | none ↦ none
          | some m1 ↦ find_css_references docs name m1
        ]

-- the loop of findJSONReferences
unfoldable pub json_references : List Document → Bytes → LocationMap → Option LocationMap
json_references [] name m = some m
json_references (doc ∷ docs) name m =
    if is_css_supported_language doc.language_id
    then json_references docs name m
    else elim (add_document doc.uri (λ r. true) (find_substring_ranges doc.content name) m) [
      | none ↦ none
      | some m1 ↦ json_references docs name m1
    ]

-- findJSONReferences
unfoldable pub find_json_references : List Document → Bytes → LocationMap → Option LocationMap
find_json_references docs reference m =
    if str_eq reference [] then some m else json_references docs reference m

-- the loop of findTokenDefinitionRange
unfoldable pub find_key : ℕ → List Bytes → Bytes → Range
find_key line_num [] key = line_range 0 0 0
find_key line_num (line ∷ lines) key =
    let later = find_key (suc line_num) lines key in
    elim (index line key) [
      | none ↦ later
      | some i ↦
          if exceeds line_num i (i + length key)
          then later
          else line_range line_num i (i + length key)
    ]

-- the last element of a path
abbrev pub last_key : List Bytes → Option Bytes
last_key [] = none
last_key (key ∷ []) = some key
last_key (key ∷ next ∷ path) = last_key (next ∷ path)

-- findTokenDefinitionRange
unfoldable pub find_token_definition_range : Bytes → List Bytes → Range
find_token_definition_range content path = elim (last_key path) [
  | none ↦ line_range 0 0 0
  | some key ↦ find_key 0 (split newline content) key
]

mutual
  -- yaml.Node: a mapping, or a node of another kind
  pub data Node : Type 0 where
    mapping : Entries → Node
    other_node : Node

  -- a key's value, line and column, the node behind it, and the further entries
  pub data Entries : Type 0 where
    no_entries : Entries
    entry : Bytes → ℕ → ℕ → Node → Entries → Entries

-- is the cursor on this key?
unfoldable pub on_key : ℕ → ℕ → Bytes → ℕ → ℕ → Bool
on_key target_line target_col key line column =
    line == target_line && leb column target_col && ltb target_col (column + length key)

unfoldable mutual
  -- findPathAtPosition: `none` stands for nil
  pub find_path_at_position : Node → ℕ → ℕ → List Bytes → Option (List Bytes)
  find_path_at_position (mapping entries) target_line target_col path =
      path_in_entries entries target_line target_col path
  find_path_at_position other_node target_line target_col path = none

  -- the loop over the entries of a mapping
  pub path_in_entries : Entries → ℕ → ℕ → List Bytes → Option (List Bytes)
  path_in_entries no_entries target_line target_col path = none
  path_in_entries (entry key line column value entries) target_line target_col path =
      let later = path_in_entries entries target_line target_col path in
      let inside = find_path_at_position value target_line target_col (path ++ key ∷ []) in
      if has_prefix key (ascii "$")
      then later
      else if on_key target_line target_col key line column
      then some (path ++ key ∷ [])
      else elim inside [ some found ↦ some found | none ↦ later ]

-- findTokenAtPosition, once the content is parsed
unfoldable pub find_token_at_position : Option Node → Position → Bytes
find_token_at_position none pos = []
find_token_at_position (some root) pos =
    elim (find_path_at_position root (pos.line + 1) (pos.character + 1) []) [
      | none ↦ []
      | some path ↦ join b'-' path
    ]

-- what the loop of handleCSSReferences returns for the call at the cursor
unfoldable pub css_location : Option Token → List Location
css_location none = []
css_location (some t) =
    if not (str_eq t.definition_uri [])
    then record { uri = t.definition_uri; range = target_range t } ∷ []
    else []

-- the loop of handleCSSReferences
unfoldable pub css_locations : (Bytes → Option Token) → Position → List VarCall → List Location
css_locations token_named position [] = []
css_locations token_named position (v ∷ vs) =
    let later = css_locations token_named position vs in
    if is_position_in_var_call position v then css_location (token_named v.token_name) else later

module _ {E : Type 0} (document : Bytes → Option Document) (all_documents : List Document)
    (token_named : Bytes → Option Token) (should_process_as_token_file : Bytes → Bool)
    (css_variable_name reference : Token → Bytes)
    (parse_css : Bytes → Bytes → Outcome E (Option (List VarCall)))
    (parse_tree : Bytes → Bytes → Option Node) where
  -- addDeclarationIfRequested
  unfoldable pub add_declaration_if_requested : Bool → Token → List Location → List Location
  add_declaration_if_requested include_declaration t locations =
      if not include_declaration || str_eq t.definition_uri []
      then locations
      else elim (document t.definition_uri) [
        | none ↦ locations
        | some doc ↦
            locations
            ++ record {
              uri = t.definition_uri;
              range = find_token_definition_range doc.content t.path;
            }
              ∷ []
      ]

  -- validateTokenContext, on the document that was found
  unfoldable pub validate_token_context : Document → Bytes → Position → Option Token
  validate_token_context doc uri position =
      if not (should_process_as_token_file uri)
      then none
      else let name = find_token_at_position (parse_tree doc.content doc.language_id) position in
        if str_eq name [] then none else token_named name

  -- all references to a token: `none` if a search does not end
  unfoldable pub token_references : Bool → Token → Option (List Location)
  token_references include_declaration t =
      elim (find_css_references all_documents (css_variable_name t) []) [
        | none ↦ none
        | some m ↦ elim (find_json_references all_documents (reference t) m) [
          | none ↦ none
          | some m1 ↦ some (add_declaration_if_requested include_declaration t (map (λ e. e.1) m1))
        ]
      ]

  -- References: the locations, nil if there are none; `none` if a search does not end
  unfoldable pub references : Bytes → Position → Bool → Outcome E (Option (List Location))
  references uri position include_declaration = elim (document uri) [
    | none ↦ ok (some [])
    | some doc ↦
        if is_css_supported_language doc.language_id
        then elim (parse_css doc.content doc.language_id) [
          | err e ↦ err e
          | panicked ↦ panicked
          | ok none ↦ ok (some [])
          | ok (some var_calls) ↦ ok (some (css_locations token_named position var_calls))
        ]
        else elim (validate_token_context doc uri position) [
          | none ↦ ok (some [])
          | some t ↦ ok (token_references include_declaration t)
        ]
  ]
