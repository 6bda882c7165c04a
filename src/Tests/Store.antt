-- ===== src/Tests/Store.antt =====
-- The token manager with two files.
use design_tokens_language_s.Prelude.{
  ◌+◌, ◌≡◌, ◌≢◌, ◌↔◌, ◌⊎◌, refl, inl, inr, false, none, [], ◌∷◌, arith, length,
}
use design_tokens_language_s.GoString.{
  Bytes, ascii, str_eq, has_suffix, has_prefix, trim_prefix, contains, replace_byte,
}
use design_tokens_language_s.GoMap.{lookup}
use design_tokens_language_s.Schema.{draft}
use design_tokens_language_s.Tokens.{
  Token, Manager, make_key, get, remove_by_source_file, count, get_by_source_file,
  get_schema_version_for_file, search_name,
}
use design_tokens_language_s.Tokens.Store.{IsKeyed}
use design_tokens_language_s.Tokens.Files.{
  remove_by_source_file_lem, get_schema_version_for_file_iff, IsVersionOf,
}
use design_tokens_language_s.Tokens.Find.{Holds, Answers, get_sound, get_complete}

abbrev token : Bytes → Bytes → Token
token file name = record {
  name = name;
  value = ascii "#fff";
  type = ascii "color";
  path = [];
  file_path = file;
  definition_uri = [];
  line = 0;
  character = 0;
  deprecated = false;
  deprecation_message = [];
  schema_version = draft;
}

abbrev file_a : Bytes
file_a = ascii "a"

abbrev file_b : Bytes
file_b = ascii "b"

abbrev red : Bytes
red = ascii "color-red"

abbrev query : Bytes
query = ascii "--color-red"

abbrev held : Manager
held = (ascii "a:color-red", token file_a red) ∷ (ascii "b:color-red", token file_b red) ∷ []

-- asimonim's rule for a token without a prefix
abbrev css_name : Token → Bytes
css_name t = b'-' ∷ b'-' ∷ t.name

held-IsKeyed : IsKeyed held
unfolding make_key str_eq
held-IsKeyed = record { is_map = ground arith; correct = (refl, (refl, tt)) }

remove_by_source_file_lem_example :
    ((remove_by_source_file file_a held).0 ≡ length (get_by_source_file file_a held))
    × (get_by_source_file file_a (remove_by_source_file file_a held).1 ≡ [])
    × (get_by_source_file file_b (remove_by_source_file file_a held).1
        ≡ get_by_source_file file_b held)
    × (count held
        ≡ (remove_by_source_file file_a held).0 + count (remove_by_source_file file_a held).1)
unfolding str_eq
remove_by_source_file_lem_example = remove_by_source_file_lem file_a file_b held refl

get_schema_version_for_file_iff_example :
    (get_schema_version_for_file file_a held ≡ draft) ↔ IsVersionOf file_a held draft
get_schema_version_for_file_iff_example =
    get_schema_version_for_file_iff file_a draft held (λ h. cc)

get_sound_example :
    Holds held (token file_a red)
    × ((query ≡ make_key file_a red)
        ⊎ Answers css_name query (search_name query) (token file_a red))
unfolding get lookup str_eq search_name has_suffix has_prefix trim_prefix contains replace_byte
get_sound_example =
    get_sound css_name query held (token file_a red) held-IsKeyed (ground arith) (ground arith) refl

get_complete_example : get css_name query held ≢ none
unfolding search_name has_prefix trim_prefix contains replace_byte
get_complete_example =
    get_complete css_name query held (token file_b red) held-IsKeyed (inr (inl refl)) (inr refl)
