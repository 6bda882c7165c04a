-- ===== src/Tests/Css.antt =====
-- CSS values, ranges and the answers at a cursor, at concrete inputs.
use design_tokens_language_s.Prelude.{
  ℕ, ◌≡◌, ◌↔◌, ◌++◌, refl, true, false, Option, none, some, List, [], ◌∷◌, All, arith, drop, take,
}
use design_tokens_language_s.Ints.{pos}
use design_tokens_language_s.Outcome.{Outcome, ok}
use design_tokens_language_s.GoString.{Bytes, ascii, str_eq}
use design_tokens_language_s.Schema.{draft}
use design_tokens_language_s.Tokens.{Token}
use design_tokens_language_s.Documents.Document.{Document}
use design_tokens_language_s.Documents.Change.{Position, Range}
use design_tokens_language_s.Ranges.{ranges_intersect}
use design_tokens_language_s.Ranges.Overlap.{Contains, ranges_intersect_iff}
use design_tokens_language_s.CssValues.{Text, has}
use design_tokens_language_s.Features.{VarCall, is_css_supported_language}
use design_tokens_language_s.Features.Diagnostics.{get_diagnostics}
use design_tokens_language_s.Features.Diagnostics.Clean.{IsClean, get_diagnostics-nil}
use design_tokens_language_s.Features.Completion.{word_in_line}
use design_tokens_language_s.Features.Completion.Word.{IsWordAround, word_in_line_lem}

abbrev at_column : ℕ → Position
at_column n = record { line = 3; character = n }

abbrev columns : ℕ → ℕ → Range
columns n m = record { start = at_column n; stop = at_column m }

ranges_intersect_iff_example :
    (ranges_intersect (columns 2 6) (columns 4 8) ≡ true)
    ↔ ((p : Position) × Contains (columns 2 6) p × Contains (columns 4 8) p)
ranges_intersect_iff_example =
    ranges_intersect_iff (columns 2 6) (columns 4 8) (ground arith) (ground arith)

abbrev same_text : Bytes → Bytes
same_text s = s

-- Functions of text for tests: no capital letters, and 700 is the only number.
abbrev text : Text
text = record {
  to_lower = λ s. s;
  trim_space = λ s. s;
  quoted = λ s. 34 ∷ (s ++ (34 ∷ []));
  scanned = λ s. some 700;
  css_number_pattern = λ s. false;
  css_dimension_pattern = λ s. false;
  css_identifier_pattern = λ s. true;
  font_weight_numeric_pattern = λ s. true;
}

abbrev weight : Token
weight = record {
  name = ascii "weight";
  value = ascii "700";
  type = ascii "fontweight";
  path = [];
  file_path = ascii "a";
  definition_uri = [];
  line = 0;
  character = 0;
  deprecated = false;
  deprecation_message = [];
  schema_version = draft;
}

abbrev call : ℕ → ℕ → VarCall
call n m = record { fallback = none; token_name = ascii "--weight"; range = columns n m }

abbrev named : Bytes → Option Token
named name = some weight

abbrev same_name : Token → Bytes
same_name t = t.name

abbrev style : Document
style = record { uri = ascii "u"; language_id = ascii "css"; content = []; version = pos 1 }

abbrev document : Bytes → Option Document
document uri = some style

abbrev parse : Bytes → Bytes → Outcome (Unit {0}) (Option (List VarCall))
parse content language_id = ok (some (call 4 9 ∷ []))

get_diagnostics-nil_example :
    (get_diagnostics same_text same_name named true document parse (ascii "u") ≡ ok [])
    ↔ All (IsClean same_text same_name named true) (call 4 9 ∷ [])
unfolding is_css_supported_language has str_eq
get_diagnostics-nil_example =
    get_diagnostics-nil same_text same_name named true (Unit {0}) document parse (ascii "u") style
      (call 4 9 ∷ []) refl refl refl

word_in_line_lem_example :
    (start : ℕ) × (stop : ℕ) × IsWordAround (ascii "a: --x;") 5 start stop
    × (word_in_line (ascii "a: --x;") 5 ≡ drop start (take stop (ascii "a: --x;")))
word_in_line_lem_example = word_in_line_lem (ascii "a: --x;") 5 (omega arith)
