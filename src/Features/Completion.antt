-- ===== src/Features/Completion.antt =====
-- lsp/methods/textDocument/completion/completion.go
pub mod Word
use design_tokens_language_s.Prelude.{
  ℕ, zero, suc, ◌+◌, ◌-◌, Bool, true, false, not, ◌&&◌, ◌||◌, Option, none, some, List, [], ◌∷◌,
  ◌++◌, ◌==◌, ltb, leb, length, drop, take, get_elem?, if◌then◌else◌,
}
use design_tokens_language_s.Ints.{ℤ, pos, ltb_ℤ, sub_ℕ}
use design_tokens_language_s.GoString.{
  Bytes, ascii, str_eq, has_prefix, trim_prefix, remove_byte, split,
}
use design_tokens_language_s.Tokens.{Token}
use design_tokens_language_s.Utf8.{runes}
use design_tokens_language_s.Position.{utf16_to_byte_offset}
use design_tokens_language_s.Documents.Document.{Document}
use design_tokens_language_s.Documents.Change.{Position, newline}
use design_tokens_language_s.Features.{is_css_supported_language}

-- isWordChar
unfoldable pub is_word_char : ℕ → Bool
is_word_char c =
    leb b'a' c && leb c b'z'
    || (leb b'A' c && leb c b'Z')
    || (leb b'0' c && leb c b'9')
    || (c == b'-' || c == b'_')

-- line[i] is a word character; the loops ask it in range only
unfoldable pub word_at : Bytes → ℕ → Bool
word_at line i = elim (get_elem? line i) [ none ↦ false | some c ↦ is_word_char c ]

-- for start > 0 && isWordChar(line[start-1]) { start-- }
unfoldable pub word_start : Bytes → ℕ → ℕ
word_start line zero = zero
word_start line (suc start) =
    let back = word_start line start in if word_at line start then back else suc start

-- for end < len(line) && isWordChar(line[end]) { end++ }, for so many rounds
unfoldable pub word_end : ℕ → Bytes → ℕ → ℕ
word_end zero line end = end
word_end (suc f) line end =
    let on = word_end f line (end + 1) in
    if ltb end (length line) && word_at line end then on else end

-- getWordAtPosition within the line
unfoldable pub word_in_line : Bytes → ℕ → Bytes
word_in_line line byte_offset =
    if ltb (length line) byte_offset
    then []
    else let start = word_start line byte_offset in
      drop start (take (word_end (length line) line byte_offset) line)

-- getWordAtPosition
unfoldable pub get_word_at_position : Bytes → Position → Bytes
get_word_at_position content p = elim (get_elem? (split newline content) p.line) [
  | none ↦ []
  | some line ↦ word_in_line line (utf16_to_byte_offset line p.character)
]

-- the loop of countUnclosedBraces
unfoldable pub count_braces : List (ℕ × ℕ) → ℕ → ℕ → ℤ
count_braces [] open_braces close_braces = sub_ℕ open_braces close_braces
count_braces ((ch, size) ∷ rs) open_braces close_braces =
    if ch == b'{'
    then count_braces rs (open_braces + 1) close_braces
    else if ch == b'}'
    then count_braces rs open_braces (close_braces + 1)
    else count_braces rs open_braces close_braces

-- countUnclosedBraces
unfoldable pub count_unclosed_braces : Bytes → ℤ
count_unclosed_braces text = count_braces (runes text) 0 0

-- the text that isInCSSBlock builds, up to the cursor; `none` behind the last line
unfoldable pub text_up_to : List Bytes → ℕ → ℕ → Option Bytes
text_up_to [] line character = none
text_up_to (l ∷ lines) zero character =
    let byte_offset = utf16_to_byte_offset l character in
    some (take (if ltb (length l) byte_offset then length l else byte_offset) l)
text_up_to (l ∷ lines) (suc line) character = elim (text_up_to lines line character) [
  | none ↦ none
  | some text ↦ some (l ++ (newline ∷ text))
]

-- isInCSSBlock
unfoldable pub is_in_css_block : Bytes → Position → Bool
is_in_css_block content p = elim (text_up_to (split newline content) p.line p.character) [
  | none ↦ false
  | some text ↦ ltb_ℤ (pos 0) (count_unclosed_braces text)
]

-- strings.ReplaceAll(s, "-", "")
abbrev pub without_hyphens : Bytes → Bytes
without_hyphens = remove_byte b'-'

-- normalizeTokenName
unfoldable pub normalize_token_name : (Bytes → Bytes) → Bytes → Bytes
normalize_token_name to_lower name = without_hyphens (to_lower (trim_prefix name (ascii "--")))

-- protocol.CompletionItem, without its constant kind
pub record CompletionItem : Type 0 where
  pub label : Bytes
  pub is_snippet : Bool
  pub insert_text : Bytes
  pub token_name : Bytes

module _ (to_lower : Bytes → Bytes) (css_variable_name : Token → Bytes) (supports_snippets : Bool)
    -- the number of spans that parser.CSSContentSpans finds
    (css_content_spans : Bytes → Bytes → ℕ) where
  -- isInCompletionContext
  unfoldable pub is_in_completion_context : Bytes → Bytes → Position → Bool
  is_in_completion_context content language_id p =
      if str_eq language_id (ascii "css")
      then is_in_css_block content p
      else ltb 0 (css_content_spans content language_id)

  unfoldable pub completion_item : Token → CompletionItem
  completion_item t =
      let css_var = css_variable_name t in
      record {
        label = css_var;
        is_snippet = supports_snippets;
        insert_text =
            if supports_snippets
            then ascii "var(" ++ (css_var ++ (ascii "${1:, " ++ (t.value ++ ascii "})$0")))
            else ascii "var(" ++ (css_var ++ ascii ")");
        token_name = css_var;
      }

  -- the loop over the tokens
  unfoldable pub completion_items : Bytes → List Token → List CompletionItem
  completion_items normalized_word [] = []
  completion_items normalized_word (t ∷ ts) =
      let rest = completion_items normalized_word ts in
      if has_prefix (normalize_token_name to_lower (css_variable_name t)) normalized_word
      then completion_item t ∷ rest
      else rest

  -- Completion: `none` stands for nil; `tokens` is what the token manager's GetAll returns
  unfoldable pub completion :
      (Bytes → Option Document) → List Token → Bytes → Position → Option (List CompletionItem)
  completion document tokens uri p = elim (document uri) [
    | none ↦ none
    | some doc ↦
        if not (is_css_supported_language doc.language_id)
        then none
        else let word = get_word_at_position doc.content p in
          if str_eq word []
          then none
          else if not (is_in_completion_context doc.content doc.language_id p)
          then none
          else some (completion_items (normalize_token_name to_lower word) tokens)
  ]
