-- ===== src/Documents/Change.antt =====
-- internal/documents/manager.go, from applyChanges on: how a change of the client edits a text.
pub mod Splice
pub mod Total
pub mod Edits
use design_tokens_language_s.Prelude.{
  ℕ, zero, suc, ◌+◌, ◌-◌, Bool, ◌&&◌, Option, none, some, List, [], ◌∷◌, ◌++◌, ◌==◌, ltb, leb,
  length, get_elem?, take, drop, if◌then◌else◌,
}
use design_tokens_language_s.Outcome.{
  Outcome, ok, err, panicked, ◌>>=◌, fail_if, at, slice_to, slice_from,
}
use design_tokens_language_s.GoString.{Bytes, split}
use design_tokens_language_s.Position.{utf16_to_byte_offset, string_length_utf16}

-- protocol.Position, protocol.Range: uint32 fields
pub record Position : Type 0 where
  pub line : ℕ
  pub character : ℕ

pub record Range : Type 0 where
  pub start : Position
  pub stop : Position

-- protocol.TextDocumentContentChangeEvent: no range means the whole document
pub record ContentChange : Type 0 where
  pub range : Option Range
  pub text : Bytes

-- The errors of applyIncrementalChange, in the order of the checks.
pub data ChangeError : Type 0 where
  start_line_out end_line_out start_line_normalized end_line_normalized start_char_out
        end_char_out :
      ℕ → ℕ → ChangeError

abbrev pub newline : ℕ
newline = b'\n'

-- normalizeEOFPosition; `lines[lastLine]` panics on an empty list
unfoldable pub normalize_eof_position : ℕ → ℕ → List Bytes → Outcome ChangeError (ℕ × ℕ)
normalize_eof_position line char_utf16 lines =
    if line == length lines && char_utf16 == 0
    then (do last ← at lines (length lines - 1); ok (length lines - 1, string_length_utf16 last))
    else ok (line, char_utf16)

-- validateNormalizedBounds
unfoldable pub validate_normalized_bounds :
    {A : Type 0} → ℕ → ℕ → ℕ → Outcome ChangeError A → Outcome ChangeError A
validate_normalized_bounds start_line end_line num_lines rest =
    fail_if (leb num_lines start_line) (start_line_normalized start_line num_lines)
      (fail_if (leb num_lines end_line) (end_line_normalized end_line num_lines) rest)

-- validateCharBounds, given the two lines that it indexes; a byte offset is never negative
unfoldable pub validate_char_bounds :
    {A : Type 0} → ℕ → Bytes → ℕ → Bytes → Outcome ChangeError A → Outcome ChangeError A
validate_char_bounds start_char start_line end_char end_line rest =
    fail_if (ltb (length start_line) start_char) (start_char_out start_char (length start_line))
      (fail_if (ltb (length end_line) end_char) (end_char_out end_char (length end_line)) rest)

-- for i := 0; i < n; i++ { lines[i], "\n" }
lines_before : ℕ → List Bytes → Outcome ChangeError Bytes
lines_before zero lines = ok []
lines_before (suc n) [] = panicked
lines_before (suc n) (l ∷ lines) = do rest ← lines_before n lines; ok (l ++ newline ∷ rest)

-- for i := …; i < len(lines); i++ { "\n", lines[i] }, over the lines from the first index on
lines_after : List Bytes → Bytes
lines_after [] = []
lines_after (l ∷ lines) = newline ∷ (l ++ lines_after lines)

end_suffix : List Bytes → ℕ → ℕ → Outcome ChangeError Bytes
end_suffix lines end_line end_char =
    if ltb end_line (length lines) then (do l ← at lines end_line; slice_from l end_char) else ok []

-- buildChangedContent
unfoldable pub build_changed_content :
    List Bytes → ℕ → ℕ → ℕ → ℕ → Bytes → Outcome ChangeError Bytes
unfolding lines_before lines_after end_suffix
build_changed_content lines start_line start_char end_line end_char text = do
  before ← lines_before start_line lines
  l ← at lines start_line
  prefix ← slice_to l start_char
  suffix ← end_suffix lines end_line end_char
  ok (before ++ (prefix ++ (text ++ (suffix ++ lines_after (drop (end_line + 1) lines)))))

-- applyIncrementalChange, behind the split into lines and the first two checks
change_lines : List Bytes → Range → Bytes → Outcome ChangeError Bytes
unfolding normalize_eof_position validate_normalized_bounds validate_char_bounds
    build_changed_content
change_lines lines r text = do
  (end_line, end_char_utf16) ← normalize_eof_position r.stop.line r.stop.character lines
  (start_line, start_char_utf16) ← normalize_eof_position r.start.line r.start.character lines
  validate_normalized_bounds start_line end_line (length lines) do
    first ← at lines start_line
    last ← at lines end_line
    let start_char = utf16_to_byte_offset first start_char_utf16
    let end_char = utf16_to_byte_offset last end_char_utf16
    validate_char_bounds start_char first end_char last
        (build_changed_content lines start_line start_char end_line end_char text)

-- applyIncrementalChange
unfoldable pub apply_incremental_change : Bytes → Range → Bytes → Outcome ChangeError Bytes
unfolding change_lines
apply_incremental_change content r text =
    let lines = split newline content in
    fail_if (ltb (length lines) r.start.line) (start_line_out r.start.line (length lines)) (
      fail_if (ltb (length lines) r.stop.line) (end_line_out r.stop.line (length lines))
        (change_lines lines r text))

-- one round of the loop of applyChanges
unfoldable pub apply_change : Bytes → ContentChange → Outcome ChangeError Bytes
apply_change content c = elim c.range [
  | none ↦ ok c.text
  | some r ↦ apply_incremental_change content r c.text
]

-- applyChanges
unfoldable pub apply_changes : Bytes → List ContentChange → Outcome ChangeError Bytes
unfolding apply_change
apply_changes content [] = ok content
apply_changes content (c ∷ cs) = do result ← apply_change content c; apply_changes result cs
