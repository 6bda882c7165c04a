-- ===== src/Ranges.antt =====
-- lsp/helpers/ranges.go: overlap of ranges, and tree-sitter's byte columns as positions.
pub mod Overlap
use design_tokens_language_s.Prelude.{
  ℕ, ◌+◌, ◌%◌, ◌^◌, Bool, true, false, ◌&&◌, ◌||◌, List, [], ◌∷◌, ◌==◌, ltb, leb, none, some,
  length, get_elem?, take, if◌then◌else◌,
}
use design_tokens_language_s.Outcome.{Outcome, ok, err}
use design_tokens_language_s.GoString.{Bytes, split}
use design_tokens_language_s.Utf8.{runes}
use design_tokens_language_s.Position.{max_uint32}
use design_tokens_language_s.Documents.Change.{Position, Range, newline}

-- RangesIntersect
unfoldable pub ranges_intersect : Range → Range → Bool
ranges_intersect a b =
    if ltb a.stop.line b.start.line
    then false
    else if a.stop.line == b.start.line && leb a.stop.character b.start.character
    then false
    else if ltb b.stop.line a.start.line
    then false
    else if b.stop.line == a.start.line && leb b.stop.character a.start.character
    then false
    else true

-- sitter.Point
pub record Point : Type 0 where
  pub row : ℕ
  pub column : ℕ

-- "position overflow", with the row and the column
pub data PositionOverflow : Type 0 where
  position_overflow : ℕ → ℕ → PositionOverflow

-- the loop over the runes before the column; utf16Count is a uint32
count_utf16 : List (ℕ × ℕ) → ℕ → ℕ
count_utf16 [] utf16_count = utf16_count
count_utf16 ((r, size) ∷ rs) utf16_count =
    count_utf16 rs ((utf16_count + (if leb r 65535 then 1 else 2)) % 2 ^ 32)

-- PositionToUTF16
unfoldable pub position_to_utf16 : Bytes → Point → Outcome PositionOverflow Position
unfolding count_utf16
position_to_utf16 source point =
    if ltb max_uint32 point.row || ltb max_uint32 point.column
    then err (position_overflow point.row point.column)
    else elim (get_elem? (split newline source) point.row) [
      | none ↦ ok (record { line = point.row; character = point.column })
      | some line ↦
          let column = if ltb (length line) point.column then length line else point.column in
          ok (record { line = point.row; character = count_utf16 (runes (take column line)) 0 })
    ]
