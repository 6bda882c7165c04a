-- ===== src/Position/Bounds.antt =====
-- Bounds on the results of internal/position/utf16.go.
use design_tokens_language_s.Prelude.{ℕ, ◌-◌, ◌*◌, ◌≤◌, List, [], ◌∷◌, arith, length, All, min}
use design_tokens_language_s.GoString.{Bytes}
use design_tokens_language_s.Utf8.{rune_len, runes}
use design_tokens_language_s.Utf8.Laws.{rune_len_bounds, IsRune, total, total-runes}
use design_tokens_language_s.Position.{utf16_to_byte_offset, byte_offset_to_utf16}
use design_tokens_language_s.Position.Walk.{
  bytes_before, units_before, utf16_to_byte_offset-runes, byte_offset_to_utf16-runes,
}

bytes_before-le-total : (rs : List (ℕ × ℕ)) (col : ℕ) → bytes_before rs col ≤ total rs
bytes_before-le-total [] col = omega arith
bytes_before-le-total ((r, size) ∷ rs) col =
    ground (arith, bytes_before-le-total rs (col - rune_len r))

-- A column never leads past the end of the line.
pub utf16_to_byte_offset-le-length : (s : Bytes) (col : ℕ) → utf16_to_byte_offset s col ≤ length s
utf16_to_byte_offset-le-length s col =
    omega
      (arith, utf16_to_byte_offset-runes s col, bytes_before-le-total (runes s) col, total-runes s)

bytes_before_mono : (rs : List (ℕ × ℕ)) (a b : ℕ) → a ≤ b → bytes_before rs a ≤ bytes_before rs b
bytes_before_mono [] a b h = omega arith
bytes_before_mono ((r, size) ∷ rs) a b h =
    ground (arith, bytes_before_mono rs (a - rune_len r) (b - rune_len r))

-- A later column never leads to an earlier byte.
pub utf16_to_byte_offset_mono :
    (s : Bytes) (a b : ℕ) → a ≤ b → utf16_to_byte_offset s a ≤ utf16_to_byte_offset s b
utf16_to_byte_offset_mono s a b h = omega (
  arith,
  utf16_to_byte_offset-runes s a,
  utf16_to_byte_offset-runes s b,
  bytes_before_mono (runes s) a b h,
)

units_before_mono : (rs : List (ℕ × ℕ)) (a b : ℕ) → a ≤ b → units_before rs a ≤ units_before rs b
units_before_mono [] a b h = omega arith
units_before_mono ((r, size) ∷ rs) a b h =
    ground (arith, units_before_mono rs (a - size) (b - size))

-- A later byte never has an earlier column.
pub byte_offset_to_utf16_mono :
    (s : Bytes) (a b : ℕ) → a ≤ b → byte_offset_to_utf16 s a ≤ byte_offset_to_utf16 s b
byte_offset_to_utf16_mono s a b h = omega (
  arith,
  byte_offset_to_utf16-runes s a,
  byte_offset_to_utf16-runes s b,
  units_before_mono (runes s) (min a (length s)) (min b (length s)) (omega arith),
)

units_before-le : (rs : List (ℕ × ℕ)) (k : ℕ) → All IsRune rs → units_before rs k ≤ 2 * k
units_before-le [] k h = omega arith
units_before-le ((r, size) ∷ rs) k ((lo, hi), hs) =
    ground (arith, units_before-le rs (k - size) hs, rune_len_bounds r)
