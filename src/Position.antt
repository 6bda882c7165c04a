-- ===== src/Position.antt =====
-- internal/position/utf16.go: positions in UTF-16 code units (LSP) and in bytes (Go).
pub mod Walk
pub mod Bounds
pub mod RoundTrip
pub mod Ascii
use design_tokens_language_s.Prelude.{
  ℕ, zero, suc, ◌+◌, ◌-◌, ◌^◌, Bool, ◌&&◌, Option, none, some, List, [], ◌∷◌, length, drop, ◌==◌,
  ltb, leb, if◌then◌else◌,
}
use design_tokens_language_s.GoString.{Bytes}
use design_tokens_language_s.Utf8.{rune_error, decode_rune, rune_len, runes}

-- math.MaxUint32
abbrev pub max_uint32 : ℕ
max_uint32 = 2 ^ 32 - 1

-- One round over the rune `r` of `size` bytes: the units counted and the bytes passed, or `none` where
-- the loop breaks off inside a surrogate pair.
unfoldable pub pass_rune : ℕ → ℕ → ℕ → ℕ → Option (ℕ × ℕ)
pass_rune units col r size =
    if r == rune_error && size == 1
    then some (units + 1, 1)
    else if rune_len r == 2 && units + 1 == col
    then none
    else some (units + rune_len r, size)

-- The loop's condition and its round; `s` is the string from the current byte on.
unfoldable pub utf16_round : Bytes → ℕ → ℕ → Option (ℕ × ℕ)
utf16_round [] units col = none
utf16_round (b ∷ s) units col =
    let (r, size) = decode_rune (b ∷ s) in
    if ltb units col then pass_rune units col r size else none

utf16_loop : ℕ → Bytes → ℕ → ℕ → ℕ → ℕ
utf16_loop zero s units byte_offset col = byte_offset
utf16_loop (suc f) s units byte_offset col = elim (utf16_round s units col) [
  | none ↦ byte_offset
  | some (units', n) ↦ utf16_loop f (drop n s) units' (byte_offset + n) col
]

-- UTF16ToByteOffset: a round passes a byte at least, so `length s` rounds are enough.
unfoldable pub utf16_to_byte_offset : Bytes → ℕ → ℕ
unfolding utf16_loop
utf16_to_byte_offset s col = if col == 0 then 0 else utf16_loop (length s) s 0 0 col

-- One round of ByteOffsetToUTF16: the units of the rune and its bytes, or `none` at a break.
unfoldable pub byte_round : Bytes → ℕ → ℕ → Option (ℕ × ℕ)
byte_round s current target =
    let (r, size) = decode_rune s in
    if ltb current target
    then if r == rune_error && size == 0
      then none
      else if ltb target (current + size)
      then none
      else some (rune_len r, size)
    else none

byte_loop : ℕ → Bytes → ℕ → ℕ → ℕ → ℕ
byte_loop zero s count current target = count
byte_loop (suc f) s count current target = elim (byte_round s current target) [
  | none ↦ count
  | some (u, n) ↦ byte_loop f (drop n s) (count + u) (current + n) target
]

-- ByteOffsetToUTF16
unfoldable pub byte_offset_to_utf16 : Bytes → ℕ → ℕ
unfolding byte_loop
byte_offset_to_utf16 s byte_offset =
    if byte_offset == 0
    then 0
    else let target = if ltb (length s) byte_offset then length s else byte_offset in
      byte_loop (length s) s 0 0 target

count_units : List (ℕ × ℕ) → ℕ → ℕ
count_units [] count = count
count_units ((r, size) ∷ rs) count = count_units rs (count + rune_len r)

-- StringLengthUTF16
unfoldable pub string_length_utf16 : Bytes → ℕ
unfolding count_units
string_length_utf16 s = count_units (runes s) 0

-- The clamp of the two functions for uint32; a count is never negative.
unfoldable pub clamp_uint32 : ℕ → ℕ
clamp_uint32 n = if ltb max_uint32 n then max_uint32 else n

-- ByteOffsetToUTF16Uint32
unfoldable pub byte_offset_to_utf16_uint32 : Bytes → ℕ → ℕ
byte_offset_to_utf16_uint32 s byte_offset = clamp_uint32 (byte_offset_to_utf16 s byte_offset)

-- StringLengthUTF16Uint32
unfoldable pub string_length_utf16_uint32 : Bytes → ℕ
string_length_utf16_uint32 s = clamp_uint32 (string_length_utf16 s)
