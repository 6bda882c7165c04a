-- ===== src/Tests/Positions.antt =====
-- internal/position/utf16.go at concrete lines.
use design_tokens_language_s.Prelude.{◌+◌, ◌≤◌, ◌<◌, ◌≡◌, ◌⊎◌, refl, [], ◌∷◌, arith, length}
use design_tokens_language_s.GoString.{Bytes}
use design_tokens_language_s.Utf8.{decode_rune, rune_len, runes, runes_within}
use design_tokens_language_s.Position.{
  utf16_to_byte_offset, utf16_round, pass_rune, byte_offset_to_utf16, byte_round,
  string_length_utf16,
}
use design_tokens_language_s.Position.RoundTrip.{IsPairAt, column-byte-column, byte-column-byte}

-- "a", U+1F44B (four bytes, two units), U+00E9 (two bytes, one unit), an invalid byte, "b"
abbrev wave : Bytes
wave = 97 ∷ 0xF0 ∷ 0x9F ∷ 0x91 ∷ 0x8B ∷ 0xC3 ∷ 0xA9 ∷ 0xFF ∷ 98 ∷ []

columns :
    (utf16_to_byte_offset wave 1 ≡ 1)
    × (utf16_to_byte_offset wave 2 ≡ 1)
    × (utf16_to_byte_offset wave 3 ≡ 5)
    × (utf16_to_byte_offset wave 4 ≡ 7)
    × (utf16_to_byte_offset wave 5 ≡ 8)
    × (utf16_to_byte_offset wave 99 ≡ 9)
unfolding utf16_to_byte_offset utf16_round pass_rune decode_rune rune_len
columns = (refl, refl, refl, refl, refl, refl)

bytes_to_columns :
    (byte_offset_to_utf16 wave 3 ≡ 1)
    × (byte_offset_to_utf16 wave 5 ≡ 3)
    × (byte_offset_to_utf16 wave 8 ≡ 5)
    × (string_length_utf16 wave ≡ 6)
unfolding byte_offset_to_utf16 byte_round decode_rune rune_len string_length_utf16 runes
    runes_within
bytes_to_columns = (refl, refl, refl, refl)

column-byte-column_example :
    ((string_length_utf16 wave < 2) × (utf16_to_byte_offset wave 2 ≡ length wave))
    ⊎ ((2 ≤ string_length_utf16 wave)
        × ((byte_offset_to_utf16 wave (utf16_to_byte_offset wave 2) ≡ 2)
            ⊎ ((byte_offset_to_utf16 wave (utf16_to_byte_offset wave 2) + 1 ≡ 2)
                × IsPairAt wave (utf16_to_byte_offset wave 2))))
column-byte-column_example = column-byte-column wave 2

byte-column-byte_example :
    (utf16_to_byte_offset wave (byte_offset_to_utf16 wave 3) ≤ 3)
    × (3 < utf16_to_byte_offset wave (byte_offset_to_utf16 wave 3) + 4)
    × (byte_offset_to_utf16 wave (utf16_to_byte_offset wave (byte_offset_to_utf16 wave 3))
        ≡ byte_offset_to_utf16 wave 3)
byte-column-byte_example = byte-column-byte wave 3 (omega arith)
