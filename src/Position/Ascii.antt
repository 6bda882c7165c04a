-- ===== src/Position/Ascii.antt =====
-- Columns of lines of ASCII bytes, for which internal/position/utf16.go has nothing to convert.
use design_tokens_language_s.Prelude.{
  ℕ, zero, suc, ◌-◌, ◌≤◌, ◌<◌, ◌≡◌, ◌⊎◌, inl, inr, refl, ◌∙◌, some, [], ◌∷◌, length, get_elem?, min,
  ltb, All, Bool-cases, arith,
}
use design_tokens_language_s.GoString.{Bytes}
use design_tokens_language_s.Utf8.{decode_rune, rune_len, runes, runes_within}
use design_tokens_language_s.Position.{utf16_to_byte_offset}
use design_tokens_language_s.Position.Walk.{bytes_before, utf16_to_byte_offset-runes}

abbrev pub IsAscii : ℕ → Type 0
IsAscii b = b < 0x80

-- Some byte belongs to a rune that is not ASCII.
abbrev pub HasWide : Bytes → Type 0
HasWide s = (i : ℕ) × (b : ℕ) × (get_elem? s i ≡ some b) × (0x80 ≤ b)

pub IsAscii-or_wide : (s : Bytes) → All IsAscii s ⊎ HasWide s
IsAscii-or_wide [] = inl tt
IsAscii-or_wide (b ∷ s) = elim (Bool-cases (ltb b 0x80)) [
  | inl h ↦ elim (IsAscii-or_wide s) [
    | inl a ↦ inl (ground (arith, h), a)
    | inr (i, c, e, w) ↦ inr (suc i, c, e, w)
  ]
  | inr h ↦ inr (0, b, refl, ground (arith, h))
]

bytes_before_ascii :
    (f : ℕ) (s : Bytes) (col : ℕ)
    → length s ≤ f
    → All IsAscii s
    → bytes_before (runes_within f s) col ≡ min col (length s)
unfolding runes_within decode_rune rune_len
bytes_before_ascii zero [] col h a = omega arith
bytes_before_ascii zero (b ∷ s) col h a = absurd (omega (arith, h))
bytes_before_ascii (suc f) [] col h a = omega arith
bytes_before_ascii (suc f) (b ∷ s) col h (lo, a) =
    ground (arith, lo, bytes_before_ascii f s (col - 1) (omega (arith, h)) a)

-- On a line of ASCII bytes, a column within it is its byte offset.
pub utf16_to_byte_offset_ascii :
    (s : Bytes) (col : ℕ) → All IsAscii s → col ≤ length s → utf16_to_byte_offset s col ≡ col
unfolding runes
utf16_to_byte_offset_ascii s col a h =
    utf16_to_byte_offset-runes s col
    ∙ bytes_before_ascii (length s) s col (omega arith) a
    ∙ omega (arith, h)
