-- ===== src/Utf8.antt =====
-- Go's `unicode/utf8` and `unicode/utf16` as far as the server uses them: decoding the first rune of
-- a string, the runes that `for _, r := range s` visits, and the UTF-16 length of a rune.
pub mod Laws
use design_tokens_language_s.Prelude.{
  ℕ, zero, suc, ◌+◌, ◌*◌, ◌%◌, Bool, ◌&&◌, List, [], ◌∷◌, length, drop, ◌==◌, ltb, leb,
  if◌then◌else◌,
}
use design_tokens_language_s.GoString.{Bytes}

-- utf8.RuneError
abbrev pub rune_error : ℕ
rune_error = 0xFFFD

-- What decoding an invalid byte gives.
abbrev invalid : ℕ × ℕ
invalid = (rune_error, 1)

abbrev within : ℕ → ℕ → ℕ → Bool
within lo hi b = leb lo b && leb b hi

is_continuation : ℕ → Bool
is_continuation = within 0x80 0xBF

-- The range of the second byte behind a leading byte.
second_lo : ℕ → ℕ
second_lo b0 = if b0 == 0xE0 then 0xA0 else if b0 == 0xF0 then 0x90 else 0x80

second_hi : ℕ → ℕ
second_hi b0 = if b0 == 0xED then 0x9F else if b0 == 0xF4 then 0x8F else 0xBF

is_second : ℕ → ℕ → Bool
unfolding second_lo second_hi
is_second b0 = within (second_lo b0) (second_hi b0)

decode2 : ℕ → Bytes → ℕ × ℕ
unfolding is_second
decode2 b0 (b1 ∷ _) = if is_second b0 b1 then ((b0 % 32) * 64 + b1 % 64, 2) else invalid
decode2 b0 _ = invalid

decode3 : ℕ → Bytes → ℕ × ℕ
unfolding is_second is_continuation
decode3 b0 (b1 ∷ b2 ∷ _) =
    if is_second b0 b1 && is_continuation b2
    then ((b0 % 16) * 4096 + (b1 % 64) * 64 + b2 % 64, 3)
    else invalid
decode3 b0 _ = invalid

decode4 : ℕ → Bytes → ℕ × ℕ
unfolding is_second is_continuation
decode4 b0 (b1 ∷ b2 ∷ b3 ∷ _) =
    if is_second b0 b1 && is_continuation b2 && is_continuation b3
    then ((b0 % 8) * 262144 + (b1 % 64) * 4096 + (b2 % 64) * 64 + b3 % 64, 4)
    else invalid
decode4 b0 _ = invalid

-- utf8.DecodeRuneInString(s): the rune and its width in bytes
unfoldable pub decode_rune : Bytes → ℕ × ℕ
unfolding decode2 decode3 decode4
decode_rune [] = (rune_error, 0)
decode_rune (b0 ∷ s) =
    if ltb b0 0x80
    then (b0, 1)
    else if within 0xC2 0xDF b0
    then decode2 b0 s
    else if within 0xE0 0xEF b0
    then decode3 b0 s
    else if within 0xF0 0xF4 b0
    then decode4 b0 s
    else invalid

-- utf16.RuneLen(r). Its answer -1, for a surrogate or past 0x10FFFF, is left out: no decoded rune is
-- one of those (`decode_rune-IsScalar`).
unfoldable pub rune_len : ℕ → ℕ
rune_len r = if ltb r 0x10000 then 1 else 2

-- The runes that `for _, r := range s` visits, with their widths; a round takes a byte at least.
unfoldable pub runes_within : ℕ → Bytes → List (ℕ × ℕ)
runes_within zero s = []
runes_within (suc f) [] = []
runes_within (suc f) (b ∷ s) =
    let (r, size) = decode_rune (b ∷ s) in (r, size) ∷ runes_within f (drop size (b ∷ s))

unfoldable pub runes : Bytes → List (ℕ × ℕ)
unfolding runes_within
runes s = runes_within (length s) s
