-- ===== src/Utf8/Laws.antt =====
-- What decoding guarantees: widths within the string, and valid scalar values.
use design_tokens_language_s.Prelude.{
  ℕ, zero, suc, ◌+◌, ◌≤◌, ◌<◌, ◌≡◌, ◌⊎◌, List, [], ◌∷◌, arith, length, drop, All, refl, length-drop,
}
use design_tokens_language_s.GoString.{Bytes}
use design_tokens_language_s.Utf8.{
  decode_rune, decode2, decode3, decode4, rune_len, runes_within, runes,
}

-- A width of one to four bytes, and no more than there are.
abbrev pub Fits : ℕ → Bytes → Type 0
Fits size s = (1 ≤ size) × (size ≤ 4) × (size ≤ length s)

decode2-Fits : (b0 : ℕ) (s : Bytes) → Fits (decode2 b0 s).1 (b0 ∷ s)
unfolding decode2
decode2-Fits b0 [] = omega arith
decode2-Fits b0 (b1 ∷ s) = ground arith

decode3-Fits : (b0 : ℕ) (s : Bytes) → Fits (decode3 b0 s).1 (b0 ∷ s)
unfolding decode3
decode3-Fits b0 [] = omega arith
decode3-Fits b0 (b1 ∷ []) = omega arith
decode3-Fits b0 (b1 ∷ b2 ∷ s) = ground arith

decode4-Fits : (b0 : ℕ) (s : Bytes) → Fits (decode4 b0 s).1 (b0 ∷ s)
unfolding decode4
decode4-Fits b0 [] = omega arith
decode4-Fits b0 (b1 ∷ []) = omega arith
decode4-Fits b0 (b1 ∷ b2 ∷ []) = omega arith
decode4-Fits b0 (b1 ∷ b2 ∷ b3 ∷ s) = ground arith

pub decode_rune-Fits : (b : ℕ) (s : Bytes) → Fits (decode_rune (b ∷ s)).1 (b ∷ s)
unfolding decode_rune
decode_rune-Fits b s = ground (arith, decode2-Fits b s, decode3-Fits b s, decode4-Fits b s)

-- A Unicode scalar value: no surrogate, at most 0x10FFFF.
abbrev pub IsScalar : ℕ → Type 0
IsScalar r = ((r < 0xD800) ⊎ (0xE000 ≤ r)) × (r ≤ 0x10FFFF)

decode2-IsScalar : (b0 : ℕ) (s : Bytes) → IsScalar (decode2 b0 s).0
unfolding decode2
decode2-IsScalar b0 [] = omega arith
decode2-IsScalar b0 (b1 ∷ s) = ground arith

decode3-IsScalar : (b0 : ℕ) (s : Bytes) → 0xE0 ≤ b0 → b0 ≤ 0xEF → IsScalar (decode3 b0 s).0
unfolding decode3
decode3-IsScalar b0 [] lo hi = omega arith
decode3-IsScalar b0 (b1 ∷ []) lo hi = omega arith
decode3-IsScalar b0 (b1 ∷ b2 ∷ s) lo hi = ground arith

decode4-IsScalar : (b0 : ℕ) (s : Bytes) → 0xF0 ≤ b0 → b0 ≤ 0xF4 → IsScalar (decode4 b0 s).0
unfolding decode4
decode4-IsScalar b0 [] lo hi = omega arith
decode4-IsScalar b0 (b1 ∷ []) lo hi = omega arith
decode4-IsScalar b0 (b1 ∷ b2 ∷ []) lo hi = omega arith
decode4-IsScalar b0 (b1 ∷ b2 ∷ b3 ∷ s) lo hi = ground arith

-- Every decoded rune, that of an invalid byte included, is a scalar value.
pub decode_rune-IsScalar : (s : Bytes) → IsScalar (decode_rune s).0
unfolding decode_rune
decode_rune-IsScalar [] = omega arith
decode_rune-IsScalar (b ∷ s) =
    ground (arith, decode2-IsScalar b s, decode3-IsScalar b s, decode4-IsScalar b s)

-- A rune has one or two UTF-16 code units.
pub rune_len_bounds : (r : ℕ) → (1 ≤ rune_len r) × (rune_len r ≤ 2)
unfolding rune_len
rune_len_bounds r = ground arith

-- What each visited rune satisfies.
abbrev pub IsRune : ℕ × ℕ → Type 0
IsRune (r, size) = (1 ≤ size) × (size ≤ 4)

runes_within-IsRune : (f : ℕ) (s : Bytes) → All IsRune (runes_within f s)
unfolding runes_within
runes_within-IsRune zero s = tt
runes_within-IsRune (suc f) [] = tt
runes_within-IsRune (suc f) (b ∷ s) =
    let fits = decode_rune-Fits b s in
    ((fits.0, fits.1), runes_within-IsRune f (drop (decode_rune (b ∷ s)).1 (b ∷ s)))

pub runes-IsRune : (s : Bytes) → All IsRune (runes s)
unfolding runes
runes-IsRune s = runes_within-IsRune (length s) s

-- The bytes that the visited runes take.
abbrev pub total : List (ℕ × ℕ) → ℕ
total [] = 0
total ((r, size) ∷ rs) = size + total rs

total-runes_within : (f : ℕ) (s : Bytes) → length s ≤ f → total (runes_within f s) ≡ length s
unfolding runes_within
total-runes_within zero [] h = refl
total-runes_within zero (b ∷ s) h = absurd (omega arith)
total-runes_within (suc f) [] h = refl
total-runes_within (suc f) (b ∷ s) h =
    let n = (decode_rune (b ∷ s)).1 in
    omega (
      arith,
      decode_rune-Fits b s,
      length-drop n (b ∷ s),
      total-runes_within f (drop n (b ∷ s))
          (omega (arith, decode_rune-Fits b s, length-drop n (b ∷ s))),
    )

-- Every byte belongs to one rune: the rounds of the loop are enough.
pub total-runes : (s : Bytes) → total (runes s) ≡ length s
unfolding runes
total-runes s = total-runes_within (length s) s (omega arith)
