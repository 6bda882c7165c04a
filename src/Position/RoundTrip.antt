-- ===== src/Position/RoundTrip.antt =====
-- The two conversions of internal/position/utf16.go against one another.
use design_tokens_language_s.Prelude.{
  ℕ, zero, suc, ◌+◌, ◌-◌, ◌≤◌, ◌<◌, ◌≡◌, ◌⊎◌, inl, inr, refl, sym, ap, ◌∙◌, List, [], ◌∷◌, arith,
  length, drop, drop-drop, length-drop, leb, All, Bool-cases,
}
use design_tokens_language_s.GoString.{Bytes}
use design_tokens_language_s.Utf8.{decode_rune, rune_len, runes, runes_within}
use design_tokens_language_s.Utf8.Laws.{
  decode_rune-Fits, rune_len_bounds, IsRune, total, total-runes, runes-IsRune,
}
use design_tokens_language_s.Position.{
  utf16_to_byte_offset, byte_offset_to_utf16, string_length_utf16,
}
use design_tokens_language_s.Position.Walk.{
  bytes_before, units_before, units, utf16_to_byte_offset-runes, byte_offset_to_utf16-runes,
  string_length_utf16-runes,
}
use design_tokens_language_s.Position.Bounds.{utf16_to_byte_offset-le-length}

inside : (s : Bytes) (k : ℕ) → k ≤ length s → byte_offset_to_utf16 s k ≡ units_before (runes s) k
inside s k h = byte_offset_to_utf16-runes s k ∙ ap (λ t. units_before (runes s) t) (omega arith)

cancel : (a b : ℕ) → a + b - a ≡ b
cancel a b = omega arith

-- The rune at this byte takes two code units.
abbrev pub IsPairAt : Bytes → ℕ → Type 0
IsPairAt s offset = rune_len (decode_rune (drop offset s)).0 ≡ 2

-- The column that an offset has, against the one it was found for.
abbrev Back : Bytes → List (ℕ × ℕ) → ℕ → ℕ → Type 0
Back s rs col offset =
    (units_before rs offset ≡ col) ⊎ ((units_before rs offset + 1 ≡ col) × IsPairAt s offset)

passed_rune :
    (s : Bytes) (r size col offset : ℕ) (rs : List (ℕ × ℕ))
    → rune_len r ≤ col
    → Back (drop size s) rs (col - rune_len r) offset
    → Back s ((r, size) ∷ rs) col (size + offset)
passed_rune s r size col offset rs h (inl e) = inl (ground (arith, e, cancel size offset))
passed_rune s r size col offset rs h (inr (e, p)) = inr (
  ground (arith, e, cancel size offset),
  ap (λ t. rune_len (decode_rune t).0) (sym (drop-drop offset size s)) ∙ p,
)

column-Back :
    (f : ℕ) (s : Bytes) (col : ℕ)
    → length s ≤ f
    → col ≤ units (runes_within f s)
    → Back s (runes_within f s) col (bytes_before (runes_within f s) col)
unfolding runes_within
column-Back zero s col h l = inl (omega (arith, l))
column-Back (suc f) [] col h l = inl (omega (arith, l))
column-Back (suc f) (b ∷ s) col h l =
    let (r, size) = decode_rune (b ∷ s) in
    let rs = runes_within f (drop size (b ∷ s)) in
    let fits = decode_rune-Fits b s in
    let fuel : length (drop size (b ∷ s)) ≤ f = omega (arith, h, length-drop size (b ∷ s), fits) in
    elim (Bool-cases (leb (rune_len r) col)) [
      | inl e ↦ rw e (
          passed_rune (b ∷ s) r size col (bytes_before rs (col - rune_len r)) rs (ground (arith, e))
            (column-Back f (drop size (b ∷ s)) (col - rune_len r) fuel (omega (arith, l))))
      | inr e ↦ ground (arith, e, rune_len_bounds r, fits)
    ]

bytes_before_all : (rs : List (ℕ × ℕ)) (col : ℕ) → units rs ≤ col → bytes_before rs col ≡ total rs
bytes_before_all [] col h = refl
bytes_before_all ((r, size) ∷ rs) col h = ground (arith, bytes_before_all rs (col - rune_len r))

-- A column past the line's end leads to the line's end. For any other column, the offset that it
-- leads to has that column again, or the column is in the middle of a surrogate pair: the offset
-- has the column before it, and the rune that starts there takes two code units.
pub column-byte-column :
    (s : Bytes) (col : ℕ)
    → ((string_length_utf16 s < col) × (utf16_to_byte_offset s col ≡ length s))
      ⊎ ((col ≤ string_length_utf16 s)
          × ((byte_offset_to_utf16 s (utf16_to_byte_offset s col) ≡ col)
              ⊎ ((byte_offset_to_utf16 s (utf16_to_byte_offset s col) + 1 ≡ col)
                  × IsPairAt s (utf16_to_byte_offset s col))))
unfolding runes
column-byte-column s col = elim (Bool-cases (leb col (string_length_utf16 s))) [
  | inl h ↦ inr (
    ground (arith, h),
    rw (inside s _ (utf16_to_byte_offset-le-length s col), utf16_to_byte_offset-runes)
        (column-Back (length s) s col (omega arith)
          (ground (arith, h, string_length_utf16-runes s))),
  )
  | inr h ↦ inl (
    ground (arith, h),
    utf16_to_byte_offset-runes s col
        ∙ bytes_before_all (runes s) col (ground (arith, h, string_length_utf16-runes s))
        ∙ total-runes s,
  )
]

byte_back :
    (rs : List (ℕ × ℕ)) (k : ℕ)
    → All IsRune rs
    → k ≤ total rs
    → (bytes_before rs (units_before rs k) ≤ k)
      × (k < bytes_before rs (units_before rs k) + 4)
      × (units_before rs (bytes_before rs (units_before rs k)) ≡ units_before rs k)
byte_back [] k h l = ground arith
byte_back ((r, size) ∷ rs) k ((lo, hi), hs) l = ground (
  arith,
  byte_back rs (k - size) hs,
  rune_len_bounds r,
  cancel size (bytes_before rs (units_before rs (k - size))),
  cancel (rune_len r) (units_before rs (k - size)),
)

-- A byte offset within the line, converted to a column and back, gives the start of the rune that
-- it lies in: at most three bytes before it, with the same column.
pub byte-column-byte :
    (s : Bytes) (k : ℕ)
    → k ≤ length s
    → (utf16_to_byte_offset s (byte_offset_to_utf16 s k) ≤ k)
      × (k < utf16_to_byte_offset s (byte_offset_to_utf16 s k) + 4)
      × (byte_offset_to_utf16 s (utf16_to_byte_offset s (byte_offset_to_utf16 s k))
          ≡ byte_offset_to_utf16 s k)
byte-column-byte s k h =
    rw
      (
        inside s _ (utf16_to_byte_offset-le-length s (byte_offset_to_utf16 s k)),
        inside s k h,
        utf16_to_byte_offset-runes,
      )
      (byte_back (runes s) k (runes-IsRune s) (omega (arith, total-runes s)))

units_before_all : (rs : List (ℕ × ℕ)) → units_before rs (total rs) ≡ units rs
units_before_all [] = refl
units_before_all ((r, size) ∷ rs) = ground (arith, units_before_all rs, cancel size (total rs))

-- The length of a line in code units is the column of its end, and that column and every later
-- one lead to its end.
pub line_end :
    (s : Bytes) (col : ℕ)
    → string_length_utf16 s ≤ col
    → (byte_offset_to_utf16 s (length s) ≡ string_length_utf16 s)
      × (utf16_to_byte_offset s col ≡ length s)
line_end s col h = (
  inside s (length s) (omega arith)
      ∙ ap (λ t. units_before (runes s) t) (sym (total-runes s))
      ∙ units_before_all (runes s)
      ∙ sym (string_length_utf16-runes s),
  utf16_to_byte_offset-runes s col
      ∙ bytes_before_all (runes s) col (omega (arith, string_length_utf16-runes s))
      ∙ total-runes s,
)
