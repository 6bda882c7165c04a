-- ===== src/Position/Walk.antt =====
-- The loops of internal/position/utf16.go against plain recursions over the runes of the string.
use design_tokens_language_s.Prelude.{
  ℕ, zero, suc, ◌+◌, ◌-◌, ◌≤◌, ◌≡◌, refl, ◌∙◌, some, none, List, [], ◌∷◌, arith, length, drop,
  length-drop, min, leb, if◌then◌else◌,
}
use design_tokens_language_s.GoString.{Bytes}
use design_tokens_language_s.Utf8.{decode_rune, rune_len, runes, runes_within}
use design_tokens_language_s.Utf8.Laws.{decode_rune-Fits, rune_len_bounds}
use design_tokens_language_s.Position.{
  utf16_loop, utf16_round, pass_rune, utf16_to_byte_offset, byte_loop, byte_round,
  byte_offset_to_utf16, count_units, string_length_utf16,
}

-- The bytes of the runes that lie whole before `col` code units.
abbrev pub bytes_before : List (ℕ × ℕ) → ℕ → ℕ
bytes_before [] col = 0
bytes_before ((r, size) ∷ rs) col =
    if leb (rune_len r) col then size + bytes_before rs (col - rune_len r) else 0

-- The code units of the runes that lie whole before `target` bytes.
abbrev pub units_before : List (ℕ × ℕ) → ℕ → ℕ
units_before [] target = 0
units_before ((r, size) ∷ rs) target =
    if leb size target then rune_len r + units_before rs (target - size) else 0

-- The code units of all runes.
abbrev pub units : List (ℕ × ℕ) → ℕ
units [] = 0
units ((r, size) ∷ rs) = rune_len r + units rs

regroup : (a b c : ℕ) → a - (b + c) ≡ a - b - c
regroup a b c = omega arith

-- A round breaks off where the rune does not lie whole before `col`.
utf16_round_lem :
    (b : ℕ) (s : Bytes) (n col : ℕ)
    → n ≤ col
    → utf16_round (b ∷ s) n col ≡ (
        if leb (rune_len (decode_rune (b ∷ s)).0) (col - n)
        then some (n + rune_len (decode_rune (b ∷ s)).0, (decode_rune (b ∷ s)).1)
        else none)
unfolding utf16_round pass_rune rune_len
utf16_round_lem b s n col h = ground arith

utf16_loop-bytes_before :
    (f : ℕ) (s : Bytes) (n off col : ℕ)
    → length s ≤ f
    → n ≤ col
    → utf16_loop f s n off col ≡ off + bytes_before (runes_within f s) (col - n)
unfolding utf16_loop runes_within
utf16_loop-bytes_before zero s n off col h k = omega arith
utf16_loop-bytes_before (suc f) [] n off col h k = unfold utf16_round in omega arith
utf16_loop-bytes_before (suc f) (b ∷ s) n off col h k =
    let size : ℕ = (decode_rune (b ∷ s)).1 in
    let u : ℕ = rune_len (decode_rune (b ∷ s)).0 in
    ground (
      arith,
      utf16_round_lem b s n col k,
      utf16_loop-bytes_before f (drop size (b ∷ s)) (n + u) (off + size) col,
      length-drop size (b ∷ s),
      decode_rune-Fits b s,
      regroup col n u,
    )

byte_round_lem :
    (b : ℕ) (s : Bytes) (current target : ℕ)
    → current ≤ target
    → byte_round (b ∷ s) current target ≡ (
        if leb (decode_rune (b ∷ s)).1 (target - current)
        then some (rune_len (decode_rune (b ∷ s)).0, (decode_rune (b ∷ s)).1)
        else none)
unfolding byte_round
byte_round_lem b s current target h = ground (arith, decode_rune-Fits b s)

byte_loop-units_before :
    (f : ℕ) (s : Bytes) (count current target : ℕ)
    → length s ≤ f
    → current ≤ target
    → target ≤ current + length s
    → byte_loop f s count current target
      ≡ count + units_before (runes_within f s) (target - current)
unfolding byte_loop runes_within
byte_loop-units_before zero s count current target h k l = omega arith
byte_loop-units_before (suc f) [] count current target h k l = unfold byte_round in ground arith
byte_loop-units_before (suc f) (b ∷ s) count current target h k l =
    let size : ℕ = (decode_rune (b ∷ s)).1 in
    let u : ℕ = rune_len (decode_rune (b ∷ s)).0 in
    ground (
      arith,
      byte_round_lem b s current target k,
      byte_loop-units_before f (drop size (b ∷ s)) (count + u) (current + size) target,
      length-drop size (b ∷ s),
      decode_rune-Fits b s,
      regroup target current size,
    )

count_units-units : (rs : List (ℕ × ℕ)) (count : ℕ) → count_units rs count ≡ count + units rs
unfolding count_units
count_units-units [] count = omega arith
count_units-units ((r, size) ∷ rs) count = omega (arith, count_units-units rs (count + rune_len r))

bytes_before-zero : (rs : List (ℕ × ℕ)) → bytes_before rs 0 ≡ 0
bytes_before-zero [] = refl
bytes_before-zero ((r, size) ∷ rs) = ground (arith, rune_len_bounds r)

units_before-zero : (f : ℕ) (s : Bytes) → units_before (runes_within f s) 0 ≡ 0
unfolding runes_within
units_before-zero zero s = refl
units_before-zero (suc f) [] = refl
units_before-zero (suc f) (b ∷ s) = ground (arith, decode_rune-Fits b s)

-- The three functions, each by one recursion over the runes.
pub utf16_to_byte_offset-runes :
    (s : Bytes) (col : ℕ) → utf16_to_byte_offset s col ≡ bytes_before (runes s) col
unfolding utf16_to_byte_offset runes
utf16_to_byte_offset-runes s col = ground (
  arith,
  utf16_loop-bytes_before (length s) s 0 0 col,
  bytes_before-zero (runes_within (length s) s),
)

pub byte_offset_to_utf16-runes :
    (s : Bytes) (target : ℕ)
    → byte_offset_to_utf16 s target ≡ units_before (runes s) (min target (length s))
unfolding byte_offset_to_utf16 runes
byte_offset_to_utf16-runes s target = ground (
  arith,
  byte_loop-units_before (length s) s 0 0 (min target (length s)),
  units_before-zero (length s) s,
)

pub string_length_utf16-runes : (s : Bytes) → string_length_utf16 s ≡ units (runes s)
unfolding string_length_utf16
string_length_utf16-runes s = count_units-units (runes s) 0 ∙ omega arith
