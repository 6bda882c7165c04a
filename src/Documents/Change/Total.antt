-- ===== src/Documents/Change/Total.antt =====
-- Which incremental changes are rejected, and that none panics.
use design_tokens_language_s.Prelude.{
  ℕ, ◌-◌, ◌≤◌, ◌<◌, ◌≡◌, ◌⊎◌, Bool, true, false, Bool-cases, ◌==◌, ◌&&◌, inl, inr, List, arith,
  length,
}
use design_tokens_language_s.Outcome.{Outcome, ok, err}
use design_tokens_language_s.GoString.{Bytes, split}
use design_tokens_language_s.GoString.Laws.{split-ne-nil}
use design_tokens_language_s.Position.{string_length_utf16}
use design_tokens_language_s.Documents.Change.{
  Position, Range, newline, normalize_eof_position, validate_normalized_bounds, change_lines,
  apply_incremental_change,
}
use design_tokens_language_s.Documents.Change.Splice.{IsInside, get_elem?-found, length-pos}

-- A position past the last line, or behind it at a column that is not 0.
abbrev pub IsOutside : Bytes → Position → Type 0
IsOutside content p =
    (length (split newline content) < p.line)
    ⊎ (p.line ≡ length (split newline content)) × (0 < p.character)

pub IsInside-or_IsOutside :
    (content : Bytes) (p : Position) → IsInside content p ⊎ IsOutside content p
IsInside-or_IsOutside content p = grind arith

-- An error is returned: no text, and no panic.
abbrev pub rejects {ℓ κ} : {E : Type ℓ} {A : Type κ} → Outcome E A → Bool
rejects (err e) = true
rejects _ = false

-- Splitting gives at least one line, so the normalisation of a position always succeeds.
normalize_total :
    (content : Bytes) (line character : ℕ)
    → (n : ℕ) × (c : ℕ) × (normalize_eof_position line character (split newline content)
        ≡ ok (n, c))
unfolding normalize_eof_position
normalize_total content line character =
    let lines = split newline content in
    let few = length-pos lines (split-ne-nil newline content) in
    let (l, e) = get_elem?-found lines (length lines - 1) (omega arith) in
    elim (Bool-cases (line == length lines && character == 0)) [
      | inl h ↦ (length lines - 1, string_length_utf16 l, rw h (ground arith))
      | inr h ↦ (line, character, rw h)
    ]

outside_stays :
    (content : Bytes) (p : Position)
    → IsOutside content p
    → normalize_eof_position p.line p.character (split newline content) ≡ ok (p.line, p.character)
unfolding normalize_eof_position
outside_stays content p h = ground arith

rejected_lines :
    (lines : List Bytes) (r : Range) (text : Bytes) (i c j d : ℕ)
    → normalize_eof_position r.start.line r.start.character lines ≡ ok (i, c)
    → normalize_eof_position r.stop.line r.stop.character lines ≡ ok (j, d)
    → (length lines ≤ i) ⊎ (length lines ≤ j)
    → rejects (change_lines lines r text) ≡ true
unfolding change_lines validate_normalized_bounds
rejected_lines lines r text i c j d hs he h = rw (hs, he) (ground arith)

-- A change with an end outside the content is rejected with an error.
pub apply_incremental_change_outside :
    (content : Bytes) (r : Range) (text : Bytes)
    → IsOutside content r.start ⊎ IsOutside content r.stop
    → rejects (apply_incremental_change content r text) ≡ true
unfolding apply_incremental_change
apply_incremental_change_outside content r text (inl h) =
    let (j, d, e) = normalize_total content r.stop.line r.stop.character in
    ground (
      arith,
      rejected_lines (split newline content) r text r.start.line r.start.character j d
          (outside_stays content r.start h) e,
    )
apply_incremental_change_outside content r text (inr h) =
    let (i, c, e) = normalize_total content r.start.line r.start.character in
    ground (
      arith,
      rejected_lines (split newline content) r text i c r.stop.line r.stop.character e
          (outside_stays content r.stop h),
    )
