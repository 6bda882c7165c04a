-- ===== src/Tests/Edits.antt =====
-- Incremental changes at concrete texts.
use design_tokens_language_s.Prelude.{
  ℕ, ◌≡◌, ◌↔◌, refl, inl, inr, none, some, true, List, [], ◌∷◌, ◌++◌, arith, take, drop,
}
use design_tokens_language_s.Outcome.{ok}
use design_tokens_language_s.GoString.{Bytes, ascii, split}
use design_tokens_language_s.Utf8.{decode_rune, rune_len, runes, runes_within}
use design_tokens_language_s.Position.{
  utf16_to_byte_offset, utf16_round, pass_rune, string_length_utf16,
}
use design_tokens_language_s.Documents.Change.{
  Position, Range, ContentChange, apply_incremental_change, apply_changes,
}
use design_tokens_language_s.Documents.Change.Splice.{byte_of, apply_incremental_change_splice}
use design_tokens_language_s.Documents.Change.Total.{rejects, apply_incremental_change_outside}
use design_tokens_language_s.Documents.Change.Edits.{Edits, apply_changes_iff-Edits}

abbrev pos : ℕ → ℕ → Position
pos line character = record { line = line; character = character }

abbrev between : Position → Position → Range
between start stop = record { start = start; stop = stop }

abbrev two_lines : Bytes
two_lines = ascii "ab\ncd"

abbrev inner : Range
inner = between (pos 0 1) (pos 1 1)

abbrev at_end : Range
at_end = between (pos 2 0) (pos 2 0)

-- The start stands behind the end: the text between them is doubled.
abbrev reversed : Range
reversed = between (pos 1 1) (pos 0 1)

incremental_runs :
    (apply_incremental_change two_lines inner (ascii "X") ≡ ok (ascii "aXd"))
    × (apply_incremental_change two_lines at_end (ascii "!") ≡ ok (ascii "ab\ncd!"))
    × (apply_incremental_change two_lines reversed (ascii "X") ≡ ok (ascii "ab\ncXb\ncd"))
unfolding apply_incremental_change split utf16_to_byte_offset utf16_round pass_rune decode_rune
    rune_len string_length_utf16 runes runes_within
incremental_runs = (refl, refl, refl)

apply_incremental_change_splice_example :
    apply_incremental_change two_lines inner (ascii "X")
    ≡ ok (
        take (byte_of two_lines (pos 0 1)) two_lines
        ++ (ascii "X" ++ drop (byte_of two_lines (pos 1 1)) two_lines))
unfolding split
apply_incremental_change_splice_example =
    apply_incremental_change_splice two_lines inner (ascii "X") (inl (omega arith))
      (inl (omega arith))

apply_incremental_change_outside_example :
    rejects (apply_incremental_change two_lines (between (pos 0 0) (pos 2 1)) []) ≡ true
unfolding split
apply_incremental_change_outside_example =
    apply_incremental_change_outside two_lines (between (pos 0 0) (pos 2 1)) []
      (inr (inr (refl, omega arith)))

abbrev changes : List ContentChange
changes = record { range = none; text = two_lines } ∷ record { range = some inner; text = [] } ∷ []

apply_changes_iff-Edits_example :
    (apply_changes [] changes ≡ ok (ascii "ad")) ↔ Edits [] changes (ascii "ad")
apply_changes_iff-Edits_example = apply_changes_iff-Edits [] (ascii "ad") changes
