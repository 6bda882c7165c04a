-- ===== src/Features/References/Ranges.antt =====
-- The search for a text ends, and what it finds is that text.
use design_tokens_language_s.Prelude.{
  ℕ, suc, zero, ◌+◌, ◌≤◌, ◌<◌, ◌≡◌, ◌≢◌, ◌⊎◌, refl, sym, ap, ◌∙◌, true, some, List, [], ◌∷◌, ◌++◌,
  length, take, drop, get_elem?, All, All-append, length-drop, drop-drop, Bool-cases, Option-cases,
  inl, inr, if◌then◌else◌, arith,
}
use design_tokens_language_s.GoString.{Bytes, has_prefix, index, split}
use design_tokens_language_s.Documents.Change.{Range}
use design_tokens_language_s.Position.{utf16_to_byte_offset}
use design_tokens_language_s.Position.Ascii.{HasWide, IsAscii-or_wide, utf16_to_byte_offset_ascii}
use design_tokens_language_s.Features.References.{
  newline, line_range, exceeds, search, search_lines, find_substring_ranges,
}

has_prefix_lem :
    (s p : Bytes) → has_prefix s p ≡ true → (take (length p) s ≡ p) × (length p ≤ length s)
unfolding has_prefix
has_prefix_lem s [] h = (refl, omega arith)
has_prefix_lem [] (d ∷ p) h = cc
has_prefix_lem (c ∷ s) (d ∷ p) h =
    let (text, fits) = has_prefix_lem s p (ground arith) in
    (ground (arith, text), omega (arith, fits))

-- The text stands at this index.
abbrev pub StandsAt : Bytes → Bytes → ℕ → Type 0
StandsAt s p i = (take (length p) (drop i s) ≡ p) × (i + length p ≤ length s)

at_start : (s p : Bytes) (i : ℕ) → 0 ≡ i → has_prefix s p ≡ true → StandsAt s p i
at_start s p i e h =
    let (text, fits) = has_prefix_lem s p h in (rw (← e) text, omega (arith, e, fits))

one_later : (c : ℕ) (s p : Bytes) (i j : ℕ) → suc j ≡ i → StandsAt s p j → StandsAt (c ∷ s) p i
one_later c s p i j e (text, fits) = (rw (← e) text, omega (arith, e, fits))

index_lem : (s p : Bytes) (i : ℕ) → index s p ≡ some i → StandsAt s p i
unfolding index
index_lem [] p i h = elim (Bool-cases (has_prefix [] p)) [
  | inl e ↦ let found : some 0 ≡ some i = rw e at h in at_start [] p i (cc) e
  | inr e ↦ absurd (ground (arith, e))
]
index_lem (c ∷ s) p i h = elim (Bool-cases (has_prefix (c ∷ s) p)) [
  | inl e ↦ let found : some 0 ≡ some i = rw e at h in at_start (c ∷ s) p i (cc) e
  | inr e ↦ elim (Option-cases (index s p)) [
    | inl n ↦ absurd (ground (arith, e, n))
    | inr (j, f) ↦
        let found : some (suc j) ≡ some i = ground (arith, e, f, h) in
        one_later c s p i j (cc) (index_lem s p j f)
  ]
]

-- The protocol's columns of the range, read in UTF-16 code units, are its byte offsets.
abbrev pub SameColumns : Bytes → Range → Type 0
SameColumns line r =
    (utf16_to_byte_offset line r.start.character ≡ r.start.character)
    × (utf16_to_byte_offset line r.stop.character ≡ r.stop.character)

-- The text stands within this line of this number, at the range's columns counted in bytes; on a
-- line of ASCII bytes these are also its columns in UTF-16 code units.
pub record FoundIn (line_num : ℕ) (line substring : Bytes) (r : Range) : Type 0 where
  pub start_line : r.start.line ≡ line_num
  pub stop_line : r.stop.line ≡ line_num
  pub text : take (length substring) (drop r.start.character line) ≡ substring
  pub stop_after : r.stop.character ≡ r.start.character + length substring
  pub within : r.stop.character ≤ length line
  pub columns : HasWide line ⊎ SameColumns line r

same_columns :
    (n start stop : ℕ) (line : Bytes)
    → start ≤ length line
    → stop ≤ length line
    → HasWide line ⊎ SameColumns line (line_range n start stop)
same_columns n start stop line h k = elim (IsAscii-or_wide line) [
  | inl a ↦
      inr (utf16_to_byte_offset_ascii line start a h, utf16_to_byte_offset_ascii line stop a k)
  | inr w ↦ inl w
]

nonempty : (s : Bytes) → s ≢ [] → 1 ≤ length s
nonempty [] h = absurd (h refl)
nonempty (c ∷ s) h = omega arith

-- The range holds the text, in some line of a list that starts with this number.
abbrev pub FoundAmong : Bytes → ℕ → List Bytes → Range → Type 0
FoundAmong substring n lines r =
    (k : ℕ) × (line : Bytes) × (get_elem? lines k ≡ some line) × FoundIn (n + k) line substring r

module _ (substring : Bytes) (has_text : substring ≢ []) where
  one_more :
      (n start : ℕ) (line : Bytes) (rest : List Range)
      → StandsAt line substring start
      → All (FoundIn n line substring) rest
      → All (FoundIn n line substring) (
          if exceeds n start (start + length substring)
          then rest
          else line_range n start (start + length substring) ∷ rest)
  one_more n start line rest (text, fits) found =
      elim (Bool-cases (exceeds n start (start + length substring))) [
        | inl e ↦ rw e found
        | inr e ↦ rw e (
          record {
            start_line = refl;
            stop_line = refl;
            text = text;
            stop_after = refl;
            within = fits;
            columns =
                same_columns n start (start + length substring) line (omega (arith, fits)) fits;
          },
          found,
        )
      ]

  search_lem :
      (fuel n : ℕ) (line : Bytes) (offset : ℕ)
      → offset ≤ length line
      → length line < fuel + offset
      → (rs : List Range) × (search fuel n line substring offset ≡ some rs)
        × All (FoundIn n line substring) rs
  unfolding search
  search_lem zero n line offset h f = absurd (omega arith)
  search_lem (suc fuel) n line offset h f =
      elim (Option-cases (index (drop offset line) substring)) [
        | inl e ↦ ([], rw (e, search) refl, tt)
        | inr (i, e) ↦
            let (text, fits) = index_lem (drop offset line) substring i e in
            let some_text = nonempty substring has_text in
            let here : StandsAt line substring (offset + i) = (
              ap (take (length substring)) (sym (drop-drop i offset line)) ∙ text,
              omega (arith, fits, length-drop offset line),
            ) in
            let (rest, ends, found) =
              search_lem fuel n line (offset + i + length substring) here.1
                (omega (arith, some_text)) in
            (_, rw (e, search) (rw ends refl), one_more n (offset + i) line rest here found)
      ]

  in_first :
      (n : ℕ) (line : Bytes) (lines : List Bytes) (rs : List Range)
      → All (FoundIn n line substring) rs
      → All (FoundAmong substring n (line ∷ lines)) rs
  in_first n line lines [] a = tt
  in_first n line lines (r ∷ rs) (f, fs) = (
    (
      0,
      line,
      refl,
      record {
        start_line = omega (arith, f.start_line);
        stop_line = omega (arith, f.stop_line);
        text = f.text;
        stop_after = f.stop_after;
        within = f.within;
        columns = f.columns;
      },
    ),
    in_first n line lines rs fs,
  )

  in_later :
      (n : ℕ) (line : Bytes) (lines : List Bytes) (rs : List Range)
      → All (FoundAmong substring (suc n) lines) rs
      → All (FoundAmong substring n (line ∷ lines)) rs
  in_later n line lines [] a = tt
  in_later n line lines (r ∷ rs) ((k, l, e, f), fs) = (
    (
      suc k,
      l,
      e,
      record {
        start_line = omega (arith, f.start_line);
        stop_line = omega (arith, f.stop_line);
        text = f.text;
        stop_after = f.stop_after;
        within = f.within;
        columns = f.columns;
      },
    ),
    in_later n line lines rs fs,
  )

  search_lines_lem :
      (n : ℕ) (lines : List Bytes)
      → (rs : List Range) × (search_lines n lines substring ≡ some rs)
        × All (FoundAmong substring n lines) rs
  unfolding search_lines
  search_lines_lem n [] = ([], refl, tt)
  search_lines_lem n (line ∷ lines) =
      let (found, ends, here) =
        search_lem (suc (length line)) n line 0 (omega arith) (omega arith) in
      let (rest, rest_ends, later) = search_lines_lem (suc n) lines in
      (
        found ++ rest,
        rw (ends, search_lines) (rw rest_ends refl),
        All-append (FoundAmong substring n (line ∷ lines)) found rest
            (in_first n line lines found here) (in_later n line lines rest later),
      )

-- The search for a text that is not empty ends, on every content, within one round more than a
-- line has bytes; at each range that it finds, the text stands within one line, at the range's
-- columns counted in bytes, which on a line of ASCII bytes are the columns in UTF-16 code units.
pub find_substring_ranges_lem :
    (content substring : Bytes)
    → substring ≢ []
    → (rs : List Range) × (find_substring_ranges content substring ≡ some rs)
      × All (FoundAmong substring 0 (split newline content)) rs
unfolding find_substring_ranges
find_substring_ranges_lem content substring has_text =
    search_lines_lem substring has_text 0 (split newline content)
