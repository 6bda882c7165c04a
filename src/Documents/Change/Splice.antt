-- ===== src/Documents/Change/Splice.antt =====
-- An incremental change against its specification: positions are byte offsets into the content, and
-- the change puts its text between two of them.
use design_tokens_language_s.Prelude.{
  ℕ, zero, suc, ◌+◌, ◌-◌, ◌≤◌, ◌<◌, ◌≡◌, ◌≢◌, ◌⊎◌, inl, inr, refl, sym, ap, ◌∙◌, none, some, List,
  [], ◌∷◌, ◌++◌, length, get_elem?, take, drop, arith, append_assoc, append-nil, length-append,
  take-append, drop-append, take-append_le, drop-append_le, drop_of_le,
}
use design_tokens_language_s.Outcome.{ok}
use design_tokens_language_s.GoString.{join, Bytes, split}
use design_tokens_language_s.GoString.Laws.{join-split, split-ne-nil}
use design_tokens_language_s.Position.{utf16_to_byte_offset, string_length_utf16}
use design_tokens_language_s.Position.Bounds.{utf16_to_byte_offset-le-length}
use design_tokens_language_s.Position.RoundTrip.{line_end}
use design_tokens_language_s.Documents.Change.{
  Position, Range, newline, normalize_eof_position, validate_normalized_bounds,
  validate_char_bounds, lines_before, lines_after, build_changed_content, change_lines,
  apply_incremental_change,
}

-- The byte at which a line begins.
abbrev pub line_start : List Bytes → ℕ → ℕ
line_start lines zero = 0
line_start [] (suc i) = 0
line_start (l ∷ lines) (suc i) = length l + 1 + line_start lines i

-- The byte offset of a position: in its line, or the end of the content behind the last line.
pub byte_of : Bytes → Position → ℕ
byte_of content p = elim (get_elem? (split newline content) p.line) [
  | none ↦ length content
  | some l ↦ line_start (split newline content) p.line + utf16_to_byte_offset l p.character
]

-- A position on one of the lines, or at column 0 directly behind the last.
abbrev pub IsInside : Bytes → Position → Type 0
IsInside content p =
    (p.line < length (split newline content))
    ⊎ (p.line ≡ length (split newline content)) × (p.character ≡ 0)

join-lines_after :
    (l : Bytes) (lines : List Bytes) → join newline (l ∷ lines) ≡ l ++ lines_after lines
unfolding lines_after
join-lines_after l [] = sym (append-nil l)
join-lines_after l (k ∷ lines) = ap (λ t. l ++ newline ∷ t) (join-lines_after k lines)

-- The text before a line, the line, and the text after it.
record Around (lines : List Bytes) (i : ℕ) (l : Bytes) : Type 0 where
  before : Bytes
  runs : lines_before i lines ≡ ok before
  long : length before ≡ line_start lines i
  whole : join newline lines ≡ before ++ (l ++ lines_after (drop (suc i) lines))

around : (lines : List Bytes) (i : ℕ) (l : Bytes) → get_elem? lines i ≡ some l → Around lines i l
unfolding lines_before
around [] i l h = cc
around (k ∷ lines) zero l h = record {
  before = [];
  runs = refl;
  long = refl;
  whole = join-lines_after k lines ∙ ap (λ t. t ++ lines_after lines) (ground arith);
}
around (k ∷ []) (suc i) l h = cc
around (k ∷ j ∷ lines) (suc i) l h =
    let rest = around (j ∷ lines) i l h in
    record {
      before = k ++ newline ∷ rest.before;
      runs = rw (rest.runs);
      long = omega (arith, length-append k (newline ∷ rest.before), rest.long);
      whole =
          ap (λ t. k ++ newline ∷ t) rest.whole
          ∙ sym (
              append_assoc k (newline ∷ rest.before) (l ++ lines_after (drop (suc i) (j ∷ lines))));
    }

-- A byte offset inside a line cuts the content inside that line.
module _ (lines : List Bytes) (i : ℕ) (l : Bytes) (a : Around lines i l) (b : ℕ)
    (h : b ≤ length l) where
  take-around : take (line_start lines i + b) (join newline lines) ≡ a.before ++ take b l
  take-around =
      rw (a.whole, ← a.long, take-append)
        (ap (λ t. a.before ++ t) (take-append_le l (lines_after (drop (suc i) lines)) b h))

  drop-around :
      drop (line_start lines i + b) (join newline lines)
      ≡ drop b l ++ lines_after (drop (suc i) lines)
  drop-around =
      rw (a.whole, ← a.long, drop-append) (drop-append_le l (lines_after (drop (suc i) lines)) b h)

  le-around : line_start lines i + b ≤ length (join newline lines)
  le-around = rw a.whole (
      omega (
        arith,
        a.long,
        h,
        length-append a.before (l ++ lines_after (drop (suc i) lines)),
        length-append l (lines_after (drop (suc i) lines)),
      ))

-- Where a position ends up: its line, the line's text, and the byte in the content.
record Located (content : Bytes) (p : Position) : Type 0 where
  line : ℕ
  column : ℕ
  text : Bytes
  normal : normalize_eof_position p.line p.character (split newline content) ≡ ok (line, column)
  found : get_elem? (split newline content) line ≡ some text
  byte :
      byte_of content p ≡ line_start (split newline content) line + utf16_to_byte_offset text column

pub get_elem?-found :
    {A : Type 0} (xs : List A) (i : ℕ) → i < length xs → (x : A) × (get_elem? xs i ≡ some x)
get_elem?-found [] i h = absurd (omega arith)
get_elem?-found (x ∷ xs) zero h = (x, refl)
get_elem?-found (x ∷ xs) (suc i) h = get_elem?-found xs i (omega arith)

get_elem?-past : {A : Type 0} (xs : List A) (i : ℕ) → length xs ≤ i → get_elem? xs i ≡ none
get_elem?-past [] i h = refl
get_elem?-past (x ∷ xs) zero h = absurd (omega arith)
get_elem?-past (x ∷ xs) (suc i) h = get_elem?-past xs i (omega arith)

pub length-pos : {A : Type 0} (xs : List A) → xs ≢ [] → 0 < length xs
length-pos [] h = absurd (h refl)
length-pos (x ∷ xs) h = omega arith

-- The content ends with its last line.
last_line :
    (content : Bytes) (l : Bytes)
    → Around (split newline content) (length (split newline content) - 1) l
    → 0 < length (split newline content)
    → length content
      ≡ line_start (split newline content) (length (split newline content) - 1)
        + utf16_to_byte_offset l (string_length_utf16 l)
unfolding lines_after
last_line content l a few =
    let lines = split newline content in
    let n = length lines - 1 in
    let none_left : drop (suc n) lines ≡ [] = drop_of_le (suc n) lines (omega arith) in
    let all : content ≡ a.before ++ (l ++ lines_after (drop (suc n) lines)) =
      sym (join-split newline content) ∙ a.whole in
    omega (
      arith,
      ap length all,
      length-append a.before (l ++ lines_after (drop (suc n) lines)),
      length-append l (lines_after (drop (suc n) lines)),
      ap (λ t. length (lines_after t)) none_left,
      a.long,
      (line_end l (string_length_utf16 l) (omega arith)).1,
    )

located : (content : Bytes) (p : Position) → IsInside content p → Located content p
unfolding byte_of normalize_eof_position
located content p (inl h) =
    let lines = split newline content in
    let (l, e) = get_elem?-found lines p.line h in
    record {
      line = p.line;
      column = p.character;
      text = l;
      normal = ground arith;
      found = e;
      byte = rw (e, byte_of);
    }
located content p (inr (h, z)) =
    let lines = split newline content in
    let few = length-pos lines (split-ne-nil newline content) in
    let (l, e) = get_elem?-found lines (length lines - 1) (omega arith) in
    record {
      line = length lines - 1;
      column = string_length_utf16 l;
      text = l;
      normal = ground arith;
      found = e;
      byte =
          rw (get_elem?-past lines p.line (omega arith), byte_of)
            (last_line content l (around lines (length lines - 1) l e) (omega arith));
    }

get_elem?-lt : {A : Type 0} (xs : List A) (i : ℕ) {x : A} → get_elem? xs i ≡ some x → i < length xs
get_elem?-lt [] i h = cc
get_elem?-lt (x ∷ xs) zero h = omega arith
get_elem?-lt (x ∷ xs) (suc i) h = omega (arith, get_elem?-lt xs i h)

-- Between two located bytes the content is built as a splice.
build_around :
    (lines : List Bytes) (i j : ℕ) (l k : Bytes) (b c : ℕ) (text : Bytes)
    → get_elem? lines i ≡ some l
    → get_elem? lines j ≡ some k
    → b ≤ length l
    → c ≤ length k
    → build_changed_content lines i b j c text
      ≡ ok (
          take (line_start lines i + b) (join newline lines)
          ++ (text ++ drop (line_start lines j + c) (join newline lines)))
unfolding build_changed_content
build_around lines i j l k b c text hi hj hb hc =
    let p = around lines i l hi in
    let q = around lines j k hj in
    let last = get_elem?-lt lines j hj in
    let next : drop (j + 1) lines ≡ drop (suc j) lines =
      ap (λ t. drop t lines) {y = suc j} (omega arith) in
    rw
      (
        take-around lines i l p b hb,
        drop-around lines j k q c hc,
        next,
        p.runs,
        append_assoc p.before (take b l) (text ++ (drop c k ++ lines_after (drop (suc j) lines))),
      )
      (ground arith)

-- With both ends on lines the change runs through, and splices.
splice-Located :
    (content : Bytes) (r : Range) (text : Bytes)
    → Located content r.start
    → Located content r.stop
    → change_lines (split newline content) r text
      ≡ ok (
          take (byte_of content r.start) content ++ (text ++ drop (byte_of content r.stop) content))
unfolding change_lines validate_normalized_bounds validate_char_bounds
splice-Located content r text s e =
    let lines = split newline content in
    let b = utf16_to_byte_offset s.text s.column in
    let c = utf16_to_byte_offset e.text e.column in
    let hb = utf16_to_byte_offset-le-length s.text s.column in
    let hc = utf16_to_byte_offset-le-length e.text e.column in
    let built =
      rw (join-split newline content) at
        (build_around lines s.line e.line s.text e.text b c text s.found e.found hb hc) in
    let first = get_elem?-lt lines s.line s.found in
    let last = get_elem?-lt lines e.line e.found in
    rw (s.normal, e.normal, s.byte, e.byte) (ground (arith, built, s.found, e.found))

-- A change between two positions of the content puts its text between the bytes that they stand
-- for: what lies before the start stays in front, what lies behind the end follows, also when the
-- end stands before the start.
pub apply_incremental_change_splice :
    (content : Bytes) (r : Range) (text : Bytes)
    → IsInside content r.start
    → IsInside content r.stop
    → apply_incremental_change content r text
      ≡ ok (
          take (byte_of content r.start) content ++ (text ++ drop (byte_of content r.stop) content))
unfolding apply_incremental_change
apply_incremental_change_splice content r text s e =
    ground
      (arith, splice-Located content r text (located content r.start s) (located content r.stop e))
