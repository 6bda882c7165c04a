-- ===== src/Features/Completion/Word.antt =====
-- The word at the cursor.
use design_tokens_language_s.Prelude.{
  ℕ, zero, suc, ◌+◌, ◌≤◌, ◌<◌, ◌≡◌, ◌⊎◌, true, false, Bool-cases, inl, inr, arith, ltb, length,
  drop, take, ◌&&◌,
}
use design_tokens_language_s.GoString.{Bytes}
use design_tokens_language_s.Features.Completion.{word_at, word_start, word_end, word_in_line}

-- The word begins at or before the offset, has only word characters up to it, and none directly before
-- it.
pub word_start_lem :
    (line : Bytes) (n : ℕ)
    → (word_start line n ≤ n)
      × ((i : ℕ) → word_start line n ≤ i → i < n → word_at line i ≡ true)
      × ((i : ℕ) → word_start line n ≡ i + 1 → word_at line i ≡ false)
unfolding word_start
word_start_lem line zero = (omega arith, λ i h k. absurd (omega arith), λ i h. absurd (omega arith))
word_start_lem line (suc n) =
    let (a, b, c) = word_start_lem line n in
    elim (Bool-cases (word_at line n)) [
      | inl w ↦ rw (w, word_start) (omega arith, λ i h k. ground (arith, b i h, w), c)
      | inr w ↦
          rw (w, word_start) (omega arith, λ i h k. absurd (omega arith), λ i h. ground (arith, w))
    ]

-- From the offset on, the word goes on over word characters, and ends at the end of the line or before
-- one that is none, if there were enough rounds.
pub word_end_lem :
    (f : ℕ) (line : Bytes) (n : ℕ)
    → n ≤ length line
    → length line ≤ f + n
    → (n ≤ word_end f line n)
      × (word_end f line n ≤ length line)
      × ((i : ℕ) → n ≤ i → i < word_end f line n → word_at line i ≡ true)
      × ((word_end f line n ≡ length line) ⊎ (word_at line (word_end f line n) ≡ false))
unfolding word_end
word_end_lem zero line n h k =
    (omega arith, omega arith, λ i a b. absurd (omega arith), inl (omega arith))
word_end_lem (suc f) line n h k = elim (Bool-cases (ltb n (length line) && word_at line n)) [
  | inr w ↦ rw (w, word_end) (omega arith, omega arith, λ i a b. absurd (omega arith), ground arith)
  | inl w ↦
      let (a, b, c, d) = word_end_lem f line (n + 1) (ground arith) (omega arith) in
      rw (w, word_end) (omega arith, b, λ i x y. ground (arith, c i, w), d)
]

-- A longest piece of the line around an offset that has only word characters.
pub record IsWordAround (line : Bytes) (n start stop : ℕ) : Type 0 where
  pub around : (start ≤ n) × (n ≤ stop) × (stop ≤ length line)
  pub inside : (i : ℕ) → start ≤ i → i < stop → word_at line i ≡ true
  pub left_end : (i : ℕ) → start ≡ i + 1 → word_at line i ≡ false
  pub right_end : (stop ≡ length line) ⊎ (word_at line stop ≡ false)

-- The word at an offset within the line is the longest piece around it that has only word
-- characters.
pub word_in_line_lem :
    (line : Bytes) (n : ℕ)
    → n ≤ length line
    → (start : ℕ) × (stop : ℕ) × IsWordAround line n start stop
      × (word_in_line line n ≡ drop start (take stop line))
unfolding word_in_line
word_in_line_lem line n h =
    let (a, b, c) = word_start_lem line n in
    let (d, e, f, g) = word_end_lem (length line) line n h (omega arith) in
    (
      word_start line n,
      word_end (length line) line n,
      record {
        around = (a, d, e);
        inside = λ i x y. elim (Bool-cases (ltb i n)) [
          | inl z ↦ b i x (ground arith)
          | inr z ↦ f i (ground arith) y
        ];
        left_end = c;
        right_end = g;
      },
      ground arith,
    )
