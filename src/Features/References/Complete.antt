-- ===== src/Features/References/Complete.antt =====
-- Where a text stands, the search for it finds a range.
use design_tokens_language_s.Prelude.{
  ℕ, suc, zero, ◌+◌, ◌-◌, ◌≤◌, ◌<◌, ◌≡◌, ◌≢◌, ◌⊎◌, refl, sym, ap, ◌∙◌, true, false, some, List, [],
  ◌∷◌, ◌++◌, length, take, drop, get_elem?, length-drop, drop-drop, Bool-cases, Option-cases, ltb,
  inl, inr, arith,
}
use design_tokens_language_s.GoString.{Bytes, has_prefix, index, split}
use design_tokens_language_s.Documents.Change.{Range}
use design_tokens_language_s.Features.References.{
  newline, line_range, exceeds, max_uint32, search, search_lines, find_substring_ranges,
}
use design_tokens_language_s.Features.References.Ranges.{StandsAt, find_substring_ranges_lem}

-- One of the ranges starts on this line at or in front of this byte, and ends behind it.
abbrev pub Covered : ℕ → ℕ → List Range → Type 0
Covered line i [] = ⊥
Covered line i (r ∷ rs) =
    ((r.start.line ≡ line) × (r.start.character ≤ i) × (i < r.stop.character)) ⊎ Covered line i rs

Covered-front : (n i : ℕ) (rs more : List Range) → Covered n i rs → Covered n i (rs ++ more)
Covered-front n i [] more h = absurd h
Covered-front n i (r ∷ rs) more (inl h) = inl h
Covered-front n i (r ∷ rs) more (inr h) = inr (Covered-front n i rs more h)

Covered-back : (n i : ℕ) (rs more : List Range) → Covered n i more → Covered n i (rs ++ more)
Covered-back n i [] more h = h
Covered-back n i (r ∷ rs) more h = inr (Covered-back n i rs more h)

has_prefix_complete : (s p : Bytes) → take (length p) s ≡ p → has_prefix s p ≡ true
unfolding has_prefix
has_prefix_complete s [] h = refl
has_prefix_complete [] (d ∷ p) h = cc
has_prefix_complete (c ∷ s) (d ∷ p) h =
    let same : take (length p) s ≡ p = cc in
    let first : c ≡ d = cc in ground (arith, first, has_prefix_complete s p same)

-- The index that is found is the first.
index_first : (s p : Bytes) (j : ℕ) → StandsAt s p j → (i : ℕ) × (index s p ≡ some i) × (i ≤ j)
unfolding index
index_first [] p zero (text, fits) = (0, rw (has_prefix_complete [] p text) refl, omega arith)
index_first [] p (suc j) (text, fits) = absurd (omega (arith, fits))
index_first (c ∷ s) p zero (text, fits) =
    (0, rw (has_prefix_complete (c ∷ s) p text) refl, omega arith)
index_first (c ∷ s) p (suc j) (text, fits) =
    let (i, e, l) = index_first s p j (text, omega (arith, fits)) in
    elim (Bool-cases (has_prefix (c ∷ s) p)) [
      | inl h ↦ (0, rw h refl, omega arith)
      | inr h ↦ (suc i, rw (h, e) refl, omega (arith, l))
    ]

stands_behind :
    (s p : Bytes) (offset i : ℕ)
    → offset ≤ i
    → StandsAt s p i
    → StandsAt (drop offset s) p (i - offset)
stands_behind s p offset i h (text, fits) = (
  ap (take (length p)) (drop-drop (i - offset) offset s ∙ ap (λ k. drop k s) (omega (arith, h)))
      ∙ text,
  omega (arith, h, fits, length-drop offset s),
)

small :
    (n start stop : ℕ)
    → n ≤ max_uint32
    → start ≤ max_uint32
    → stop ≤ max_uint32
    → exceeds n start stop ≡ false
unfolding exceeds
small n start stop h k l = ground (arith, h, k, l)

module _ (substring : Bytes) where
  found_first :
      (fuel n : ℕ) (line : Bytes) (offset k : ℕ) (rest rs : List Range)
      → index (drop offset line) substring ≡ some k
      → search fuel n line substring (offset + k + length substring) ≡ some rest
      → exceeds n (offset + k) (offset + k + length substring) ≡ false
      → search (suc fuel) n line substring offset ≡ some rs
      → rs ≡ line_range n (offset + k) (offset + k + length substring) ∷ rest
  unfolding search
  found_first fuel n line offset k rest rs e f g h =
      let same : some (line_range n (offset + k) (offset + k + length substring) ∷ rest) ≡ some rs =
        sym (rw (e, search) (rw (f, g) refl)) ∙ h in
      cc

  searched :
      (fuel n : ℕ) (line : Bytes) (offset k : ℕ) (rs : List Range)
      → index (drop offset line) substring ≡ some k
      → search (suc fuel) n line substring offset ≡ some rs
      → (rest : List Range) × (search fuel n line substring (offset + k + length substring)
          ≡ some rest)
  unfolding search
  searched fuel n line offset k rs e h =
      elim (Option-cases (search fuel n line substring (offset + k + length substring))) [
        | inl f ↦ absurd (ground (arith, e, f, h))
        | inr (rest, f) ↦ (rest, f)
      ]

  search-Covered :
      (fuel n : ℕ) (line : Bytes) (offset i : ℕ) (rs : List Range)
      → search fuel n line substring offset ≡ some rs
      → offset ≤ i
      → StandsAt line substring i
      → n ≤ max_uint32
      → i + length substring ≤ max_uint32
      → Covered n i rs
  search-Covered zero n line offset i rs h lo at few fits =
      absurd (unfold search in ground (arith, h))
  search-Covered (suc fuel) n line offset i rs h lo at few fits =
      let (k, e, l) =
        index_first (drop offset line) substring (i - offset)
          (stands_behind line substring offset i lo at) in
      let stop = offset + k + length substring in
      let (rest, f) = searched fuel n line offset k rs e h in
      let fitting =
        small n (offset + k) stop few (omega (arith, l, lo, fits)) (omega (arith, l, lo, fits)) in
      rw (found_first fuel n line offset k rest rs e f fitting h) (elim (Bool-cases (ltb i stop)) [
        | inl b ↦ inl (refl, omega (arith, l, lo), ground (arith, b))
        | inr b ↦ inr (search-Covered fuel n line stop i rest f (ground (arith, b)) at few fits)
      ])

  lines_searched :
      (n : ℕ) (line : Bytes) (lines : List Bytes) (rs : List Range)
      → search_lines n (line ∷ lines) substring ≡ some rs
      → (found : List Range) × (rest : List Range) × (search (suc (length line)) n line substring 0
          ≡ some found)
        × (search_lines (suc n) lines substring ≡ some rest)
        × (rs ≡ found ++ rest)
  unfolding search_lines
  lines_searched n line lines rs h =
      elim (Option-cases (search (suc (length line)) n line substring 0)) [
        | inl e ↦ absurd (ground (arith, e, h))
        | inr (found, e) ↦ elim (Option-cases (search_lines (suc n) lines substring)) [
          | inl f ↦ absurd (ground (arith, e, f, h))
          | inr (rest, f) ↦
              let same : some (found ++ rest) ≡ some rs =
                sym (rw (e, search_lines) (rw f refl)) ∙ h in
              (found, rest, e, f, cc)
        ]
      ]

  search_lines-Covered :
      (n : ℕ) (lines : List Bytes) (number k i : ℕ) (line : Bytes) (rs : List Range)
      → number ≡ n + k
      → search_lines n lines substring ≡ some rs
      → get_elem? lines k ≡ some line
      → StandsAt line substring i
      → number ≤ max_uint32
      → i + length substring ≤ max_uint32
      → Covered number i rs
  search_lines-Covered n [] number k i line rs e h g at few fits = cc
  search_lines-Covered n (first ∷ lines) number zero i line rs e h g at few fits =
      let (found, rest, some_found, some_rest, whole) = lines_searched n first lines rs h in
      let same : first ≡ line = cc in
      let here : n ≡ number = omega (arith, e) in
      rw (whole, ← here)
        (Covered-front n i found rest (
          search-Covered _ n first 0 i found some_found (omega arith) (rw same at)
            (omega (arith, here, few)) fits))
  search_lines-Covered n (first ∷ lines) number (suc k) i line rs e h g at few fits =
      let (found, rest, some_found, some_rest, whole) = lines_searched n first lines rs h in
      rw whole (
        Covered-back number i found rest (
          search_lines-Covered (suc n) lines number k i line rest (omega (arith, e)) some_rest g at
            few fits))

-- Wherever a text that is not empty stands in a line, at a line number and up to a byte that fit
-- in 32 bits, the search finds a range on that line that starts there or earlier and ends later.
pub find_substring_ranges-Covered :
    (content substring line : Bytes) (k i : ℕ)
    → substring ≢ []
    → get_elem? (split newline content) k ≡ some line
    → StandsAt line substring i
    → k ≤ max_uint32
    → i + length substring ≤ max_uint32
    → (rs : List Range) × (find_substring_ranges content substring ≡ some rs) × Covered k i rs
unfolding find_substring_ranges
find_substring_ranges-Covered content substring line k i has_text g at few fits =
    let (rs, h, found) = find_substring_ranges_lem content substring has_text in
    (
      rs,
      h,
      search_lines-Covered substring 0 (split newline content) k k i line rs (omega arith) h g at
          few fits,
    )
