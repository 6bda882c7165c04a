-- ===== src/SemanticTokens/Delta/RoundTrip.antt =====
-- Applying the computed edits to the old data gives the new data.
use design_tokens_language_s.Prelude.{
  ℕ, zero, suc, ◌+◌, ◌-◌, ◌≤◌, ◌<◌, ◌^◌, ◌%◌, ◌≡◌, refl, sym, ap, ◌∙◌, true, some, List, [], ◌∷◌,
  ◌++◌, ◌==◌, ◌&&◌, arith, length, drop_of_le, ◌↔◌, get_elem?, take, drop, take-append-drop,
  take-length, drop-get_elem?, take-drop-drop, Option-cases, Bool-cases, inl, inr, min,
}
use design_tokens_language_s.Outcome.{Outcome, ok}
use design_tokens_language_s.SemanticTokens.Delta.{
  same_at, more_prefix, more_suffix, prefix_loop, suffix_loop, edit_between, compute_delta,
  apply_edits,
}

same_at-take :
    (xs ys : List ℕ) (i : ℕ)
    → same_at xs i ys i ≡ true
    → take i xs ≡ take i ys
    → take (suc i) xs ≡ take (suc i) ys
unfolding same_at
same_at-take [] ys i h e = absurd (ground arith)
same_at-take (x ∷ xs) [] i h e = absurd (ground arith)
same_at-take (x ∷ xs) (y ∷ ys) zero h e = ground arith
same_at-take (x ∷ xs) (y ∷ ys) (suc i) h e = ground (arith, same_at-take xs ys i)

same_at_found :
    (xs ys : List ℕ) (i j : ℕ)
    → same_at xs i ys j ≡ true
    → (x : ℕ) × (get_elem? xs i ≡ some x) × (get_elem? ys j ≡ some x)
unfolding same_at
same_at_found xs ys i j h = elim (Option-cases (get_elem? xs i)) [
  | inl e ↦ absurd (ground arith)
  | inr (x, e) ↦ elim (Option-cases (get_elem? ys j)) [
    | inl f ↦ absurd (ground arith)
    | inr (y, f) ↦ (x, e, ground arith)
  ]
]

same_at-drop :
    (xs ys : List ℕ) (i j : ℕ)
    → same_at xs i ys j ≡ true
    → drop (suc i) xs ≡ drop (suc j) ys
    → drop i xs ≡ drop j ys
same_at-drop xs ys i j h e =
    let (x, a, b) = same_at_found xs ys i j h in
    drop-get_elem? xs i a ∙ ap (λ t. x ∷ t) e ∙ sym (drop-get_elem? ys j b)

-- A common beginning of both lists.
abbrev IsPrefix : List ℕ → List ℕ → ℕ → Type 0
IsPrefix old new p = (p ≤ length old) × (p ≤ length new) × (take p old ≡ take p new)

longer_prefix :
    (old new : List ℕ) (p : ℕ)
    → IsPrefix old new p
    → more_prefix old new p ≡ true
    → IsPrefix old new (p + 1)
unfolding more_prefix
longer_prefix old new p (a, b, c) h =
    let room : p < min (length old) (length new) = ground arith in
    let same : same_at old p new p ≡ true = ground arith in
    (
      omega arith,
      omega arith,
      ap (λ n. take n old) {y = suc p} (omega arith)
          ∙ same_at-take old new p same c
          ∙ ap (λ n. take n new) {x = suc p} (omega arith),
    )

prefix_loop-IsPrefix :
    (f : ℕ) (old new : List ℕ) (p : ℕ)
    → IsPrefix old new p
    → IsPrefix old new (prefix_loop f old new p)
unfolding prefix_loop
prefix_loop-IsPrefix zero old new p h = h
prefix_loop-IsPrefix (suc f) old new p h = elim (Bool-cases (more_prefix old new p)) [
  | inl e ↦
      rw (e, prefix_loop) (prefix_loop-IsPrefix f old new (p + 1) (longer_prefix old new p h e))
  | inr e ↦ rw (e, prefix_loop) h
]

-- A common end of both lists, behind the first `p` elements.
abbrev IsSuffix : List ℕ → List ℕ → ℕ → ℕ → Type 0
IsSuffix old new p s =
    (p + s ≤ length old)
    × (p + s ≤ length new)
    × (drop (length old - s) old ≡ drop (length new - s) new)

longer_suffix :
    (old new : List ℕ) (p s : ℕ)
    → IsSuffix old new p s
    → more_suffix old new p s ≡ true
    → IsSuffix old new p (s + 1)
unfolding more_suffix
longer_suffix old new p s (a, b, c) h =
    let i = length old - 1 - s in
    let j = length new - 1 - s in
    let room : s < min (length old) (length new) - p = ground arith in
    let same : same_at old i new j ≡ true = ground arith in
    let before : drop (suc i) old ≡ drop (suc j) new =
      ap (λ n. drop n old) {x = suc i} {y = length old - s} (omega arith)
      ∙ c
      ∙ ap (λ n. drop n new) {x = length new - s} {y = suc j} (omega arith) in
    (
      omega arith,
      omega arith,
      ap (λ n. drop n old) {y = i} (omega arith)
          ∙ same_at-drop old new i j same before
          ∙ ap (λ n. drop n new) {x = j} (omega arith),
    )

suffix_loop-IsSuffix :
    (f : ℕ) (old new : List ℕ) (p s : ℕ)
    → IsSuffix old new p s
    → IsSuffix old new p (suffix_loop f old new p s)
unfolding suffix_loop
suffix_loop-IsSuffix zero old new p s h = h
suffix_loop-IsSuffix (suc f) old new p s h = elim (Bool-cases (more_suffix old new p s)) [
  | inl e ↦
      rw (e, suffix_loop) (suffix_loop-IsSuffix f old new p (s + 1) (longer_suffix old new p s h e))
  | inr e ↦ rw (e, suffix_loop) h
]

length_zero : (xs : List ℕ) → length xs ≡ 0 → xs ≡ []
length_zero [] h = refl
length_zero (x ∷ xs) h = absurd (omega arith)

module _ (old new : List ℕ) (p s : ℕ) (a : IsPrefix old new p) (b : IsSuffix old new p s) where
  -- The new data: the old data with its middle part replaced.
  spliced : take p old ++ (drop p (take (length new - s) new) ++ drop (length old - s) old) ≡ new
  spliced = rw (a.2, b.2) (take-drop-drop p (length new - s) new (omega arith))

  nothing_between :
      length old - p - s ≡ 0 → length (drop p (take (length new - s) new)) ≡ 0 → old ≡ new
  nothing_between h k =
      let e : length old - s ≡ p = omega arith in
      let empty : drop p (take (length new - s) new) ≡ [] = length_zero _ k in
      sym (take-append-drop p old)
      ∙ ap (λ n. take p old ++ drop n old) (sym e)
      ∙ ap (λ t. take p old ++ (t ++ drop (length old - s) old)) (sym empty)
      ∙ spliced

  edit_between_applies : length old < 2 ^ 32 → apply_edits old (edit_between old new p s) ≡ ok new
  unfolding apply_edits edit_between
  edit_between_applies h =
      let del = length old - p - s in
      let start : p % 2 ^ 32 ≡ p = omega arith in
      let count : (length old - p - s) % 2 ^ 32 ≡ length old - p - s = omega arith in
      let e : p + (length old - p - s) ≡ length old - s = omega arith in
      elim (Bool-cases (del == 0 && length (drop p (take (length new - s) new)) == 0)) [
        | inl z ↦ rw z (ap ok (nothing_between (ground arith) (ground arith)))
        | inr z ↦ rw (z, start, count, e) (ground (arith, spliced))
      ]

whole_prefix :
    (old new : List ℕ) (p : ℕ)
    → IsPrefix old new p
    → p ≡ length old
    → length old ≡ length new
    → old ≡ new
whole_prefix old new p a h k =
    sym (take-length old)
    ∙ ap (λ n. take n old) (sym h)
    ∙ a.2
    ∙ ap (λ n. take n new) (h ∙ k)
    ∙ take-length new

-- A client that applies the computed edits to old data of fewer than 2 to the 32 numbers has the
-- new data.
pub apply_edits-compute_delta :
    (old new : List ℕ) → length old < 2 ^ 32 → apply_edits old (compute_delta old new) ≡ ok new
unfolding compute_delta apply_edits
apply_edits-compute_delta old new h =
    let n = min (length old) (length new) in
    let p = prefix_loop n old new 0 in
    let a = prefix_loop-IsPrefix n old new 0 (omega arith, omega arith, refl) in
    let s = suffix_loop n old new p 0 in
    let ends =
      drop_of_le (length old - 0) old (omega arith)
      ∙ sym (drop_of_le (length new - 0) new (omega arith)) in
    let b = suffix_loop-IsSuffix n old new p 0 (omega arith, omega arith, ends) in
    elim (Bool-cases (p == length old && length old == length new)) [
      | inl z ↦ rw z (ap ok (whole_prefix old new p a (ground arith) (ground arith)))
      | inr z ↦ rw z (edit_between_applies old new p s a b h)
    ]

same_at_self : (xs : List ℕ) (i : ℕ) → i < length xs → same_at xs i xs i ≡ true
unfolding same_at
same_at_self [] i h = absurd (omega arith)
same_at_self (x ∷ xs) zero h = ground arith
same_at_self (x ∷ xs) (suc i) h = same_at_self xs i (omega arith)

prefix_loop_self :
    (f : ℕ) (xs : List ℕ) (p : ℕ) → p + f ≡ length xs → prefix_loop f xs xs p ≡ length xs
unfolding prefix_loop more_prefix
prefix_loop_self zero xs p h = omega arith
prefix_loop_self (suc f) xs p h = ground (arith, same_at_self xs p, prefix_loop_self f xs (p + 1))

compute_delta_self : (xs : List ℕ) → compute_delta xs xs ≡ []
unfolding compute_delta
compute_delta_self xs = ground (arith, prefix_loop_self (min (length xs) (length xs)) xs 0)

nil_only : (old new : List ℕ) → length old < 2 ^ 32 → compute_delta old new ≡ [] → old ≡ new
nil_only old new h e =
    let same : ◌≡◌ {A = Outcome (Unit {0}) (List ℕ)} (ok old) (ok new) =
      unfold apply_edits in ap (apply_edits old) (sym e) ∙ apply_edits-compute_delta old new h in
    cc

-- For old data of fewer than 2 to the 32 numbers, no edit is computed exactly if the new data is
-- the same.
pub compute_delta-nil :
    (old new : List ℕ) → length old < 2 ^ 32 → (compute_delta old new ≡ []) ↔ (old ≡ new)
compute_delta-nil old new h = (
  λ e. nil_only old new h e,
  λ e. ap (λ xs. compute_delta old xs) (sym e) ∙ compute_delta_self old,
)
