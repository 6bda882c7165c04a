-- ===== src/Features/Hover/Innermost.antt =====
-- The item that the hover is for: it holds the position, and none that does is smaller.
use design_tokens_language_s.Prelude.{
  ℕ, ◌≤◌, ◌≡◌, ◌⊎◌, refl, true, false, Option, none, some, List, [], ◌∷◌, All, Bool-cases, inl, inr,
  arith,
}
use design_tokens_language_s.Documents.Change.{Position, Range}
use design_tokens_language_s.Features.{VarCall}
use design_tokens_language_s.Features.Hover.{
  is_position_in_range, calculate_range_size, is_smaller, size_of, innermost,
  find_innermost_var_call,
}

module _ {A : Type 0} (range_of : A → Range) (position : Position) where
  abbrev size : A → ℕ
  size x = calculate_range_size (range_of x)

  abbrev Holds : A → Type 0
  Holds x = is_position_in_range position (range_of x) ≡ true

  -- An item that holds the position is no smaller than this one.
  abbrev pub NoSmaller : A → A → Type 0
  NoSmaller b x = Holds x → size b ≤ size x

  -- The item is one of the list, and holds the position.
  abbrev pub Chosen : A → List A → Type 0
  Chosen b [] = ⊥
  Chosen b (x ∷ xs) = ((b ≡ x) × Holds x) ⊎ Chosen b xs

  -- What the loop returns, if it starts with the best item so far.
  abbrev pub Innermost : List A → Option A → Option A → Type 0
  Innermost xs none none = All (λ x. is_position_in_range position (range_of x) ≡ false) xs
  Innermost xs none (some b) = Chosen b xs × All (NoSmaller b) xs
  Innermost xs (some best) none = ⊥
  Innermost xs (some best) (some b) =
      ((b ≡ best) ⊎ Chosen b xs) × (size b ≤ size best) × All (NoSmaller b) xs

  skip :
      (x : A) (xs : List A) (best r : Option A)
      → is_position_in_range position (range_of x) ≡ false
      → Innermost xs best r
      → Innermost (x ∷ xs) best r
  skip x xs none none o h = (o, h)
  skip x xs none (some b) o (c, a) = (inr c, ((λ i. absurd (ground (arith, o, i))), a))
  skip x xs (some best) none o h = h
  skip x xs (some best) (some b) o (inl e, l, a) =
      (inl e, l, ((λ i. absurd (ground (arith, o, i))), a))
  skip x xs (some best) (some b) o (inr c, l, a) =
      (inr (inr c), l, ((λ i. absurd (ground (arith, o, i))), a))

  -- The item is taken as the best one.
  taken :
      (x : A) (xs : List A) (best r : Option A)
      → Holds x
      → is_smaller (size x) (size_of range_of best) ≡ true
      → Innermost xs (some x) r
      → Innermost (x ∷ xs) best r
  unfolding is_smaller
  taken x xs best none i s h = absurd h
  taken x xs none (some b) i s (inl e, l, a) = (inl (e, i), ((λ k. l), a))
  taken x xs none (some b) i s (inr c, l, a) = (inr c, ((λ k. l), a))
  taken x xs (some best) (some b) i s (inl e, l, a) =
      (inr (inl (e, i)), ground (arith, l, s), ((λ k. l), a))
  taken x xs (some best) (some b) i s (inr c, l, a) =
      (inr (inr c), ground (arith, l, s), ((λ k. l), a))

  -- The item is no smaller than the best one.
  left :
      (x : A) (xs : List A) (best r : Option A)
      → is_smaller (size x) (size_of range_of best) ≡ false
      → Innermost xs best r
      → Innermost (x ∷ xs) best r
  unfolding is_smaller
  left x xs none r s h = cc
  left x xs (some best) none s h = h
  left x xs (some best) (some b) s (inl e, l, a) = (inl e, l, ((λ k. ground (arith, l, s)), a))
  left x xs (some best) (some b) s (inr c, l, a) =
      (inr (inr c), l, ((λ k. ground (arith, l, s)), a))

  innermost_lem :
      (xs : List A) (best : Option A) → Innermost xs best (innermost range_of position xs best)
  unfolding innermost
  innermost_lem [] none = tt
  innermost_lem [] (some best) = (inl refl, omega arith, tt)
  innermost_lem (x ∷ xs) best = elim (Bool-cases (is_position_in_range position (range_of x))) [
    | inr o ↦ rw (o, innermost) (skip x xs best _ o (innermost_lem xs best))
    | inl i ↦
        elim (Bool-cases (is_smaller (calculate_range_size (range_of x)) (size_of range_of best))) [
          | inl s ↦ rw (i, innermost) (rw s (taken x xs best _ i s (innermost_lem xs (some x))))
          | inr s ↦ rw (i, innermost) (rw s (left x xs best _ s (innermost_lem xs best)))
        ]
  ]

-- The var() call that is found for a position is one of the calls, holds the position, and is no
-- larger by calculateRangeSize than any other call that does; none is found exactly where no call
-- holds the position.
pub find_innermost_var_call_lem :
    (position : Position) (vs : List VarCall)
    → Innermost (λ (v : VarCall). v.range) position vs none (find_innermost_var_call position vs)
unfolding find_innermost_var_call
find_innermost_var_call_lem position vs = innermost_lem (λ (v : VarCall). v.range) position vs none
