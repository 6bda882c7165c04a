-- ===== src/Ranges/Overlap.antt =====
-- What it means that two ranges overlap.
use design_tokens_language_s.Prelude.{◌≤◌, ◌<◌, ◌≡◌, ◌↔◌, ◌⊎◌, inl, inr, true, arith}
use design_tokens_language_s.Documents.Change.{Position, Range}
use design_tokens_language_s.Ranges.{ranges_intersect}

-- The order of positions in a text.
abbrev pub Before : Position → Position → Type 0
Before p q = (p.line < q.line) ⊎ (p.line ≡ q.line) × (p.character < q.character)

abbrev pub NotAfter : Position → Position → Type 0
NotAfter p q = (p.line < q.line) ⊎ (p.line ≡ q.line) × (p.character ≤ q.character)

-- The half-open interval of a range.
abbrev pub Contains : Range → Position → Type 0
Contains r p = NotAfter r.start p × Before p r.stop

NotAfter-cases : (p q : Position) → NotAfter p q ⊎ Before q p
NotAfter-cases p q = ground arith

-- Two ranges that are not empty intersect exactly if some position lies in both.
pub ranges_intersect_iff :
    (a b : Range)
    → Before a.start a.stop
    → Before b.start b.stop
    → (ranges_intersect a b ≡ true) ↔ ((p : Position) × Contains a p × Contains b p)
unfolding ranges_intersect
ranges_intersect_iff a b ha hb = (
  λ h. elim (NotAfter-cases a.start b.start) [
    | inl s ↦ (b.start, (s, ground arith), (ground arith, hb))
    | inr s ↦ (a.start, (ground arith, ha), (ground arith, ground arith))
  ],
  λ (p, x, y). ground arith,
)
