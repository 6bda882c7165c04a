-- ===== src/SemanticTokens/Handlers/Ranges.antt =====
-- The tokens that SemanticTokensRange sends, against those of the whole document.
use mathlib.Core.Path.{subst}
use design_tokens_language_s.Prelude.{
  ℕ, ◌≡◌, ◌↔◌, ◌+◌, ◌<◌, refl, sym, Bool, true, false, Option, none, some, List, [], ◌∷◌, keep, All,
  arith, Bool-cases, inl, inr,
}
use design_tokens_language_s.Ints.{ℤ, pos, ◌≤ℤ◌, pos_part, neg_part}
use design_tokens_language_s.Outcome.{Outcome, ok, err, panicked}
use design_tokens_language_s.GoString.{Bytes}
use design_tokens_language_s.Documents.Document.{Document}
use design_tokens_language_s.Documents.Change.{Range}
use design_tokens_language_s.SemanticTokens.Encode.{SemanticToken, encode_semantic_tokens}
use design_tokens_language_s.SemanticTokens.Encode.Decode.{decode, decode-encode_semantic_tokens}
use design_tokens_language_s.SemanticTokens.Encode.Order.{
  accepted, InRange, Follows, IsOrdered, encode_semantic_tokens_iff,
}
use design_tokens_language_s.SemanticTokens.Handlers.{full, in_range, semantic_tokens_range}

-- The positions of the half-open range, in the order of the text.
abbrev pub Within : Range → SemanticToken → Type 0
Within r t =
    ((pos r.start.line ≤ℤ t.line)
      × ((t.line ≡ pos r.start.line) → pos r.start.character ≤ℤ t.start_char))
    × ((t.line ≤ℤ pos r.stop.line)
        × ((t.line ≡ pos r.stop.line)
            → pos_part t.start_char + neg_part (pos r.stop.character)
              < pos_part (pos r.stop.character) + neg_part t.start_char))

-- A token is kept for a range exactly if it starts at or behind the range's start and before its
-- end.
pub in_range_iff : (r : Range) (t : SemanticToken) → (in_range r t ≡ true) ↔ Within r t
unfolding in_range
in_range_iff r t = ground arith

Follows-trans :
    (l c : ℤ) (t : SemanticToken) (ts : List SemanticToken)
    → Follows l c t
    → IsOrdered t.line t.start_char ts
    → IsOrdered l c ts
Follows-trans l c t [] f o = tt
Follows-trans l c t (u ∷ us) f (g, o) = (ground arith, o)

kept :
    (p : SemanticToken → Bool) (t : SemanticToken) (ts : List SemanticToken)
    → p t ≡ true
    → keep p (t ∷ ts) ≡ t ∷ keep p ts
kept p t ts h = ground arith

left_out :
    (p : SemanticToken → Bool) (t : SemanticToken) (ts : List SemanticToken)
    → p t ≡ false
    → keep p (t ∷ ts) ≡ keep p ts
left_out p t ts h = ground arith

keep-IsOrdered :
    (p : SemanticToken → Bool) (l c : ℤ) (ts : List SemanticToken)
    → IsOrdered l c ts
    → IsOrdered l c (keep p ts)
keep-IsOrdered p l c [] o = tt
keep-IsOrdered p l c (t ∷ ts) (f, o) = elim (Bool-cases (p t)) [
  | inl h ↦
      subst (IsOrdered l c) (sym (kept p t ts h)) (f, keep-IsOrdered p t.line t.start_char ts o)
  | inr h ↦
      subst (IsOrdered l c) (sym (left_out p t ts h))
        (keep-IsOrdered p l c ts (Follows-trans l c t ts f o))
]

keep-All :
    (p : SemanticToken → Bool) (ts : List SemanticToken) → All InRange ts → All InRange (keep p ts)
keep-All p [] a = tt
keep-All p (t ∷ ts) (i, a) = elim (Bool-cases (p t)) [
  | inl h ↦ subst (All InRange) (sym (kept p t ts h)) (i, keep-All p ts a)
  | inr h ↦ subst (All InRange) (sym (left_out p t ts h)) (keep-All p ts a)
]

accepted_ok : {E A : Type 0} (r : Outcome E A) → accepted r ≡ true → (a : A) × (r ≡ ok a)
accepted_ok (ok a) h = (a, refl)
accepted_ok (err e) h = cc
accepted_ok panicked h = cc

-- The tokens of a list that lie within a range, in their order.
pub data WithinOf (r : Range) : List SemanticToken → List SemanticToken → Type 0 where
  none_left : WithinOf r [] []
  take_one :
      {t : SemanticToken} {ts out : List SemanticToken}
      → Within r t
      → WithinOf r ts out
      → WithinOf r (t ∷ ts) (t ∷ out)
  leave_one :
      {t : SemanticToken} {ts out : List SemanticToken}
      → ¬ Within r t
      → WithinOf r ts out
      → WithinOf r (t ∷ ts) out

keep-WithinOf : (r : Range) (ts : List SemanticToken) → WithinOf r ts (keep (in_range r) ts)
keep-WithinOf r [] = none_left
keep-WithinOf r (t ∷ ts) = elim (Bool-cases (in_range r t)) [
  | inl h ↦
      subst (WithinOf r (t ∷ ts)) (sym (kept (in_range r) t ts h))
        (take_one ((in_range_iff r t).0 h) (keep-WithinOf r ts))
  | inr h ↦
      subst (WithinOf r (t ∷ ts)) (sym (left_out (in_range r) t ts h))
        (leave_one (λ w. absurd (ground (arith, h, (in_range_iff r t).1 w))) (keep-WithinOf r ts))
]

-- If the tokens of an open document fit in 32 bits and can be encoded, then every range of it is
-- answered, with data that decodes to the tokens, in their order, that start at or behind the
-- range's start and before its end, and to no others.
pub semantic_tokens_range_lem :
    (document : Bytes → Option Document) (extract : Document → List SemanticToken) (uri : Bytes)
    (doc : Document) (range : Range)
    → document uri ≡ some doc
    → All InRange (extract doc)
    → accepted (encode_semantic_tokens (extract doc)) ≡ true
    → (sent : List ℕ) × (within : List SemanticToken) × (semantic_tokens_range document extract uri
          range
        ≡ ok (full none sent))
      × (decode sent ≡ some within)
      × WithinOf range (extract doc) within
unfolding semantic_tokens_range
semantic_tokens_range_lem document extract uri doc range f a h =
    let ordered = (encode_semantic_tokens_iff (extract doc) a).0 h in
    let some_kept = keep (in_range range) (extract doc) in
    let fits =
      (encode_semantic_tokens_iff some_kept (keep-All (in_range range) (extract doc) a)).1
        (keep-IsOrdered (in_range range) (pos 0) (pos 0) (extract doc) ordered) in
    let (sent, e) = accepted_ok (encode_semantic_tokens some_kept) fits in
    (
      sent,
      some_kept,
      rw (f, semantic_tokens_range) (rw e refl),
      decode-encode_semantic_tokens some_kept sent e,
      keep-WithinOf range (extract doc),
    )
