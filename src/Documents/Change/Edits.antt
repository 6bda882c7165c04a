-- ===== src/Documents/Change/Edits.antt =====
-- applyChanges against a specification of a client's edits, one step for each change.
use design_tokens_language_s.Prelude.{
  ◌≡◌, ◌≢◌, ◌⊎◌, ◌↔◌, inl, inr, refl, ap, ◌∙◌, List, [], ◌∷◌, ◌++◌, arith, take, drop, none, some,
  true, Option-cases,
}
use mathlib.Core.Path.{subst}
use design_tokens_language_s.Outcome.{Outcome, ok, panicked, ◌>>=◌}
use design_tokens_language_s.GoString.{Bytes}
use design_tokens_language_s.Documents.Change.{
  Range, ContentChange, ChangeError, apply_incremental_change, apply_change, apply_changes,
}
use design_tokens_language_s.Documents.Change.Splice.{
  IsInside, byte_of, apply_incremental_change_splice,
}
use design_tokens_language_s.Documents.Change.Total.{
  IsOutside, IsInside-or_IsOutside, rejects, apply_incremental_change_outside,
}

-- A text put in place of the bytes between two positions.
abbrev pub splice : Bytes → Range → Bytes → Bytes
splice content r text =
    take (byte_of content r.start) content ++ (text ++ drop (byte_of content r.stop) content)

-- What one change makes of a content: the new text, or a splice between two positions of the content.
pub data Edit (content : Bytes) (c : ContentChange) (out : Bytes) : Type 0 where
  full : c.range ≡ none → out ≡ c.text → Edit content c out
  partial :
      (r : Range)
      → c.range ≡ some r
      → IsInside content r.start
      → IsInside content r.stop
      → out ≡ splice content r c.text
      → Edit content c out

-- A list of changes, each at the positions of the content that the one before it left.
pub data Edits : Bytes → List ContentChange → Bytes → Type 0 where
  finished : {content : Bytes} → Edits content [] content
  next :
      {content middle out : Bytes} {c : ContentChange} {cs : List ContentChange}
      → Edit content c middle
      → Edits middle cs out
      → Edits content (c ∷ cs) out

range_cases : (c : ContentChange) → (c.range ≡ none) ⊎ ((r : Range) × (c.range ≡ some r))
range_cases c = Option-cases c.range

apply_change_range :
    (content : Bytes) (c : ContentChange) (r : Range)
    → c.range ≡ some r
    → apply_change content c ≡ apply_incremental_change content r c.text
unfolding apply_change
apply_change_range content c r e = rw (e, apply_change)

apply_change_full :
    (content : Bytes) (c : ContentChange) → c.range ≡ none → apply_change content c ≡ ok c.text
unfolding apply_change
apply_change_full content c e = rw (e, apply_change)

apply_change-Edit :
    (content : Bytes) (c : ContentChange) (out : Bytes)
    → Edit content c out
    → apply_change content c ≡ ok out
apply_change-Edit content c out (full e h) = rw h (apply_change_full content c e)
apply_change-Edit content c out (partial r e s f h) =
    rw h (apply_change_range content c r e ∙ apply_incremental_change_splice content r c.text s f)

abbrev EditOrReject : Bytes → ContentChange → Type 0
EditOrReject content c =
    ((out : Bytes) × Edit content c out × (apply_change content c ≡ ok out))
    ⊎ (rejects (apply_change content c) ≡ true)

module _ (content : Bytes) (c : ContentChange) (r : Range) (e : c.range ≡ some r) where
  reject_outside :
      IsOutside content r.start ⊎ IsOutside content r.stop → rejects (apply_change content c) ≡ true
  reject_outside h =
      ap rejects (apply_change_range content c r e)
      ∙ apply_incremental_change_outside content r c.text h

  edit_inside : IsInside content r.start → IsInside content r.stop → EditOrReject content c
  edit_inside s f = inl (
    splice content r c.text,
    partial r e s f refl,
    apply_change_range content c r e ∙ apply_incremental_change_splice content r c.text s f,
  )

  range_edit : EditOrReject content c
  range_edit = elim (IsInside-or_IsOutside content r.start) [
    | inr h ↦ inr (reject_outside (inl h))
    | inl s ↦ elim (IsInside-or_IsOutside content r.stop) [
      | inr h ↦ inr (reject_outside (inr h))
      | inl f ↦ edit_inside s f
    ]
  ]

-- Every change is either what the specification says or rejected.
edit_or_reject : (content : Bytes) (c : ContentChange) → EditOrReject content c
edit_or_reject content c = elim (range_cases c) [
  | inl e ↦ inl (c.text, full e refl, apply_change_full content c e)
  | inr (r, e) ↦ range_edit content c r e
]

rejects_bind :
    (r : Outcome ChangeError Bytes) (f : Bytes → Outcome ChangeError Bytes)
    → rejects r ≡ true
    → (r >>= f) ≢ panicked
rejects_bind r f h e = ground arith

rejects_bind_ok :
    (r : Outcome ChangeError Bytes) (f : Bytes → Outcome ChangeError Bytes) {out : Bytes}
    → rejects r ≡ true
    → (r >>= f) ≢ ok out
rejects_bind_ok r f h e = ground arith

Edits→ok :
    {content out : Bytes} {cs : List ContentChange}
    → Edits content cs out
    → apply_changes content cs ≡ ok out
unfolding apply_changes
Edits→ok finished = refl
Edits→ok (next {content = t} {middle = m} {c = c} step rest) =
    rw (apply_change-Edit t c m step) (Edits→ok rest)

ok→Edits :
    (content out : Bytes) (cs : List ContentChange)
    → apply_changes content cs ≡ ok out
    → Edits content cs out
unfolding apply_changes
ok→Edits content out [] h = let e : content ≡ out = cc in subst (λ x. Edits content [] x) e finished
ok→Edits content out (c ∷ cs) h = elim (edit_or_reject content c) [
  | inl (middle, step, e) ↦ next step (ok→Edits middle out cs (rw e at h))
  | inr e ↦ absurd (rejects_bind_ok (apply_change content c) (λ t. apply_changes t cs) e h)
]

-- The changes of a notification yield a content exactly if that content comes from the specified
-- edits, each on the result of the one before.
pub apply_changes_iff-Edits :
    (content out : Bytes) (cs : List ContentChange)
    → (apply_changes content cs ≡ ok out) ↔ Edits content cs out
apply_changes_iff-Edits content out cs = (ok→Edits content out cs, Edits→ok)

-- No list of changes makes the server panic, whatever positions it names.
pub apply_changes-ne-panicked :
    (content : Bytes) (cs : List ContentChange) → apply_changes content cs ≢ panicked
unfolding apply_changes
apply_changes-ne-panicked content [] h = cc
apply_changes-ne-panicked content (c ∷ cs) h = elim (edit_or_reject content c) [
  | inl (middle, step, e) ↦ apply_changes-ne-panicked middle cs (rw e at h)
  | inr e ↦ rejects_bind (apply_change content c) (λ t. apply_changes t cs) e h
]
