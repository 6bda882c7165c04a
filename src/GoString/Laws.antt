-- ===== src/GoString/Laws.antt =====
-- Laws of the string functions.
use mathlib.Core.List.{cons-ne-nil}
use design_tokens_language_s.Prelude.{
  ◌+◌, ◌-◌, length, drop, take, sym, length-append, drop-append, take-append-drop, ℕ, ◌≡◌, ◌↔◌, ◌≢◌,
  refl, ap, ◌∙◌, true, List, [], ◌∷◌, ◌++◌, ◌==◌, arith, Bool-cases, inl, inr,
}
use design_tokens_language_s.GoString.{Bytes, str_eq, has_suffix, split, join, before_first}

pub str_eq_sound : (s t : Bytes) → str_eq s t ≡ true → s ≡ t
unfolding str_eq
str_eq_sound [] [] h = refl
str_eq_sound [] (d ∷ t) h = cc
str_eq_sound (c ∷ s) [] h = cc
str_eq_sound (c ∷ s) (d ∷ t) h = ground (arith, str_eq_sound s t)

pub str_eq_refl : (s : Bytes) → str_eq s s ≡ true
unfolding str_eq
str_eq_refl [] = refl
str_eq_refl (c ∷ s) = ground (arith, str_eq_refl s)

pub str_eq_iff : (s t : Bytes) → (str_eq s t ≡ true) ↔ (s ≡ t)
str_eq_iff s t = (str_eq_sound s t, λ e. rw e (str_eq_refl t))

pub str_eq_comm : (s t : Bytes) → str_eq s t ≡ str_eq t s
str_eq_comm s t = ground (arith, str_eq_iff s t, str_eq_iff t s)

before_first-ne-nil : (c : ℕ) (ps : List Bytes) → before_first c ps ≢ []
before_first-ne-nil c [] = cons-ne-nil _ _
before_first-ne-nil c (p ∷ ps) = cons-ne-nil _ _

pub split-ne-nil : (sep : ℕ) (s : Bytes) → split sep s ≢ []
unfolding split
split-ne-nil sep [] = cons-ne-nil _ _
split-ne-nil sep (c ∷ s) = elim (Bool-cases (c == sep)) [
  | inl e ↦ rw e (cons-ne-nil _ _)
  | inr e ↦ rw e (before_first-ne-nil c (split sep s))
]

join-before_first :
    (sep c : ℕ) (ps : List Bytes) → ps ≢ [] → join sep (before_first c ps) ≡ c ∷ join sep ps
join-before_first sep c [] h = absurd (h refl)
join-before_first sep c (p ∷ []) h = refl
join-before_first sep c (p ∷ q ∷ ps) h = refl

pub join-cons_nil : (sep : ℕ) (ps : List Bytes) → ps ≢ [] → join sep ([] ∷ ps) ≡ sep ∷ join sep ps
join-cons_nil sep [] h = absurd (h refl)
join-cons_nil sep (p ∷ ps) h = refl

pub join-split : (sep : ℕ) (s : Bytes) → join sep (split sep s) ≡ s
unfolding split
join-split sep [] = refl
join-split sep (c ∷ s) = elim (Bool-cases (c == sep)) [
  | inl e ↦ rw e (
      join-cons_nil sep (split sep s) (split-ne-nil sep s)
      ∙ ap (λ t. sep ∷ t) (join-split sep s)
      ∙ ground arith)
  | inr e ↦ rw e (
      join-before_first sep c (split sep s) (split-ne-nil sep s)
      ∙ ap (λ t. c ∷ t) (join-split sep s))
]

pub has_suffix-append : (s p : Bytes) → has_suffix (s ++ p) p ≡ true
unfolding has_suffix
has_suffix-append s p =
    let long = length-append s p in
    let cut : drop (length (s ++ p) - length p) (s ++ p) ≡ p =
      ap (λ n. drop n (s ++ p)) {y = length s + 0} (omega (arith, long)) ∙ drop-append s p 0 in
    rw cut (ground (arith, str_eq_refl p))

pub has_suffix_split : (s p : Bytes) → has_suffix s p ≡ true → take (length s - length p) s ++ p ≡ s
unfolding has_suffix
has_suffix_split s p h =
    ap (λ t. take (length s - length p) s ++ t)
      (sym (str_eq_sound (drop (length s - length p) s) p (ground arith)))
    ∙ take-append-drop (length s - length p) s
