-- ===== src/SemanticTokens/Encode/Order.antt =====
-- Which token lists encodeSemanticTokens accepts: those in the order of the text.
use design_tokens_language_s.Prelude.{
  ℕ, ◌+◌, ◌≤◌, ◌<◌, ◌≡◌, ◌≢◌, ◌↔◌, ◌⊎◌, refl, sym, ◌∙◌, Bool, true, false, List, [], ◌∷◌, ◌++◌,
  arith, if◌then◌else◌, Bool-cases, inl, inr, All,
}
use design_tokens_language_s.Ints.{
  ℤ, pos, negsuc, ◌-ℤ◌, ◌≤ℤ◌, eqb_ℤ, pos_part, neg_part, eq_of_parts,
}
use design_tokens_language_s.Outcome.{Outcome, ok, err, panicked, ◌>>=◌}
use design_tokens_language_s.Position.{max_uint32}
use design_tokens_language_s.SemanticTokens.Encode.{
  SemanticToken, Field, delta_line, delta_start, negative, append_validated_int, encode_token,
  encode_loop, encode_semantic_tokens,
}

abbrev pub accepted {ℓ κ} : {E : Type ℓ} {A : Type κ} → Outcome E A → Bool
accepted (ok a) = true
accepted _ = false

abbrev pub IsUint32 : ℤ → Type 0
IsUint32 v = (pos 0 ≤ℤ v) × (v ≤ℤ pos max_uint32)

-- Every field of a token fits the protocol's numbers.
pub record InRange (t : SemanticToken) : Type 0 where
  pub line_fits : IsUint32 t.line
  pub start_fits : IsUint32 t.start_char
  pub length_fits : IsUint32 t.length
  pub type_fits : IsUint32 t.token_type
  pub modifiers_fit : IsUint32 t.token_modifiers

-- A token starts on a later line, or on the same line not before the column.
abbrev pub Follows : ℤ → ℤ → SemanticToken → Type 0
Follows line column t =
    (pos_part line + neg_part t.line < pos_part t.line + neg_part line)
    ⊎ (t.line ≡ line) × (column ≤ℤ t.start_char)

abbrev pub IsOrdered : ℤ → ℤ → List SemanticToken → Type 0
IsOrdered line column [] = Unit
IsOrdered line column (t ∷ ts) = Follows line column t × IsOrdered t.line t.start_char ts

uint32_value : (v : ℤ) → IsUint32 v → (n : ℕ) × (v ≡ pos n) × (n ≤ max_uint32)
uint32_value (pos n) h = (n, refl, omega arith)
uint32_value (negsuc n) h = absurd (omega arith)

append_fits :
    (out : List ℕ) (v : ℤ) (f : Field) (i : ℕ)
    → IsUint32 v
    → append_validated_int out v f i ≡ ok (out ++ pos_part v ∷ [])
unfolding append_validated_int
append_fits out (pos n) f i h = ground arith
append_fits out (negsuc n) f i h = absurd (omega arith)

append_negative :
    (out : List ℕ) (v : ℤ) (f : Field) (i : ℕ)
    → pos_part v < neg_part v
    → append_validated_int out v f i ≡ err (negative i f v)
unfolding append_validated_int
append_negative out (pos n) f i h = absurd (omega arith)
append_negative out (negsuc n) f i h = refl

-- The column that a token is sent with.
abbrev start_of : ℤ → ℤ → SemanticToken → ℤ
start_of pl pc t = if eqb_ℤ (t.line -ℤ pl) (pos 0) then t.start_char -ℤ pc else t.start_char

deltas_fit :
    (pl pc : ℤ) (t : SemanticToken)
    → IsUint32 pl
    → IsUint32 pc
    → InRange t
    → Follows pl pc t
    → IsUint32 (t.line -ℤ pl) × IsUint32 (start_of pl pc t)
unfolding ◌-ℤ◌
deltas_fit pl pc t hl hc r f = ground arith

-- A token before the position: on an earlier line, or on the same line before the column.
abbrev pub Precedes : ℤ → ℤ → SemanticToken → Type 0
Precedes line column t =
    (pos_part t.line + neg_part line < pos_part line + neg_part t.line)
    ⊎ (t.line ≡ line)
      × (pos_part t.start_char + neg_part column < pos_part column + neg_part t.start_char)

Follows-or_Precedes : (pl pc : ℤ) (t : SemanticToken) → Follows pl pc t ⊎ Precedes pl pc t
Follows-or_Precedes pl pc t = grind (arith, eq_of_parts)

token_accepted :
    (out : List ℕ) (i : ℕ) (pl pc : ℤ) (t : SemanticToken)
    → IsUint32 pl
    → IsUint32 pc
    → InRange t
    → Follows pl pc t
    → accepted (encode_token out i pl pc t) ≡ true
unfolding encode_token
token_accepted out i pl pc t hl hc r f =
    let (d, s) = deltas_fit pl pc t hl hc r f in
    rw (append_fits out (t.line -ℤ pl) delta_line i d) (
      rw (append_fits _ (start_of pl pc t) delta_start i s) (
        rw (append_fits _ t.length Field.length i r.length_fits) (
          rw (append_fits _ t.token_type Field.token_type i r.type_fits)
            (rw (append_fits _ t.token_modifiers Field.token_modifiers i r.modifiers_fit)))))

deltas_negative :
    (pl pc : ℤ) (t : SemanticToken)
    → Precedes pl pc t
    → (pos_part (t.line -ℤ pl) < neg_part (t.line -ℤ pl))
      ⊎ (IsUint32 (t.line -ℤ pl)) × (pos_part (start_of pl pc t) < neg_part (start_of pl pc t))
unfolding ◌-ℤ◌
deltas_negative pl pc t (inl h) = inl (ground arith)
deltas_negative pl pc t (inr (e, h)) = inr (ground arith)

token_rejected :
    (out : List ℕ) (i : ℕ) (pl pc : ℤ) (t : SemanticToken)
    → Precedes pl pc t
    → accepted (encode_token out i pl pc t) ≡ false
unfolding encode_token
token_rejected out i pl pc t p = elim (deltas_negative pl pc t p) [
  | inl h ↦ rw (append_negative out (t.line -ℤ pl) delta_line i h)
  | inr (d, h) ↦
      rw (append_fits out (t.line -ℤ pl) delta_line i d)
        (rw (append_negative _ (start_of pl pc t) delta_start i h))
]

true-ne-false : true ≢ false
true-ne-false h = cc

accepted_ok : {E A : Type 0} (r : Outcome E A) → accepted r ≡ true → (a : A) × (r ≡ ok a)
accepted_ok (ok a) h = (a, refl)
accepted_ok (err e) h = cc
accepted_ok panicked h = cc

rejected_bind :
    {E A B : Type 0} (r : Outcome E A) (f : A → Outcome E B)
    → accepted r ≡ false
    → accepted (r >>= f) ≡ false
rejected_bind (ok a) f h = cc
rejected_bind (err e) f h = refl
rejected_bind panicked f h = refl

IsOrdered-accepted :
    (ts : List SemanticToken) (i : ℕ) (pl pc : ℤ) (out : List ℕ)
    → IsUint32 pl
    → IsUint32 pc
    → All InRange ts
    → IsOrdered pl pc ts
    → accepted (encode_loop ts i pl pc out) ≡ true
unfolding encode_loop
IsOrdered-accepted [] i pl pc out hl hc r o = refl
IsOrdered-accepted (t ∷ ts) i pl pc out hl hc (r, rs) (f, fs) =
    let (out', e) =
      accepted_ok (encode_token out i pl pc t) (token_accepted out i pl pc t hl hc r f) in
    rw (e) (IsOrdered-accepted ts (i + 1) t.line t.start_char out' r.line_fits r.start_fits rs fs)

accepted-IsOrdered :
    (ts : List SemanticToken) (i : ℕ) (pl pc : ℤ) (out : List ℕ)
    → accepted (encode_loop ts i pl pc out) ≡ true
    → IsOrdered pl pc ts
unfolding encode_loop
accepted-IsOrdered [] i pl pc out h = tt
accepted-IsOrdered (t ∷ ts) i pl pc out h = elim (Follows-or_Precedes pl pc t) [
  | inr p ↦ absurd (
      true-ne-false (
        sym h
        ∙ rejected_bind (encode_token out i pl pc t) (encode_loop ts (i + 1) t.line t.start_char)
            (token_rejected out i pl pc t p)))
  | inl f ↦ elim (Bool-cases (accepted (encode_token out i pl pc t))) [
    | inr p ↦ absurd (
        true-ne-false (
          sym h
          ∙ rejected_bind (encode_token out i pl pc t) (encode_loop ts (i + 1) t.line t.start_char)
              p))
    | inl p ↦
        let (out', e) = accepted_ok (encode_token out i pl pc t) p in
        (f, accepted-IsOrdered ts (i + 1) t.line t.start_char out' (rw e at h))
  ]
]

-- Tokens whose fields fit in 32 bits are encoded exactly if they come in the order of the text.
pub encode_semantic_tokens_iff :
    (ts : List SemanticToken)
    → All InRange ts
    → (accepted (encode_semantic_tokens ts) ≡ true) ↔ IsOrdered (pos 0) (pos 0) ts
unfolding encode_semantic_tokens
encode_semantic_tokens_iff ts r = (
  accepted-IsOrdered ts 0 (pos 0) (pos 0) [],
  IsOrdered-accepted ts 0 (pos 0) (pos 0) [] (omega arith) (omega arith) r,
)
