-- ===== src/Documents/TokenFile/Patterns.antt =====
-- Where hasDTCGPatterns finds what it looks for.
use design_tokens_language_s.Prelude.{
  ℕ, ◌+◌, ◌≤◌, ◌≡◌, ◌↔◌, ◌⊎◌, refl, ap, ◌∙◌, inl, inr, true, false, Bool, ltb, Bool-cases, arith,
}
use design_tokens_language_s.GoString.{Bytes, ascii}
use design_tokens_language_s.Json.{
  Json, null, boolean, number, text, array, object, Fields, end_of_object, field, value_at,
}
use design_tokens_language_s.Documents.TokenFile.{
  present, level, is_metadata, any_nested, nested_patterns, has_dtcg_patterns,
}

-- The object has an entry with this value under this key.
abbrev pub Entry : Bytes → Json → Fields → Type 0
Entry key value end_of_object = ⊥
Entry key value (field k v fields) = ((k ≡ key) × (v ≡ value)) ⊎ Entry key value fields

-- The object at this depth, or one nested in it, has a $value or a $type; down to depth 10, and at depth
-- 0 not below a key that starts with a dollar.
pub data IsMarked : ℕ → Fields → Type 0 where
  has_value :
      {depth : ℕ} {fields : Fields}
      → depth ≤ 10
      → present (value_at (ascii "$value") fields) ≡ true
      → IsMarked depth fields
  has_type :
      {depth : ℕ} {fields : Fields}
      → depth ≤ 10
      → present (value_at (ascii "$type") fields) ≡ true
      → IsMarked depth fields
  below :
      {depth : ℕ} {fields : Fields} (key : Bytes) (nested : Fields)
      → depth ≤ 10
      → Entry key (object nested) fields
      → is_metadata key depth ≡ false
      → IsMarked (depth + 1) nested
      → IsMarked depth fields

-- One of the nested objects is marked.
abbrev MarkedBelow : ℕ → Fields → Type 0
MarkedBelow depth fields =
    (key : Bytes) × (nested : Fields) × Entry key (object nested) fields
    × (is_metadata key depth ≡ false)
    × IsMarked (depth + 1) nested

level-IsMarked :
    (fields : Fields) (depth : ℕ) (nested : Bool)
    → level fields depth nested ≡ true
    → (nested ≡ true → MarkedBelow depth fields)
    → IsMarked depth fields
unfolding level
level-IsMarked fields depth nested h f = elim (Bool-cases (ltb 10 depth)) [
  | inl d ↦ absurd (ground (arith, d))
  | inr d ↦ elim (Bool-cases (present (value_at (ascii "$value") fields))) [
    | inl v ↦ has_value (ground arith) v
    | inr v ↦ elim (Bool-cases (present (value_at (ascii "$type") fields))) [
      | inl t ↦ has_type (ground arith) t
      | inr t ↦
          let (key, inner, e, m, k) = f (ground (arith, d, v, t)) in
          below key inner (ground arith) e m k
    ]
  ]
]

mutual
  unfolding any_nested

  any_nested-MarkedBelow :
      (fields : Fields) (depth : ℕ) → any_nested fields depth ≡ true → MarkedBelow depth fields
  any_nested-MarkedBelow end_of_object depth h = cc
  any_nested-MarkedBelow (field key value fields) depth h =
      elim (Bool-cases (is_metadata key depth)) [
        | inl m ↦
            let (k, n, e, a, b) = any_nested-MarkedBelow fields depth (rw (m) at h) in
            (k, n, inr e, a, b)
        | inr m ↦ elim (Bool-cases (nested_patterns value depth)) [
          | inl i ↦
              let (n, e, k) = nested_patterns-IsMarked value depth i in
              (key, n, inl (refl, e), m, k)
          | inr i ↦
              let (k, n, e, a, b) = any_nested-MarkedBelow fields depth (rw (m, i) at h) in
              (k, n, inr e, a, b)
        ]
      ]

  nested_patterns-IsMarked :
      (value : Json) (depth : ℕ)
      → nested_patterns value depth ≡ true
      → (nested : Fields) × (value ≡ object nested) × IsMarked (depth + 1) nested
  nested_patterns-IsMarked (object nested) depth h = (
    nested,
    refl,
    level-IsMarked nested (depth + 1) (any_nested nested (depth + 1)) h
        (any_nested-MarkedBelow nested (depth + 1)),
  )
  nested_patterns-IsMarked null depth h = cc
  nested_patterns-IsMarked (boolean b) depth h = cc
  nested_patterns-IsMarked (number n) depth h = cc
  nested_patterns-IsMarked (text s) depth h = cc
  nested_patterns-IsMarked (array xs) depth h = cc

any_nested_holds :
    (fields : Fields) (depth : ℕ) (key : Bytes) (nested : Fields)
    → Entry key (object nested) fields
    → is_metadata key depth ≡ false
    → nested_patterns (object nested) depth ≡ true
    → any_nested fields depth ≡ true
unfolding any_nested
any_nested_holds end_of_object depth key nested e m h = elim e [ ]
any_nested_holds (field k v fields) depth key nested (inl (p, q)) m h =
    let open_key : is_metadata k depth ≡ false = ap (λ x. is_metadata x depth) p ∙ m in
    let here : nested_patterns v depth ≡ true = ap (λ x. nested_patterns x depth) q ∙ h in
    rw (open_key) (rw here refl)
any_nested_holds (field k v fields) depth key nested (inr e) m h =
    let rest = any_nested_holds fields depth key nested e m h in ground (arith, rest)

nested_patterns-object :
    (nested : Fields) (depth : ℕ)
    → nested_patterns (object nested) depth ≡ has_dtcg_patterns nested (depth + 1)
unfolding nested_patterns has_dtcg_patterns
nested_patterns-object nested depth = refl

IsMarked-has_dtcg_patterns :
    (depth : ℕ) (fields : Fields) → IsMarked depth fields → has_dtcg_patterns fields depth ≡ true
unfolding has_dtcg_patterns level
IsMarked-has_dtcg_patterns depth fields (has_value d v) = ground (arith, v)
IsMarked-has_dtcg_patterns depth fields (has_type d v) = ground (arith, v)
IsMarked-has_dtcg_patterns depth fields (below key nested d e m k) =
    let inside =
      any_nested_holds fields depth key nested e m
        (nested_patterns-object nested depth ∙ IsMarked-has_dtcg_patterns (depth + 1) nested k) in
    ground (arith, inside)

-- The search finds a pattern in an object at a depth exactly if the object, or one nested in it
-- that is not metadata of the root, has $value or $type no deeper than ten.
pub has_dtcg_patterns_iff :
    (fields : Fields) (depth : ℕ) → (has_dtcg_patterns fields depth ≡ true) ↔ IsMarked depth fields
unfolding has_dtcg_patterns
has_dtcg_patterns_iff fields depth = (
  λ h.
      level-IsMarked fields depth (any_nested fields depth) h (any_nested-MarkedBelow fields depth),
  IsMarked-has_dtcg_patterns depth fields,
)
