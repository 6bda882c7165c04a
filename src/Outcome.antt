-- ===== src/Outcome.antt =====
-- Results of Go functions that return `(value, error)`. `panicked` stands for a run-time panic, such
-- as an index out of range; a theorem that a call returns `ok` or `err` says that it does not panic.
use design_tokens_language_s.Prelude.{
  ℕ, ◌≡◌, ◌⊎◌, inl, inr, refl, Bool, none, some, List, get_elem?, length, take, drop, leb,
  if◌then◌else◌,
}

pub data Outcome {ℓ κ} (E : Type ℓ) (A : Type κ) : Type (ℓ ⊔ κ) where
  ok : A → Outcome E A
  err : E → Outcome E A
  panicked : Outcome E A

infixl 5 ◌>>=◌
-- The next call, if this one returns a value.
abbrev pub ◌>>=◌ {ℓ κ μ} :
    {E : Type ℓ} {X : Type κ} {Y : Type μ} → Outcome E X → (X → Outcome E Y) → Outcome E Y
panicked >>= next = panicked
err failure >>= next = err failure
ok x >>= next = next x

-- A value that is only fetched if the test fails; the error otherwise.
abbrev pub fail_if {ℓ κ} : {E : Type ℓ} {A : Type κ} → Bool → E → Outcome E A → Outcome E A
fail_if b e rest = if b then err e else rest

module _ {ℓ κ} {E : Type ℓ} {A : Type κ} where
  -- `xs[i]`
  abbrev pub at : List A → ℕ → Outcome E A
  at xs i = elim (get_elem? xs i) [ none ↦ panicked | some x ↦ ok x ]

  -- `xs[:n]` of a string: a panic behind its end
  abbrev pub slice_to : List A → ℕ → Outcome E (List A)
  slice_to xs n = if leb n (length xs) then ok (take n xs) else panicked

  -- `xs[n:]`
  abbrev pub slice_from : List A → ℕ → Outcome E (List A)
  slice_from xs n = if leb n (length xs) then ok (drop n xs) else panicked

  pub Outcome-cases :
      (r : Outcome E A) → ((a : A) × (r ≡ ok a)) ⊎ (((e : E) × (r ≡ err e)) ⊎ (r ≡ panicked))
  Outcome-cases (ok a) = inl (a, refl)
  Outcome-cases (err e) = inr (inl (e, refl))
  Outcome-cases panicked = inr (inr refl)

-- A chain that returns a value: its first call does, and so does the rest on that value.
pub chain_ok {ℓ κ μ} :
    {E : Type ℓ} {X : Type κ} {Y : Type μ} {y : Y} (first : Outcome E X) (next : X → Outcome E Y)
    → (first >>= next) ≡ ok y
    → (x : X) × (first ≡ ok x) × (next x ≡ ok y)
chain_ok panicked next returned = cc
chain_ok (err failure) next returned = cc
chain_ok (ok x) next returned = (x, refl, returned)
