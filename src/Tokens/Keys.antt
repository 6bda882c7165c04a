-- ===== src/Tokens/Keys.antt =====
-- The composite keys of the token manager.
use mathlib.Core.List.{cons-ne-nil, append_cancel_right}
use design_tokens_language_s.Prelude.{
  ℕ, ◌≡◌, ◌≢◌, ◌⊎◌, refl, ap, sym, ◌∙◌, [], ◌∷◌, ◌++◌, arith, All, inl, inr,
}
use design_tokens_language_s.GoString.{Bytes, after_last}
use design_tokens_language_s.GoString.Laws.{str_eq_iff}
use design_tokens_language_s.Tokens.{make_key, colon}

abbrev pub Lacks : ℕ → Bytes → Type 0
Lacks b = All (λ c. c ≢ b)

pub after_last-Lacks : (c : ℕ) (s : Bytes) → Lacks c s → after_last c s ≡ []
unfolding after_last
after_last-Lacks c [] h = refl
after_last-Lacks c (x ∷ s) (hx, hs) = ground (arith, after_last-Lacks c s hs)

pub after_last-append : (c : ℕ) (s t : Bytes) → Lacks c t → after_last c (s ++ c ∷ t) ≡ t ∷ []
unfolding after_last
after_last-append c [] t h = ground (arith, after_last-Lacks c t h)
after_last-append c (x ∷ s) t h = ground (arith, after_last-append c s t h)

-- The key of a token: its name alone, or behind the file's path.
pub make_key_cases :
    (f n : Bytes) → ((f ≡ []) × (make_key f n ≡ n)) ⊎ (make_key f n ≡ f ++ colon ∷ n)
unfolding make_key
make_key_cases f n = ground (arith, str_eq_iff f [])

pub no_bare_key : (g n k : Bytes) → Lacks colon n → Lacks colon k → n ≢ g ++ colon ∷ k
no_bare_key g n k hn hk e = cons-ne-nil k [] (
    sym (after_last-append colon g k hk)
    ∙ ap (after_last colon) (sym e)
    ∙ after_last-Lacks colon n hn)

pub same_parts :
    (f g n k : Bytes)
    → Lacks colon n
    → Lacks colon k
    → f ++ colon ∷ n ≡ g ++ colon ∷ k
    → (f ≡ g) × (n ≡ k)
same_parts f g n k hn hk e =
    let behind : n ∷ [] ≡ k ∷ [] =
      sym (after_last-append colon f n hn)
      ∙ ap (after_last colon) e
      ∙ after_last-append colon g k hk in
    let same : n ≡ k = cc in
    (append_cancel_right f g (colon ∷ n) (e ∙ ap (λ t. g ++ colon ∷ t) (sym same)), same)

-- Two tokens whose names hold no colon have the same key only if they have the same file and the
-- same name.
pub make_key_injective :
    (f g n k : Bytes)
    → Lacks colon n
    → Lacks colon k
    → make_key f n ≡ make_key g k
    → (f ≡ g) × (n ≡ k)
make_key_injective f g n k hn hk e = elim (make_key_cases f n) [
  | inl (fe, kf) ↦ elim (make_key_cases g k) [
    | inl (ge, kg) ↦ (fe ∙ sym ge, sym kf ∙ e ∙ kg)
    | inr kg ↦ absurd (no_bare_key g n k hn hk (sym kf ∙ e ∙ kg))
  ]
  | inr kf ↦ elim (make_key_cases g k) [
    | inl (ge, kg) ↦ absurd (no_bare_key f k n hk hn (sym kg ∙ sym e ∙ kf))
    | inr kg ↦ same_parts f g n k hn hk (sym kf ∙ e ∙ kg)
  ]
]
