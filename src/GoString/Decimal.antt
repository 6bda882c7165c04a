-- ===== src/GoString/Decimal.antt =====
-- fmt.Sprintf("%d", n) of an unsigned number, and that two numbers never print alike.
use mathlib.Core.List.{foldl, foldl-append}
use design_tokens_language_s.Prelude.{
  ℕ, zero, suc, ◌+◌, ◌-◌, ◌*◌, ◌/◌, ◌%◌, ◌≤◌, ◌<◌, ◌≡◌, refl, ap, sym, ◌∙◌, [], ◌∷◌, ◌++◌, ltb,
  arith, Bool-cases, inl, inr, if◌then◌else◌,
}
use design_tokens_language_s.GoString.{Bytes, ascii}

digits : ℕ → ℕ → Bytes
digits zero n = []
digits (suc f) n =
    let rest = digits f (n / 10) ++ (b'0' + n % 10) ∷ [] in
    if ltb n 10 then (b'0' + n) ∷ [] else rest

-- A number has at most as many digits as itself plus one, so the fuel is enough.
unfoldable pub decimal : ℕ → Bytes
unfolding digits
decimal n = digits (suc n) n

decimal_run : decimal 1207 ≡ ascii "1207"
unfolding decimal
decimal_run = refl

abbrev value : Bytes → ℕ
value = foldl (λ n c. n * 10 + (c - b'0')) 0

value-digits : (f n : ℕ) → n < f → value (digits f n) ≡ n
unfolding digits
value-digits zero n h = absurd (omega arith)
value-digits (suc f) n h = elim (Bool-cases (ltb n 10)) [
  | inl e ↦ rw e (omega arith)
  | inr e ↦ rw e (
      let big : 10 ≤ n = ground arith in
      let low : b'0' + n % 10 - b'0' ≡ n % 10 = omega arith in
      rw foldl-append (rw (value-digits f (n / 10) (omega arith)) (omega arith)))
]

pub decimal_injective : (n m : ℕ) → decimal n ≡ decimal m → n ≡ m
unfolding decimal
decimal_injective n m e =
    sym (value-digits (suc n) n (omega arith)) ∙ ap value e ∙ value-digits (suc m) m (omega arith)
