-- ===== src/CssValues/Formatted.antt =====
-- What a formatted value can be.
use design_tokens_language_s.Prelude.{ℕ, ◌≡◌, ◌⊎◌, ◌++◌, [], ◌∷◌, refl, ap, sym, ◌∙◌, arith}
use design_tokens_language_s.GoString.{Bytes, str_eq, remove_byte}
use design_tokens_language_s.CssValues.{without_blanks, is_css_value_semantically_equivalent}

abbrev pub IsBlank : ℕ → Type 0
IsBlank c = (c ≡ 32) ⊎ ((c ≡ 9) ⊎ (c ≡ 10))

remove_byte-append :
    (c : ℕ) (xs ys : Bytes) → remove_byte c (xs ++ ys) ≡ remove_byte c xs ++ remove_byte c ys
unfolding remove_byte
remove_byte-append c [] ys = refl
remove_byte-append c (x ∷ xs) ys = ground (arith, remove_byte-append c xs ys)

without_blanks-append :
    (xs ys : Bytes) → without_blanks (xs ++ ys) ≡ without_blanks xs ++ without_blanks ys
unfolding without_blanks
without_blanks-append xs ys = rw (remove_byte-append 32 xs ys) (
    rw (remove_byte-append 9 (remove_byte 32 xs) (remove_byte 32 ys)) (
      remove_byte-append 10 (remove_byte 9 (remove_byte 32 xs))
        (remove_byte 9 (remove_byte 32 ys))))

without_blanks-blank :
    (c : ℕ) (ys : Bytes) → IsBlank c → without_blanks (c ∷ ys) ≡ without_blanks ys
unfolding without_blanks remove_byte
without_blanks-blank c ys h = ground arith

-- A space, tab or line break put into a value, wherever, changes no comparison with another
-- value.
pub equivalent_blank :
    (to_lower : Bytes → Bytes) (c : ℕ) (before after other : Bytes)
    → IsBlank c
    → is_css_value_semantically_equivalent to_lower (before ++ (c ∷ after)) other
      ≡ is_css_value_semantically_equivalent to_lower (before ++ after) other
unfolding is_css_value_semantically_equivalent
equivalent_blank to_lower c before after other h =
    let same : without_blanks (before ++ (c ∷ after)) ≡ without_blanks (before ++ after) =
      without_blanks-append before (c ∷ after)
      ∙ ap (λ t. without_blanks before ++ t) (without_blanks-blank c after h)
      ∙ sym (without_blanks-append before after) in
    ap (λ t. str_eq (to_lower t) (to_lower (without_blanks other))) same
