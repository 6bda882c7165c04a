-- ===== src/Features/Diagnostics/Clean.antt =====
-- When there is nothing to report.
use mathlib.Core.Path.{subst}
use design_tokens_language_s.Prelude.{
  ◌≡◌, ◌↔◌, refl, sym, ap, ◌∙◌, true, false, Bool, Option, none, some, List, [], ◌∷◌, ◌++◌, All,
  Option-cases, inl, inr, arith,
}
use design_tokens_language_s.Outcome.{Outcome, ok}
use design_tokens_language_s.GoString.{Bytes}
use design_tokens_language_s.Tokens.{Token}
use design_tokens_language_s.Documents.Document.{Document}
use design_tokens_language_s.Features.{VarCall, is_css_supported_language}
use design_tokens_language_s.Features.Diagnostics.{
  is_equivalent, listed, deprecation, wrong_fallback, diagnose, diagnose_all, get_diagnostics,
}

listed_nil : {A : Type 0} (x y : Option A) → (listed x ++ listed y ≡ []) ↔ ((x ≡ none) × (y ≡ none))
listed_nil none none = (λ _. (refl, refl), λ _. refl)
listed_nil none (some y) = (λ h. cc, λ h. cc)
listed_nil (some x) y = (λ h. cc, λ h. cc)

append_nil : {A : Type 0} (xs ys : List A) → (xs ++ ys ≡ []) ↔ ((xs ≡ []) × (ys ≡ []))
append_nil [] ys = (λ h. (refl, h), λ h. h.1)
append_nil (x ∷ xs) ys = (λ h. cc, λ h. cc)

same_token : (t s : Token) → some t ≡ some s → t ≡ s
same_token t s h = cc

ok_injective : {E A : Type 0} (x y : A) → Path (Outcome E A) (ok x) (ok y) → x ≡ y
ok_injective x y h = cc

module _ (to_lower : Bytes → Bytes) (css_variable_name : Token → Bytes)
    (token_named : Bytes → Option Token) (supports_related_info : Bool) where
  -- A fallback that stands for the same value, if there is one.
  abbrev pub Agrees : Option Bytes → Bytes → Type 0
  Agrees none value = Unit
  Agrees (some fallback) value = is_equivalent to_lower fallback value ≡ true

  -- A call of an unknown token, or of one that is not deprecated and agrees with the fallback.
  abbrev pub IsClean : VarCall → Type 0
  IsClean v =
      (t : Token)
      → token_named v.token_name ≡ some t
      → (t.deprecated ≡ false) × Agrees v.fallback t.value

  deprecation-none :
      (v : VarCall) (t : Token)
      → (deprecation to_lower css_variable_name token_named supports_related_info v t ≡ none)
        ↔ (t.deprecated ≡ false)
  unfolding deprecation
  deprecation-none v t = ground arith

  wrong_fallback-none :
      (v : VarCall) (t : Token)
      → (wrong_fallback to_lower css_variable_name token_named supports_related_info v t ≡ none)
        ↔ Agrees v.fallback t.value
  unfolding wrong_fallback
  wrong_fallback-none v t = elim (Option-cases v.fallback) [
    | inl n ↦ rw (n, wrong_fallback) (λ _. tt, λ _. refl)
    | inr (fallback, e) ↦ rw (e, wrong_fallback) (ground arith)
  ]

  diagnose-nil :
      (v : VarCall)
      → (diagnose to_lower css_variable_name token_named supports_related_info v ≡ []) ↔ IsClean v
  unfolding diagnose
  diagnose-nil v = elim (Option-cases (token_named v.token_name)) [
    | inl n ↦ (λ _ t e. absurd (ground (arith, n, e)), λ _. rw (n, diagnose) refl)
    | inr (t, e) ↦
        let both =
          listed_nil (deprecation to_lower css_variable_name token_named supports_related_info v t)
            (wrong_fallback to_lower css_variable_name token_named supports_related_info v t) in
        let run : diagnose to_lower css_variable_name token_named supports_related_info v
            ≡ listed (deprecation to_lower css_variable_name token_named supports_related_info v t)
              ++ listed (
                  wrong_fallback to_lower css_variable_name token_named supports_related_info v t) =
          rw (e, diagnose) refl in
        (
          λ h s q.
              let (a, b) = both.0 (sym run ∙ h) in
              subst (λ (x : Token). (x.deprecated ≡ false) × Agrees v.fallback x.value)
                (same_token t s (sym e ∙ q))
                ((deprecation-none v t).0 a, (wrong_fallback-none v t).0 b),
          λ c.
              let (a, b) = c t e in
              run ∙ both.1 ((deprecation-none v t).1 a, (wrong_fallback-none v t).1 b),
        )
  ]

  diagnose_all-nil :
      (vs : List VarCall)
      → (diagnose_all to_lower css_variable_name token_named supports_related_info vs ≡ [])
        ↔ All IsClean vs
  unfolding diagnose_all
  diagnose_all-nil [] = (λ _. tt, λ _. refl)
  diagnose_all-nil (v ∷ vs) =
      let both =
        append_nil (diagnose to_lower css_variable_name token_named supports_related_info v)
          (diagnose_all to_lower css_variable_name token_named supports_related_info vs) in
      (
        λ h. ((diagnose-nil v).0 (both.0 h).0, (diagnose_all-nil vs).0 (both.0 h).1),
        λ (c, cs). both.1 ((diagnose-nil v).1 c, (diagnose_all-nil vs).1 cs),
      )

  -- For an open document of CSS that can be parsed, the report is empty exactly if every var()
  -- call names an unknown token, or one that is not deprecated and whose value the fallback, if
  -- there is one, stands for.
  pub get_diagnostics-nil :
      (E : Type 0) (document : Bytes → Option Document)
      (parse_css : Bytes → Bytes → Outcome E (Option (List VarCall))) (uri : Bytes) (doc : Document)
      (vs : List VarCall)
      → document uri ≡ some doc
      → is_css_supported_language doc.language_id ≡ true
      → parse_css doc.content doc.language_id ≡ ok (some vs)
      → (get_diagnostics to_lower css_variable_name token_named supports_related_info document
            parse_css uri
          ≡ ok [])
        ↔ All IsClean vs
  unfolding get_diagnostics
  get_diagnostics-nil E document parse_css uri doc vs f l p =
      let run : get_diagnostics to_lower css_variable_name token_named supports_related_info
            document parse_css uri
          ≡ ok (diagnose_all to_lower css_variable_name token_named supports_related_info vs) =
        rw (f, get_diagnostics) (rw l (rw p refl)) in
      (
        λ h. (diagnose_all-nil vs).0 (ok_injective _ _ (sym run ∙ h)),
        λ c. run ∙ ap ok ((diagnose_all-nil vs).1 c),
      )
