-- ===== src/Features/CodeActions/InRange.antt =====
-- The actions edit var() calls that the requested range meets, and nothing else.
use design_tokens_language_s.Prelude.{
  ◌≡◌, ◌⊎◌, refl, Bool, true, false, ◌||◌, Option, none, some, List, [], ◌∷◌, ◌++◌, ltb, length,
  All, All-append, Bool-cases, Option-cases, inl, inr, if◌then◌else◌,
}
use design_tokens_language_s.Outcome.{Outcome, ok, err, panicked, Outcome-cases}
use design_tokens_language_s.GoString.{Bytes, ascii, str_eq, replace_byte}
use design_tokens_language_s.Tokens.{Token}
use design_tokens_language_s.Documents.Change.{Range}
use design_tokens_language_s.Ranges.{ranges_intersect}
use design_tokens_language_s.CssValues.{
  Text, FormatError, format_token_value_for_css, is_css_value_semantically_equivalent,
}
use design_tokens_language_s.Features.{VarCall}
use design_tokens_language_s.Features.CodeActions.{
  TextEdit, ActionKind, SentDiagnostic, CodeAction, with_value, made_list, and_then, replacing,
  matching_diagnostic, is_collapsed, extract_recommended_token, count_incorrect,
  create_replacement_action, create_literal_value_action, create_fix_fallback_action,
  create_add_fallback_action, recommended_action, create_deprecated_token_actions, toggled,
  create_toggle_fallback_action, toggle_edits, toggle_range, create_toggle_range_fallbacks_action,
  create_toggle_actions, fallback_action, token_actions, process_var_calls,
  create_fix_all_action_if_needed, all_actions,
}

-- The range is that of one of the calls, which the requested range meets.
abbrev pub Meets : Range → List VarCall → Range → Type 0
Meets requested [] r = ⊥
Meets requested (v ∷ vs) r =
    ((ranges_intersect requested v.range ≡ true) × (r ≡ v.range)) ⊎ Meets requested vs r

-- The edits, if there are any, are of this document, and their ranges have this property.
abbrev pub EditsWithin : Bytes → (Range → Type 0) → Option (Bytes × List TextEdit) → Type 0
EditsWithin uri M none = Unit
EditsWithin uri M (some (u, edits)) = (u ≡ uri) × All (λ (e : TextEdit). M e.range) edits

abbrev pub OnCalls : Bytes → (Range → Type 0) → CodeAction → Type 0
OnCalls uri M a = EditsWithin uri M a.edit

All-map {ℓ κ μ} :
    {A : Type ℓ} (P : A → Type κ) (Q : A → Type μ) (xs : List A)
    → ((x : A) → P x → Q x)
    → All P xs
    → All Q xs
All-map P Q [] f a = tt
All-map P Q (x ∷ xs) f (p, ps) = (f x p, All-map P Q xs f ps)

module _ (uri : Bytes) (M : Range → Type 0) where
  made-All :
      (o : Outcome FormatError Bytes) (make : Bytes → CodeAction)
      → ((value : Bytes) → OnCalls uri M (make value))
      → All (OnCalls uri M) (made_list (with_value o make)).0
  made-All (ok value) make h = (h value, tt)
  made-All (err e) make h = tt
  made-All panicked make h = tt

  then-All :
      (first second : List CodeAction × List FormatError)
      → All (OnCalls uri M) first.0
      → All (OnCalls uri M) second.0
      → All (OnCalls uri M) (and_then first second).0
  then-All first second f s = All-append (OnCalls uri M) first.0 second.0 f s

  replacing_on :
      (title : Bytes) (kind : ActionKind) (v : VarCall) (new_text : Bytes)
      (d : Option SentDiagnostic) (b : Bool)
      → M v.range
      → OnCalls uri M (replacing title kind uri v new_text d b)
  unfolding replacing
  replacing_on title kind v new_text d b m = (refl, (m, tt))

  module _ (text : Text) (token_named : Bytes → Option Token) where
    replacement-All :
        (v : VarCall) (name : Bytes) (t : Token) (d : Option SentDiagnostic)
        → M v.range
        → All
            (OnCalls uri M)
            (made_list (create_replacement_action text token_named uri v name t d)).0
    unfolding create_replacement_action
    replacement-All v name t d m = elim (Option-cases v.fallback) [
      | inl e ↦ rw (e, create_replacement_action) (replacing_on _ _ v _ d _ m, tt)
      | inr (f, e) ↦
          rw (e, create_replacement_action)
            (made-All (format_token_value_for_css text t) _ (λ value. replacing_on _ _ v _ d _ m))
    ]

    literal-All :
        (v : VarCall) (t : Token) (d : Option SentDiagnostic)
        → M v.range
        → All (OnCalls uri M) (made_list (create_literal_value_action text token_named uri v t d)).0
    unfolding create_literal_value_action
    literal-All v t d m = elim (Outcome-cases (format_token_value_for_css text t)) [
      | inl (value, e) ↦ rw (e, create_literal_value_action) (replacing_on _ _ v _ d _ m, tt)
      | inr (inl (x, e)) ↦ rw (e, create_literal_value_action) tt
      | inr (inr e) ↦ rw (e, create_literal_value_action) tt
    ]

    recommended-All :
        (v : VarCall) (name : Bytes) (d : Option SentDiagnostic)
        → M v.range
        → All (OnCalls uri M) (made_list (recommended_action text token_named uri v name d)).0
    unfolding recommended_action
    recommended-All v name d m = elim (Bool-cases (str_eq name [])) [
      | inl b ↦ rw (b, recommended_action) tt
      | inr b ↦ elim (Option-cases (token_named (ascii "--" ++ replace_byte b'.' b'-' name))) [
        | inl e ↦ rw (b, recommended_action) (rw e tt)
        | inr (t, e) ↦ rw (b, recommended_action) (rw e (replacement-All v _ t d m))
      ]
    ]

    deprecated-All :
        (v : VarCall) (t : Token) (ds : List SentDiagnostic)
        → M v.range
        → All (OnCalls uri M) (create_deprecated_token_actions text token_named uri v t ds).0
    unfolding create_deprecated_token_actions
    deprecated-All v t ds m =
        then-All (made_list (recommended_action text token_named uri v _ _))
          (made_list (create_literal_value_action text token_named uri v t _))
          (recommended-All v (extract_recommended_token text.trim_space t.deprecation_message)
            (matching_diagnostic v ds) m)
          (literal-All v t (matching_diagnostic v ds) m)

    fallback-All :
        (v : VarCall) (t : Token) (ds : List SentDiagnostic)
        → M v.range
        → All (OnCalls uri M) (made_list (fallback_action text token_named uri v t ds)).0
    unfolding fallback_action create_fix_fallback_action create_add_fallback_action
    fallback-All v t ds m = elim (Option-cases v.fallback) [
      | inr (f, e) ↦
          elim (Bool-cases (is_css_value_semantically_equivalent text.to_lower f t.value)) [
            | inl b ↦ rw (e, fallback_action) (rw b tt)
            | inr b ↦
                rw (e, fallback_action)
                  (rw b (
                    made-All (format_token_value_for_css text t) _
                      (λ value. replacing_on _ _ v _ _ _ m)))
          ]
      | inl e ↦
          elim (Bool-cases (str_eq t.type (ascii "color") || str_eq t.type (ascii "dimension"))) [
            | inl b ↦
                rw (e, fallback_action)
                  (rw b (
                    made-All (format_token_value_for_css text t) _
                      (λ value. replacing_on _ _ v _ _ _ m)))
            | inr b ↦ rw (e, fallback_action) (rw b tt)
          ]
    ]

    if-All :
        (b : Bool) (first : List CodeAction × List FormatError)
        → All (OnCalls uri M) first.0
        → All (OnCalls uri M) (if b then first else ([], [])).0
    if-All true first f = f
    if-All false first f = tt

    token-All :
        (v : VarCall) (t : Token) (ds : List SentDiagnostic)
        → M v.range
        → All (OnCalls uri M) (token_actions text token_named uri v t ds).0
    unfolding token_actions
    token-All v t ds m =
        then-All
          (if t.deprecated
            then create_deprecated_token_actions text token_named uri v t ds
            else ([], []))
          (made_list (fallback_action text token_named uri v t ds))
          (if-All t.deprecated (create_deprecated_token_actions text token_named uri v t ds)
            (deprecated-All v t ds m))
          (fallback-All v t ds m)

    toggle-All :
        (v : VarCall)
        → M v.range
        → All (OnCalls uri M) (made_list (create_toggle_fallback_action text token_named uri v)).0
    unfolding create_toggle_fallback_action
    toggle-All v m = elim (Option-cases (token_named v.token_name)) [
      | inl e ↦ rw (e, create_toggle_fallback_action) tt
      | inr (t, e) ↦
          rw (e, create_toggle_fallback_action)
            (made-All (toggled text token_named v t) _ (λ value. replacing_on _ _ v _ _ _ m))
    ]

    edits-All :
        (vs : List VarCall)
        → All (λ (v : VarCall). M v.range) vs
        → All (λ (e : TextEdit). M e.range) (toggle_edits text token_named vs).0
    unfolding toggle_edits
    edits-All [] a = tt
    edits-All (v ∷ vs) (m, ms) = elim (Option-cases (token_named v.token_name)) [
      | inl e ↦ rw (e, toggle_edits) (edits-All vs ms)
      | inr (t, e) ↦ elim (Outcome-cases (toggled text token_named v t)) [
        | inl (new_text, o) ↦ rw (e, toggle_edits) (rw o (m, edits-All vs ms))
        | inr (inl (x, o)) ↦ rw (e, toggle_edits) (rw o (edits-All vs ms))
        | inr (inr o) ↦ rw (e, toggle_edits) (rw o (edits-All vs ms))
      ]
    ]

    range-All :
        (edits : List TextEdit) (warnings : List FormatError)
        → All (λ (e : TextEdit). M e.range) edits
        → All (OnCalls uri M) (made_list (toggle_range uri edits, warnings)).0
    unfolding toggle_range
    range-All [] warnings a = tt
    range-All (e ∷ edits) warnings a = ((refl, a), tt)

    toggles-All :
        (vs : List VarCall) (requested : Range)
        → All (λ (v : VarCall). M v.range) vs
        → All (OnCalls uri M) (create_toggle_actions text token_named uri vs requested).0
    unfolding create_toggle_actions create_toggle_range_fallbacks_action
    toggles-All [] requested a = tt
    toggles-All (v ∷ vs) requested (m, ms) = elim (Bool-cases (is_collapsed requested)) [
      | inl b ↦ rw (b, create_toggle_actions) (toggle-All v m)
      | inr b ↦
          rw (b, create_toggle_actions)
            (range-All (toggle_edits text token_named (v ∷ vs)).0
              (toggle_edits text token_named (v ∷ vs)).1 (edits-All (v ∷ vs) (m, ms)))
    ]

    process_one :
        (requested : Range) (ds : List SentDiagnostic) (v : VarCall) (vs : List VarCall)
        → (ranges_intersect requested v.range ≡ true → M v.range)
        → All (OnCalls uri M) (process_var_calls text token_named uri vs requested ds).0.0
        → All
            (λ (w : VarCall). M w.range)
            (process_var_calls text token_named uri vs requested ds).1
        → All (OnCalls uri M) (process_var_calls text token_named uri (v ∷ vs) requested ds).0.0
          × All
              (λ (w : VarCall). M w.range)
              (process_var_calls text token_named uri (v ∷ vs) requested ds).1
    unfolding process_var_calls
    process_one requested ds v vs met actions calls =
        elim (Bool-cases (ranges_intersect requested v.range)) [
          | inr b ↦ rw (b, process_var_calls) (actions, calls)
          | inl b ↦ elim (Option-cases (token_named v.token_name)) [
            | inl e ↦ rw (b, process_var_calls) (rw e (actions, (met b, calls)))
            | inr (t, e) ↦
                rw (b, process_var_calls)
                  (rw e (
                    then-All (token_actions text token_named uri v t ds)
                        (process_var_calls text token_named uri vs requested ds).0
                        (token-All v t ds (met b)) actions,
                    (met b, calls),
                  ))
          ]
        ]

  fixes-OnCalls :
      (ds : List SentDiagnostic)
      → All (OnCalls uri M) (made_list (create_fix_all_action_if_needed uri ds, [])).0
  unfolding create_fix_all_action_if_needed
  fixes-OnCalls ds = elim (Bool-cases (ltb (length ds) 2)) [
    | inl b ↦ rw (b, create_fix_all_action_if_needed) tt
    | inr b ↦ elim (Bool-cases (ltb (count_incorrect ds) 2)) [
      | inl c ↦ rw (b, create_fix_all_action_if_needed) (rw c tt)
      | inr c ↦ rw (b, create_fix_all_action_if_needed) (rw c (tt, tt))
    ]
  ]

on_more :
    (uri : Bytes) (requested : Range) (v : VarCall) (vs : List VarCall)
    (o : Option (Bytes × List TextEdit))
    → EditsWithin uri (Meets requested vs) o
    → EditsWithin uri (Meets requested (v ∷ vs)) o
on_more uri requested v vs none h = tt
on_more uri requested v vs (some (u, edits)) (e, a) = (e, All-map _ _ edits (λ x m. inr m) a)

module _ (text : Text) (token_named : Bytes → Option Token) (uri : Bytes) (requested : Range)
    (ds : List SentDiagnostic) where
  process-All :
      (vs : List VarCall)
      → All
          (OnCalls uri (Meets requested vs))
          (process_var_calls text token_named uri vs requested ds).0.0
        × All
            (λ (v : VarCall). Meets requested vs v.range)
            (process_var_calls text token_named uri vs requested ds).1
  unfolding process_var_calls
  process-All [] = (tt, tt)
  process-All (v ∷ vs) =
      let (actions, calls) = process-All vs in
      process_one uri (Meets requested (v ∷ vs)) text token_named requested ds v vs
        (λ b. inl (b, refl))
        (All-map (OnCalls uri (Meets requested vs)) (OnCalls uri (Meets requested (v ∷ vs)))
          (process_var_calls text token_named uri vs requested ds).0.0
          (λ (a : CodeAction) h. on_more uri requested v vs a.edit h) actions)
        (All-map (λ (w : VarCall). Meets requested vs w.range)
          (λ (w : VarCall). Meets requested (v ∷ vs) w.range)
          (process_var_calls text token_named uri vs requested ds).1 (λ w h. inr h) calls)

  -- Every edit of the actions that are offered is of the document asked for, and replaces exactly
  -- a var() call that the requested range meets.
  pub all_actions-OnCalls :
      (vs : List VarCall)
      → All (OnCalls uri (Meets requested vs)) (all_actions text token_named uri vs requested ds).0
  unfolding all_actions
  all_actions-OnCalls vs =
      let (actions, calls) = process-All vs in
      let processed = process_var_calls text token_named uri vs requested ds in
      let toggles = create_toggle_actions text token_named uri processed.1 requested in
      let fixes = made_list (create_fix_all_action_if_needed uri ds, []) in
      then-All uri (Meets requested vs) processed.0 (and_then toggles fixes) actions (
        then-All uri (Meets requested vs) toggles fixes
          (toggles-All uri (Meets requested vs) text token_named processed.1 requested calls)
          (fixes-OnCalls uri (Meets requested vs) ds))
