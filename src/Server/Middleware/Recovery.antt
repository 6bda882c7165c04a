-- ===== src/Server/Middleware/Recovery.antt =====
-- What a wrapped handler returns, and what is logged.
use design_tokens_language_s.Prelude.{◌≡◌, ◌≢◌, ◌⊎◌, refl, List, [], ◌∷◌, map, inl, inr, arith}
use design_tokens_language_s.Outcome.{Outcome, ok, err, panicked, Outcome-cases}
use design_tokens_language_s.GoString.{Bytes}
use design_tokens_language_s.Server.Middleware.{
  RequestContext, new_request_context, has_warnings, MethodError, internal_error_in, error_in,
  LogMessage, panic_message, error_message, warning_message, log_warnings, method,
}

module _ {ℓ κ} {S : Type ℓ} {E : Type κ} where
  log_each :
      (name : Bytes) (server : S) (warnings : List E)
      → log_warnings name (record { server = server; warnings = warnings })
        ≡ map (λ w. warning_message name w) warnings
  unfolding log_warnings has_warnings
  log_each name server [] = refl
  log_each name server (w ∷ ws) = ground arith

  log_warnings_lem :
      (name : Bytes) (r : RequestContext S E)
      → log_warnings name r ≡ map (λ w. warning_message name w) r.warnings
  log_warnings_lem name r = log_each name r.server r.warnings

module _ {ℓ κ μ} {S : Type ℓ} {E : Type κ} {R : Type μ} where
  -- The handler's result x is returned, and its warnings are logged.
  abbrev pub Succeeds :
      Bytes
      → Outcome E R × RequestContext S E
      → Outcome (MethodError E) R × S × List (LogMessage E)
      → Type (κ ⊔ μ)
  Succeeds name ran called =
      (x : R) × (ran.0 ≡ ok x)
      × (called.0 ≡ ok x)
      × (called.2 ≡ map (λ w. warning_message name w) ran.1.warnings)

  -- The handler fails, an error with the method's name is returned, and one message is logged.
  abbrev pub Fails :
      Bytes
      → Outcome E R × RequestContext S E
      → Outcome (MethodError E) R × S × List (LogMessage E)
      → Type (κ ⊔ μ)
  Fails name ran called =
      ((ran.0 ≡ panicked)
        × (called.0 ≡ err (internal_error_in name))
        × (called.2 ≡ panic_message name ∷ []))
      ⊎ ((e : E) × (ran.0 ≡ err e)
          × (called.0 ≡ err (error_in name e))
          × (called.2 ≡ error_message name e ∷ []))

  -- A wrapped handler never panics, and leaves the server as the handler does. Either the
  -- handler's result is returned and its warnings are logged, or the handler fails or panics, an
  -- error with the method's name is returned and exactly one message is logged.
  pub method_lem :
      (name : Bytes) (handler : RequestContext S E → Outcome E R × RequestContext S E) (s : S)
      → ((method name handler s).0 ≢ panicked)
        × ((method name handler s).1 ≡ (handler (new_request_context s)).1.server)
        × (Succeeds name (handler (new_request_context s)) (method name handler s)
            ⊎ Fails name (handler (new_request_context s)) (method name handler s))
  unfolding method
  method_lem name handler s = elim (Outcome-cases (handler (new_request_context s)).0) [
    | inl (x, e) ↦ rw (e, method) ((λ h. cc), refl, inl (x, refl, refl, log_warnings_lem name _))
    | inr (inl (x, e)) ↦ rw (e, method) ((λ h. cc), refl, inr (inr (x, refl, refl, refl)))
    | inr (inr e) ↦ rw (e, method) ((λ h. cc), refl, inr (inl (refl, refl, refl)))
  ]
