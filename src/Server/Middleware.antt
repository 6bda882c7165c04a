-- ===== src/Server/Middleware.antt =====
-- lsp/middleware.go and lsp/types/request_context.go: the wrapper around every handler. `notify` and
-- `noParam` differ from `method` in the types of the handler only.
pub mod Recovery
use design_tokens_language_s.Prelude.{
  ℕ, Bool, true, false, Option, none, some, List, [], ◌∷◌, ◌++◌, ◌==◌, ltb, length, map,
  if◌then◌else◌,
}
use design_tokens_language_s.Outcome.{Outcome, ok, err, panicked}
use design_tokens_language_s.GoString.{Bytes}

-- RequestContext, with the server's state
pub record RequestContext {ℓ κ} (S : Type ℓ) (E : Type κ) : Type (ℓ ⊔ κ) where
  pub server : S
  pub warnings : List E

-- NewRequestContext
abbrev pub new_request_context {ℓ κ} : {S : Type ℓ} {E : Type κ} → S → RequestContext S E
new_request_context s = record { server = s; warnings = [] }

-- AddWarning: `none` stands for nil
unfoldable pub add_warning {ℓ κ} :
    {S : Type ℓ} {E : Type κ} → Option E → RequestContext S E → RequestContext S E
add_warning none r = r
add_warning (some e) r = record r { warnings = r.warnings ++ e ∷ [] }

-- HasWarnings
unfoldable pub has_warnings {ℓ κ} : {S : Type ℓ} {E : Type κ} → RequestContext S E → Bool
has_warnings r = ltb 0 (length r.warnings)

-- An error with the method's name in front, or the one of a panic.
pub data MethodError {ℓ} (E : Type ℓ) : Type ℓ where
  internal_error_in : Bytes → MethodError E
  error_in : Bytes → E → MethodError E

-- A message that is logged to the client.
pub data LogMessage {ℓ} (E : Type ℓ) : Type ℓ where
  panic_message : Bytes → LogMessage E
  error_message : Bytes → E → LogMessage E
  warning_message : Bytes → E → LogMessage E

-- the warnings are logged if there are any
unfoldable pub log_warnings {ℓ κ} :
    {S : Type ℓ} {E : Type κ} → Bytes → RequestContext S E → List (LogMessage E)
log_warnings name r = if has_warnings r then map (λ w. warning_message name w) r.warnings else []

module _ {ℓ κ μ} {S : Type ℓ} {E : Type κ} {R : Type μ} where
  -- method: what is returned, the server, and what is logged to the client
  unfoldable pub method :
      Bytes
      → (RequestContext S E → Outcome E R × RequestContext S E)
      → S
      → Outcome (MethodError E) R × S × List (LogMessage E)
  method name handler s =
      let (result, r) = handler (new_request_context s) in
      elim result [
        | panicked ↦ (err (internal_error_in name), r.server, panic_message name ∷ [])
        | err e ↦ (err (error_in name e), r.server, error_message name e ∷ [])
        | ok x ↦ (ok x, r.server, log_warnings name r)
      ]
