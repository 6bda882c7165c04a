-- ===== src/Server/Notifications/Pull.antt =====
-- A server whose client pulls diagnostics does not push any.
use design_tokens_language_s.Prelude.{
  ◌≡◌, refl, ap, ◌∙◌, Bool, true, false, ◌&&◌, ◌||◌, List, [], ◌∷◌, Bool-cases, inl, inr,
  if◌then◌else◌,
}
use design_tokens_language_s.Ints.{ℤ}
use design_tokens_language_s.Outcome.{Outcome-cases}
use design_tokens_language_s.GoString.{Bytes}
use design_tokens_language_s.Json.{Json}
use design_tokens_language_s.Documents
use design_tokens_language_s.Documents.Change.{ContentChange}
use design_tokens_language_s.Documents.Document.{Document}
use design_tokens_language_s.GoString.{ascii, str_eq}
use design_tokens_language_s.Documents.TokenFile.{is_design_tokens_schema, looks_like_dtcg_content}
use design_tokens_language_s.Paths.Uri.{uri_to_path}
use design_tokens_language_s.Server.{Server}
use design_tokens_language_s.Server.Config.{parse_configuration}
use design_tokens_language_s.Server.Environment.{Environment}
use design_tokens_language_s.Server.Files.{is_token_file, remove_loaded_file}
use design_tokens_language_s.Server.Loading.Frame.{
  Keeps, ResolvesInPlace, load_tokens_from_config-Keeps, load_tokens_from_document_content-Keeps,
}
use design_tokens_language_s.Server.Notifications.{
  FileEvent, is_deleted, clear_if, push, push_all, auto_load, did_open, did_change, scan_events,
  reload_and_push, did_change_watched_files, did_change_configuration,
}

abbrev Pulls : Server → Type 0
Pulls s = s.use_pull_diagnostics ≡ true

Keeps-Pulls : {s s' : Server} → Keeps s s' → Pulls s → Pulls s'
Keeps-Pulls k p = ap (λ (x : Server). x.use_pull_diagnostics) k.rest_same ∙ p

clear-Pulls : (b : Bool) (s : Server) → Pulls s → Pulls (clear_if b s)
unfolding clear_if
clear-Pulls true s p = p
clear-Pulls false s p = p

module _ (env : Environment) (in_place : ResolvesInPlace env) where
  push_nothing : (context : Bool) (uri : Bytes) (s : Server) → Pulls s → push env context uri s ≡ []
  unfolding push
  push_nothing context uri s p = rw p refl

  push_all_nothing :
      (context : Bool) (docs : List Document) (s : Server)
      → Pulls s
      → push_all env context docs s ≡ []
  unfolding push_all
  push_all_nothing context [] s p = refl
  push_all_nothing context (doc ∷ docs) s p =
      rw (push_nothing context doc.uri s p) (push_all_nothing context docs s p)

  auto_load-Pulls :
      (uri language_id content : Bytes) (s : Server)
      → Pulls s
      → Pulls (auto_load env uri language_id content s)
  unfolding auto_load
  auto_load-Pulls uri language_id content s p =
      elim (Bool-cases (
        (str_eq language_id (ascii "json") || str_eq language_id (ascii "yaml"))
        && (is_design_tokens_schema env.unmarshal content
            || looks_like_dtcg_content env.unmarshal content))) [
              | inl b ↦ rw b (
                  Keeps-Pulls
                    (load_tokens_from_document_content-Keeps env in_place uri language_id content s)
                    p)
              | inr b ↦ rw b p
            ]

  open_nothing :
      (uri language_id content : Bytes) (version : ℤ) (s : Server)
      → Pulls s
      → (did_open env uri language_id version content s).2 ≡ []
  unfolding did_open Documents.Manager.did_open
  open_nothing uri language_id content version s p =
      push_nothing _ uri _ (auto_load-Pulls uri language_id content _ p)

  change_nothing :
      (uri : Bytes) (version : ℤ) (changes : List ContentChange) (s : Server)
      → Pulls s
      → (did_change env uri version changes s).2 ≡ []
  unfolding did_change
  change_nothing uri version changes s p =
      elim (Outcome-cases (Documents.Manager.did_change uri version changes s.documents).0) [
        | inl (u, e) ↦ rw (e, did_change) (push_nothing _ uri _ p)
        | inr (inl (x, e)) ↦ rw (e, did_change) refl
        | inr (inr e) ↦ rw (e, did_change) refl
      ]

  removed-Pulls :
      (path : Bytes) (b : Bool) (s : Server)
      → Pulls s
      → Pulls (if b then remove_loaded_file env.files path s else s)
  unfolding remove_loaded_file
  removed-Pulls path true s p = p
  removed-Pulls path false s p = p

  scan-Pulls :
      (changes : List FileEvent) (s : Server) → Pulls s → Pulls (scan_events env changes s).1
  unfolding scan_events
  scan-Pulls [] s p = p
  scan-Pulls (change ∷ changes) s p =
      elim (Bool-cases (is_token_file env.files (uri_to_path env.go change.uri) s)) [
        | inl b ↦ rw b (
            scan-Pulls changes _
              (removed-Pulls (uri_to_path env.go change.uri) (is_deleted change.type) s p))
        | inr b ↦ rw b (scan-Pulls changes s p)
      ]

  reload_nothing : (context : Bool) (s : Server) → Pulls s → (reload_and_push env context s).1 ≡ []
  unfolding reload_and_push
  reload_nothing context s p =
      push_all_nothing context _ _ (Keeps-Pulls (load_tokens_from_config-Keeps env in_place s) p)

  watched_nothing :
      (changes : List FileEvent) (s : Server)
      → Pulls s
      → (did_change_watched_files env changes s).2 ≡ []
  unfolding did_change_watched_files
  watched_nothing changes s p = elim (Bool-cases (scan_events env changes s).0.0) [
    | inl b ↦ rw b (
        reload_nothing _ _ (clear-Pulls (scan_events env changes s).0.1 _ (scan-Pulls changes s p)))
    | inr b ↦ rw b refl
  ]

  configured_nothing :
      (context : Bool) (settings : Json) (s : Server)
      → Pulls s
      → (did_change_configuration env context settings s).2 ≡ []
  unfolding did_change_configuration
  configured_nothing context settings s p =
      elim (Outcome-cases (parse_configuration env settings)) [
        | inl (config, e) ↦ rw (e, did_change_configuration) (reload_nothing context _ p)
        | inr (inl (x, e)) ↦ rw (e, did_change_configuration) refl
        | inr (inr e) ↦ rw (e, did_change_configuration) refl
      ]

  -- If resolving aliases neither renames tokens nor moves them to another file, then a server
  -- whose client pulls diagnostics sends none when a document is opened or changed, when watched
  -- files change, or when the settings do.
  pub pull_sends_nothing :
      (s : Server) (uri language_id content : Bytes) (version : ℤ) (changes : List ContentChange)
      (events : List FileEvent) (context : Bool) (settings : Json)
      → s.use_pull_diagnostics ≡ true
      → ((did_open env uri language_id version content s).2 ≡ [])
        × ((did_change env uri version changes s).2 ≡ [])
        × ((did_change_watched_files env events s).2 ≡ [])
        × ((did_change_configuration env context settings s).2 ≡ [])
  pull_sends_nothing s uri language_id content version changes events context settings p = (
    open_nothing uri language_id content version s p,
    change_nothing uri version changes s p,
    watched_nothing events s p,
    configured_nothing context settings s p,
  )
