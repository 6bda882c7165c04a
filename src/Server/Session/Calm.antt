-- ===== src/Server/Session/Calm.antt =====
-- The steps that leave the documents and the cached tokens alone.
use design_tokens_language_s.Prelude.{
  ◌≡◌, refl, ap, ◌∙◌, Bool, true, false, ◌&&◌, ◌||◌, none, some, List, [], ◌∷◌, Bool-cases,
  Option-cases, inl, inr, if◌then◌else◌,
}
use design_tokens_language_s.Outcome.{Outcome-cases}
use design_tokens_language_s.GoString.{Bytes, ascii, str_eq}
use design_tokens_language_s.Json.{Json}
use design_tokens_language_s.Tokens.Store.{IsKeyed}
use design_tokens_language_s.Documents.TokenFile.{is_design_tokens_schema, looks_like_dtcg_content}
use design_tokens_language_s.Paths.Uri.{uri_to_path}
use design_tokens_language_s.Server.{Server}
use design_tokens_language_s.Server.Config.{load_package_json_config, parse_configuration}
use design_tokens_language_s.Server.Environment.{Environment}
use design_tokens_language_s.Server.Files.{is_token_file, remove_loaded_file}
use design_tokens_language_s.Server.Loading.Frame.{
  Keeps, cleared, ResolvesInPlace, load_tokens_from_config-Keeps,
  load_tokens_from_document_content-Keeps,
}
use design_tokens_language_s.Server.Notifications.{
  FileEvent, InitializeParams, is_deleted, clear_if, auto_load, scan_events, reload_and_push,
  did_change_watched_files, did_change_configuration, set_root, initialize, initialized,
}

-- The documents and the cache are the same, and the tokens are still under their keys.
pub record Calm (s s' : Server) : Type 0 where
  pub documents_same : s'.documents ≡ s.documents
  pub cache_same : s'.token_cache ≡ s.token_cache
  pub keyed : IsKeyed s.tokens → IsKeyed s'.tokens

Calm-refl : (s : Server) → Calm s s
Calm-refl s = record { documents_same = refl; cache_same = refl; keyed = λ k. k }

Calm-trans : {s t u : Server} → Calm s t → Calm t u → Calm s u
Calm-trans {s} {t} {u} c d = record {
  documents_same = d.documents_same ∙ c.documents_same;
  cache_same = d.cache_same ∙ c.cache_same;
  keyed = λ k. d.keyed (c.keyed k);
}

Calm-Keeps : {s s' : Server} → Keeps s s' → Calm s s'
Calm-Keeps {s} {s'} k = record {
  documents_same = ap (λ (x : Server). x.documents) k.rest_same;
  cache_same = ap (λ (x : Server). x.token_cache) k.rest_same;
  keyed = k.keyed;
}

-- Nothing but other fields differ.
Calm-same :
    {s s' : Server}
    → s'.documents ≡ s.documents
    → s'.token_cache ≡ s.token_cache
    → s'.tokens ≡ s.tokens
    → Calm s s'
Calm-same {s} {s'} d c t = record { documents_same = d; cache_same = c; keyed = λ k. rw t k }

module _ (env : Environment) (in_place : ResolvesInPlace env) where
  pub auto_load-Calm :
      (uri language_id content : Bytes) (s : Server)
      → Calm s (auto_load env uri language_id content s)
  unfolding auto_load
  auto_load-Calm uri language_id content s =
      elim (Bool-cases (
        (str_eq language_id (ascii "json") || str_eq language_id (ascii "yaml"))
        && (is_design_tokens_schema env.unmarshal content
            || looks_like_dtcg_content env.unmarshal content))) [
              | inl b ↦ rw b (
                  Calm-Keeps (
                    load_tokens_from_document_content-Keeps env in_place uri language_id content s))
              | inr b ↦ rw b (Calm-refl s)
            ]

  removed-Calm :
      (path : Bytes) (b : Bool) (s : Server)
      → Calm s (if b then remove_loaded_file env.files path s else s)
  unfolding remove_loaded_file
  removed-Calm path true s = Calm-same refl refl refl
  removed-Calm path false s = Calm-refl s

  scan-Calm : (changes : List FileEvent) (s : Server) → Calm s (scan_events env changes s).1
  unfolding scan_events
  scan-Calm [] s = Calm-refl s
  scan-Calm (change ∷ changes) s =
      elim (Bool-cases (is_token_file env.files (uri_to_path env.go change.uri) s)) [
        | inl b ↦ rw b (
            Calm-trans (removed-Calm (uri_to_path env.go change.uri) (is_deleted change.type) s)
              (scan-Calm changes _))
        | inr b ↦ rw b (scan-Calm changes s)
      ]

  reload-Calm : (context : Bool) (s : Server) → Calm s (reload_and_push env context s).0
  unfolding reload_and_push
  reload-Calm context s = Calm-Keeps (load_tokens_from_config-Keeps env in_place s)

  clear-Calm : (b : Bool) (s : Server) → Calm s (clear_if b s)
  unfolding clear_if
  clear-Calm true s = Calm-Keeps (cleared s)
  clear-Calm false s = Calm-refl s

  pub did_change_watched_files-Calm :
      (changes : List FileEvent) (s : Server) → Calm s (did_change_watched_files env changes s).1
  unfolding did_change_watched_files
  did_change_watched_files-Calm changes s =
      let scanned = scan-Calm changes s in
      elim (Bool-cases (scan_events env changes s).0.0) [
        | inl b ↦ rw b (
            Calm-trans scanned
              (Calm-trans (clear-Calm (scan_events env changes s).0.1 _) (reload-Calm _ _)))
        | inr b ↦ rw b scanned
      ]

  pub did_change_configuration-Calm :
      (context : Bool) (settings : Json) (s : Server)
      → Calm s (did_change_configuration env context settings s).1
  unfolding did_change_configuration
  did_change_configuration-Calm context settings s =
      elim (Outcome-cases (parse_configuration env settings)) [
        | inl (config, e) ↦
            rw (e, did_change_configuration)
              (Calm-trans (Calm-same refl refl refl) (reload-Calm context _))
        | inr (inl (x, e)) ↦ rw (e, did_change_configuration) (Calm-refl s)
        | inr (inr e) ↦ rw (e, did_change_configuration) (Calm-refl s)
      ]

  set_root-Calm : (params : InitializeParams) (s : Server) → Calm s (set_root env params s)
  unfolding set_root
  set_root-Calm params s = elim (Option-cases params.root_uri) [
    | inr (uri, e) ↦ rw (e, set_root) (Calm-same refl refl refl)
    | inl e ↦
        rw (e, set_root)
          (elim (Option-cases params.root_path) [
            | inr (path, f) ↦ rw f (Calm-same refl refl refl)
            | inl f ↦ rw f (Calm-refl s)
          ])
  ]

  pub initialize-Calm :
      (pulls : Bool) (params : InitializeParams) (s : Server)
      → Calm s (initialize env params (record s { client_diagnostic_capability = some pulls })).1
  unfolding initialize
  initialize-Calm pulls params s = Calm-trans (Calm-same refl refl refl) (set_root-Calm params _)

  package-Calm : (s : Server) → Calm s (load_package_json_config env s).1
  unfolding load_package_json_config
  package-Calm s = elim (Bool-cases (str_eq s.root_path [])) [
    | inl b ↦ rw b (Calm-refl s)
    | inr b ↦ rw b (elim (Option-cases (env.package_json_config s.root_path)) [
      | inl e ↦ rw e (Calm-refl s)
      | inr (none, e) ↦ rw e (Calm-refl s)
      | inr (some pkg, e) ↦ rw e (Calm-same refl refl refl)
    ])
  ]

  pub initialized-Calm : (context : Bool) (s : Server) → Calm s (initialized env context s).1
  unfolding initialized
  initialized-Calm context s =
      Calm-trans {t = record s { has_context = context }} (Calm-same refl refl refl) (
        Calm-trans (package-Calm (record s { has_context = context }))
          (Calm-Keeps (load_tokens_from_config-Keeps env in_place _)))
