-- ===== src/Server/Loading/Reload.antt =====
-- Which tokens and files a load leads to.
use design_tokens_language_s.Prelude.{
  ◌≡◌, ◌≢◌, ◌⊎◌, refl, true, false, ◌||◌, List, [], ◌∷◌, Bool-cases, inl, inr, arith,
}
use design_tokens_language_s.GoString.{Bytes}
use design_tokens_language_s.GoString.Laws.{str_eq_refl}
use design_tokens_language_s.GoMap.{GoMap, lookup}
use design_tokens_language_s.GoMap.Laws.{lookup-insert}
use design_tokens_language_s.Tokens
use design_tokens_language_s.Tokens.{clear}
use design_tokens_language_s.Documents.TokenFile.{present}
use design_tokens_language_s.Server.{TokenFileOptions, Server}
use design_tokens_language_s.Server.Environment.{Environment}
use design_tokens_language_s.Server.Files.{has_token_extension, is_token_file}
use design_tokens_language_s.Server.Loading.{
  LoadError, track, load_token_file_internal, load_token_file_with_options,
  reload_previously_loaded_files, load_tokens_from_config, reload_if_loaded,
}

module _ (env : Environment) where
  -- The configuration names files, or files were loaded before.
  abbrev pub HasSources : Server → Type 0
  HasSources s =
      (present s.config.tokens_files ≡ true)
      ⊎ ((present s.config.resolvers ≡ true) ⊎ (s.loaded_files ≢ []))

  only_loaded :
      (s : Server)
      → present s.config.tokens_files || present s.config.resolvers ≡ false
      → HasSources s
      → s.loaded_files ≢ []
  only_loaded s b (inl t) = ground arith
  only_loaded s b (inr (inl r)) = ground arith
  only_loaded s b (inr (inr l)) = l

  reload_fresh :
      (loaded : GoMap TokenFileOptions) (s : Server) (held : Tokens.Manager)
      → loaded ≢ []
      → reload_if_loaded env loaded (record s { tokens = held }) ≡ reload_if_loaded env loaded s
  unfolding reload_if_loaded reload_previously_loaded_files clear
  reload_fresh [] s held h = absurd (h refl)
  reload_fresh (e ∷ loaded) s held h = refl

  -- If the configuration names files or resolvers, or files were loaded before, then loading
  -- gives the same errors and the same server whatever tokens were held: no token survives a
  -- reload.
  pub load_tokens_from_config_fresh :
      (s : Server) (held : Tokens.Manager)
      → HasSources s
      → load_tokens_from_config env (record s { tokens = held }) ≡ load_tokens_from_config env s
  unfolding load_tokens_from_config clear
  load_tokens_from_config_fresh s held h =
      elim (Bool-cases (present s.config.tokens_files || present s.config.resolvers)) [
        | inl b ↦ rw b refl
        | inr b ↦ rw b (reload_fresh s.loaded_files s held (only_loaded s b h))
      ]

  track-present :
      (path : Bytes) (opts : TokenFileOptions) (errors : List LoadError) (s : Server)
      → errors ≡ []
      → present (lookup path (track path opts errors s).loaded_files) ≡ true
  unfolding track
  track-present path opts [] s h = rw (lookup-insert, str_eq_refl path) refl
  track-present path opts (e ∷ errors) s h = cc

  -- A file that is loaded without an error, and whose extension IsTokenFile knows, is a token
  -- file in the server that the load leaves.
  pub load_token_file_tracked :
      (path : Bytes) (opts : TokenFileOptions) (s : Server)
      → (load_token_file_with_options env path opts s).0 ≡ []
      → has_token_extension (env.files.ext path) ≡ true
      → is_token_file env.files path (load_token_file_with_options env path opts s).1 ≡ true
  unfolding load_token_file_with_options is_token_file
  load_token_file_tracked path opts s h x = rw x (
      rw
        (track-present (env.files.clean path) opts _ (load_token_file_internal env path opts s).1 h)
        refl)
