-- ===== src/Server/Config/Merge.antt =====
-- What merging the configuration of package.json does to the client's.
use design_tokens_language_s.Prelude.{◌≡◌, ◌≢◌, ◌⊎◌, Bool, true, none, List, []}
use design_tokens_language_s.Ints.{pos}
use design_tokens_language_s.GoString.{Bytes}
use design_tokens_language_s.Server.{ServerConfig}
use design_tokens_language_s.Server.Config.{merge_package_json_config}

module _ (first second third : ServerConfig) where
  abbrev left : ServerConfig
  left = merge_package_json_config (merge_package_json_config first second) third

  abbrev right : ServerConfig
  right = merge_package_json_config first (merge_package_json_config second third)

-- A setting that the client makes is the client's; one that only package.json makes is that of
-- package.json; one that neither makes stays as it is.
abbrev pub Chooses : {A : Type 0} → (A → Type 0) → A → A → A → Type 0
Chooses Made client other out =
    (Made client × (out ≡ client))
    ⊎ ((¬ Made client × Made other × (out ≡ other))
        ⊎ (¬ Made client × ¬ Made other × (out ≡ client)))

-- The markers, and whether they are given.
abbrev pub markers : ServerConfig → List Bytes × Bool
markers cfg = (cfg.group_markers, cfg.group_markers_set)

-- What each setting of a merged configuration is.
pub record IsMerged (client other out : ServerConfig) : Type 0 where
  pub prefixes : Chooses (λ p. p ≢ []) client.prefix other.prefix out.prefix
  pub group_markers : Chooses (λ m. m.1 ≡ true) (markers client) (markers other) (markers out)
  pub tokens_files : Chooses (λ f. f ≢ none) client.tokens_files other.tokens_files out.tokens_files
  pub resolvers : Chooses (λ r. r ≢ none) client.resolvers other.resolvers out.resolvers
  pub fallbacks :
      Chooses (λ b. b ≡ true) client.network_fallback other.network_fallback out.network_fallback
  pub timeouts :
      Chooses (λ t. t ≢ pos 0) client.network_timeout other.network_timeout out.network_timeout
  pub cdns : Chooses (λ c. c ≢ []) client.cdn other.cdn out.cdn

module _ (client other : ServerConfig) where
  abbrev merged : ServerConfig
  merged = merge_package_json_config client other
