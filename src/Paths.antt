-- ===== src/Paths.antt =====
-- Paths and URIs. What packages path/filepath, net/url and os return is a parameter.
pub mod Npm
pub mod Uri
use design_tokens_language_s.Prelude.{Bool, Option}
use design_tokens_language_s.GoString.{Bytes}

-- Package path/filepath: the extension, the cleaned path, the test for an absolute path, the joined
-- path, and the conversion of separators.
pub record FilePath : Type 0 where
  pub ext : Bytes → Bytes
  pub clean : Bytes → Bytes
  pub is_abs : Bytes → Bool
  pub join : Bytes → Bytes → Bytes
  pub to_slash : Bytes → Bytes
  pub from_slash : Bytes → Bytes
