-- ===== src/Schema.antt =====
-- internal/schema/version.go: the versions that it passes on.
use mathlib.Core.Path.{◌≡◌}
use mathlib.Core.Bool.{Bool, true, false}
use mathlib.Core.Logic.{◌↔◌}
use native.Mathlib.Omega.{arith}

pub data SchemaVersion : Type 0 where
  unknown draft v2025_10 : SchemaVersion

unfoldable pub version_eq : SchemaVersion → SchemaVersion → Bool
version_eq unknown unknown = true
version_eq draft draft = true
version_eq v2025_10 v2025_10 = true
version_eq _ _ = false

pub version_eq_iff : (a b : SchemaVersion) → (version_eq a b ≡ true) ↔ (a ≡ b)
unfolding version_eq
version_eq_iff a b = ground arith
