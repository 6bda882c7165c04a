-- ===== src/GoMap.antt =====
-- A Go map with string keys, as an association list. Go iterates in an unspecified order: here it is
-- the order of the list, and statements range over every list. `m[k] = v` replaces an entry where it
-- stands.
pub mod Laws
use design_tokens_language_s.Prelude.{◌≡◌, false, Option, none, some, List, [], ◌∷◌, if◌then◌else◌}
use design_tokens_language_s.GoString.{Bytes, str_eq}

abbrev pub GoMap {ℓ} : Type ℓ → Type ℓ
GoMap V = List (Bytes × V)

module _ {ℓ} {V : Type ℓ} where
  -- m[k]: `none` stands for a missing key
  unfoldable pub lookup : Bytes → GoMap V → Option V
  lookup sought [] = none
  lookup sought ((key, held) ∷ rest) = if str_eq key sought then some held else lookup sought rest

  -- m[k] = v
  unfoldable pub insert : Bytes → V → GoMap V → GoMap V
  insert new value [] = (new, value) ∷ []
  insert new value ((key, held) ∷ rest) =
      if str_eq key new then (new, value) ∷ rest else (key, held) ∷ insert new value rest

  -- delete(m, k)
  unfoldable pub delete : Bytes → GoMap V → GoMap V
  delete k [] = []
  delete k ((j, v) ∷ m) = let rest = delete k m in if str_eq j k then rest else (j, v) ∷ rest

  -- the keys of the map are different from one another
  abbrev pub Fresh : Bytes → GoMap V → Type 0
  Fresh k [] = Unit
  Fresh k ((j, v) ∷ m) = (str_eq j k ≡ false) × Fresh k m

  abbrev pub IsMap : GoMap V → Type 0
  IsMap [] = Unit
  IsMap ((k, v) ∷ m) = Fresh k m × IsMap m
