-- ===== src/Tokens/Files.antt =====
-- Tokens by source file: removing a file's tokens, and the schema version of a file.
use mathlib.Core.Path.{subst}
use mathlib.Core.List.{cons-ne-nil}
use design_tokens_language_s.Prelude.{
  ◌+◌, ◌≡◌, ◌≢◌, ◌⊎◌, ◌↔◌, inl, inr, refl, ap, sym, ◌∙◌, true, false, List, [], ◌∷◌, arith,
  Bool-cases, none, some, length, All,
}
use design_tokens_language_s.GoString.{Bytes, str_eq}
use design_tokens_language_s.GoString.Laws.{str_eq_iff}
use design_tokens_language_s.Schema.{SchemaVersion, unknown, version_eq_iff}
use design_tokens_language_s.Tokens.{
  Token, Manager, count, get_by_source_file, remove_by_source_file, version_loop,
  get_schema_version_for_file,
}

-- RemoveBySourceFile removes all tokens of the file and returns how many there were; the tokens
-- of another file stay as they are, in their order.
pub remove_by_source_file_lem :
    (file other : Bytes) (m : Manager)
    → str_eq other file ≡ false
    → ((remove_by_source_file file m).0 ≡ length (get_by_source_file file m))
      × (get_by_source_file file (remove_by_source_file file m).1 ≡ [])
      × (get_by_source_file other (remove_by_source_file file m).1 ≡ get_by_source_file other m)
      × (count m ≡ (remove_by_source_file file m).0 + count (remove_by_source_file file m).1)
unfolding remove_by_source_file get_by_source_file count
remove_by_source_file_lem file other [] h = (refl, refl, refl, omega arith)
remove_by_source_file_lem file other ((key, t) ∷ m) h =
    let (a, b, c, d) = remove_by_source_file_lem file other m h in
    ground (arith, str_eq_iff t.file_path file, str_eq_iff t.file_path other, str_eq_iff other file)

-- The versions of a list of tokens are all this one.
abbrev pub AllOf : SchemaVersion → List Token → Type 0
AllOf v = All (λ t. t.schema_version ≡ v)

version_loop_found :
    (file : Bytes) (v : SchemaVersion) (m : Manager)
    → ((version_loop file m (some v) ≡ v) × AllOf v (get_by_source_file file m))
      ⊎ (version_loop file m (some v) ≡ unknown)
unfolding version_loop get_by_source_file
version_loop_found file v [] = inl (refl, tt)
version_loop_found file v ((key, t) ∷ m) =
    ground (arith, version_loop_found file v m, version_eq_iff t.schema_version v)

version_loop_all :
    (file : Bytes) (v : SchemaVersion) (m : Manager)
    → AllOf v (get_by_source_file file m)
    → version_loop file m (some v) ≡ v
unfolding version_loop get_by_source_file
version_loop_all file v [] h = refl
version_loop_all file v ((key, t) ∷ m) h =
    ground (arith, version_loop_all file v m, version_eq_iff t.schema_version v)

-- A file's tokens: some, and all of this version.
abbrev pub IsVersionOf : Bytes → Manager → SchemaVersion → Type 0
IsVersionOf file m v = (get_by_source_file file m ≢ []) × AllOf v (get_by_source_file file m)

all_cons :
    (v : SchemaVersion) (t : Token) (ts : List Token)
    → AllOf v (t ∷ ts)
    → (t.schema_version ≡ v) × AllOf v ts
all_cons v t ts h = h

module _ (file key : Bytes) (t : Token) (m : Manager) where
  of_file :
      str_eq t.file_path file ≡ true
      → get_by_source_file file ((key, t) ∷ m) ≡ t ∷ get_by_source_file file m
  unfolding get_by_source_file
  of_file s = ground arith

  not_of_file :
      str_eq t.file_path file ≡ false
      → get_by_source_file file ((key, t) ∷ m) ≡ get_by_source_file file m
  unfolding get_by_source_file
  not_of_file s = ground arith

  loop_of_file :
      str_eq t.file_path file ≡ true
      → version_loop file ((key, t) ∷ m) none ≡ version_loop file m (some t.schema_version)
  unfolding version_loop
  loop_of_file s = ground arith

  loop_not_of_file :
      str_eq t.file_path file ≡ false
      → version_loop file ((key, t) ∷ m) none ≡ version_loop file m none
  unfolding version_loop
  loop_not_of_file s = ground arith

version_found :
    (file : Bytes) (v : SchemaVersion) (m : Manager)
    → v ≢ unknown
    → version_loop file m none ≡ v
    → IsVersionOf file m v
version_found file v [] h e = absurd (h (unfold version_loop in sym e))
version_found file v ((key, t) ∷ m) h e = elim (Bool-cases (str_eq t.file_path file)) [
  | inr s ↦
      rw (not_of_file file key t m s)
        (version_found file v m h (sym (loop_not_of_file file key t m s) ∙ e))
  | inl s ↦
      let found = sym (loop_of_file file key t m s) ∙ e in
      elim (version_loop_found file t.schema_version m) [
        | inr u ↦ absurd (h (sym found ∙ u))
        | inl (x, all) ↦
            let same : t.schema_version ≡ v = sym x ∙ found in
            rw (of_file file key t m s) (
              cons-ne-nil t (get_by_source_file file m),
              (same, subst (λ w. AllOf w (get_by_source_file file m)) same all),
            )
      ]
]

version_all :
    (file : Bytes) (v : SchemaVersion) (m : Manager)
    → get_by_source_file file m ≢ []
    → AllOf v (get_by_source_file file m)
    → version_loop file m none ≡ v
version_all file v [] h a = absurd (h (unfold get_by_source_file in refl))
version_all file v ((key, t) ∷ m) h a = elim (Bool-cases (str_eq t.file_path file)) [
  | inr s ↦
      loop_not_of_file file key t m s
      ∙ version_all file v m (rw (not_of_file file key t m s) at h)
          (rw (not_of_file file key t m s) at a)
  | inl s ↦
      let (same, all) =
        all_cons v t (get_by_source_file file m) (rw (of_file file key t m s) at a) in
      loop_of_file file key t m s
      ∙ ap (λ w. version_loop file m (some w)) same
      ∙ version_loop_all file v m all
]

-- A known version is returned for a file exactly if the file has tokens and all of them have this
-- version.
pub get_schema_version_for_file_iff :
    (file : Bytes) (v : SchemaVersion) (m : Manager)
    → v ≢ unknown
    → (get_schema_version_for_file file m ≡ v) ↔ IsVersionOf file m v
unfolding get_schema_version_for_file
get_schema_version_for_file_iff file v m h =
    (version_found file v m h, λ p. version_all file v m p.0 p.1)
