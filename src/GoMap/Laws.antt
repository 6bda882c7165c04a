-- ===== src/GoMap/Laws.antt =====
-- Laws of the map operations.
use design_tokens_language_s.Prelude.{
  suc, ◌≡◌, refl, false, none, some, [], ◌∷◌, arith, length, Bool-cases, inl, inr, if◌then◌else◌,
}
use design_tokens_language_s.GoString.{Bytes, str_eq}
use design_tokens_language_s.GoString.Laws.{str_eq_iff, str_eq_comm}
use design_tokens_language_s.GoMap.{GoMap, lookup, insert, delete, Fresh, IsMap}

module _ {ℓ} {V : Type ℓ} where
  -- What m[key] is after m[new] = value.
  pub lookup-insert :
      (new key : Bytes) (value : V) (entries : GoMap V)
      → lookup key (insert new value entries)
        ≡ (if str_eq new key then some value else lookup key entries)
  unfolding lookup insert
  lookup-insert new key value [] = refl
  lookup-insert new key value ((other, held) ∷ rest) = ground (
    arith,
    lookup-insert new key value rest,
    str_eq_iff other new,
    str_eq_iff other key,
    str_eq_iff new key,
  )

  pub lookup-delete :
      (k j : Bytes) (m : GoMap V)
      → lookup j (delete k m) ≡ (if str_eq k j then none else lookup j m)
  unfolding lookup delete
  lookup-delete k j [] = ground arith
  lookup-delete k j ((i, w) ∷ m) =
      ground (arith, lookup-delete k j m, str_eq_iff i j, str_eq_iff i k, str_eq_iff k j)

  pub Fresh-insert :
      (k j : Bytes) (v : V) (m : GoMap V) → str_eq k j ≡ false → Fresh j m → Fresh j (insert k v m)
  unfolding insert
  Fresh-insert k j v [] h f = (h, tt)
  Fresh-insert k j v ((i, w) ∷ m) h f = elim (Bool-cases (str_eq i k)) [
    | inl e ↦ rw e (h, f.1)
    | inr e ↦ rw e (f.0, Fresh-insert k j v m h f.1)
  ]

  pub insert-IsMap : (k : Bytes) (v : V) (m : GoMap V) → IsMap m → IsMap (insert k v m)
  unfolding insert
  insert-IsMap k v [] h = (tt, tt)
  insert-IsMap k v ((i, w) ∷ m) h = elim (Bool-cases (str_eq i k)) [
    | inl e ↦ rw e (rw (← (str_eq_iff i k).0 e) h)
    | inr e ↦ rw e (Fresh-insert k i v m (rw (str_eq_comm k i) e) h.0, insert-IsMap k v m h.1)
  ]

  pub Fresh-delete : (k j : Bytes) (m : GoMap V) → Fresh j m → Fresh j (delete k m)
  unfolding delete
  Fresh-delete k j [] f = tt
  Fresh-delete k j ((i, w) ∷ m) f = elim (Bool-cases (str_eq i k)) [
    | inl e ↦ rw e (Fresh-delete k j m f.1)
    | inr e ↦ rw e (f.0, Fresh-delete k j m f.1)
  ]

  pub delete-IsMap : (k : Bytes) (m : GoMap V) → IsMap m → IsMap (delete k m)
  unfolding delete
  delete-IsMap k [] h = tt
  delete-IsMap k ((i, w) ∷ m) h = elim (Bool-cases (str_eq i k)) [
    | inl e ↦ rw e (delete-IsMap k m h.1)
    | inr e ↦ rw e (Fresh-delete k i m h.0, delete-IsMap k m h.1)
  ]

  pub lookup-Fresh : (k : Bytes) (m : GoMap V) → Fresh k m → lookup k m ≡ none
  unfolding lookup
  lookup-Fresh k [] f = refl
  lookup-Fresh k ((i, w) ∷ m) f = rw f.0 (lookup-Fresh k m f.1)

  pub length-insert :
      (k : Bytes) (v : V) (m : GoMap V)
      → length (insert k v m) ≡ elim (lookup k m) [ none ↦ suc (length m) | some w ↦ length m ]
  unfolding insert lookup
  length-insert k v [] = refl
  length-insert k v ((i, w) ∷ m) = ground (arith, length-insert k v m)
