-- ===== src/SemanticTokens/Cache/Invalidate.antt =====
-- Invalidate keeps the two maps of the cache in agreement.
use design_tokens_language_s.Prelude.{
  ◌≡◌, refl, sym, ap, ◌∙◌, false, List, some, arith, Bool-cases, Option-cases, inl, inr,
}
use design_tokens_language_s.GoString.{Bytes, str_eq}
use design_tokens_language_s.GoString.Laws.{str_eq_iff}
use design_tokens_language_s.GoMap.{lookup, delete}
use design_tokens_language_s.GoMap.Laws.{lookup-delete}
use design_tokens_language_s.SemanticTokens.Cache.{InternalEntry, TokenCache, invalidate}
use design_tokens_language_s.SemanticTokens.Cache.Laws.{IsLinked, not_same}
use design_tokens_language_s.SemanticTokens.Cache.Latest.{only_old}

-- What is found in a map after a deletion was there before, under another key.
pub found_after_delete {ℓ} :
    {V : Type ℓ} (k j : Bytes) (m : List (Bytes × V)) (v : V)
    → lookup j (delete k m) ≡ some v
    → (str_eq k j ≡ false) × (lookup j m ≡ some v)
found_after_delete k j m v h = elim (Bool-cases (str_eq k j)) [
  | inl e ↦ absurd (ground (arith, lookup-delete k j m, e))
  | inr e ↦ (e, ground (arith, lookup-delete k j m, e))
]

pub kept_by_delete {ℓ} :
    {V : Type ℓ} (k j : Bytes) (m : List (Bytes × V)) (v : V)
    → str_eq k j ≡ false
    → lookup j m ≡ some v
    → lookup j (delete k m) ≡ some v
kept_by_delete k j m v e h = lookup-delete k j m ∙ rw e h

module _ (u : Bytes) (c : TokenCache) (old : InternalEntry) (l : IsLinked c)
    (held : lookup u c.by_uri ≡ some old) where
  cut-IsLinked : IsLinked (record c {
    by_result_id = delete old.cached.result_id c.by_result_id;
    by_uri = delete u c.by_uri;
  })
  cut-IsLinked = record {
    by_id = λ r e h.
        let (apart, s) = found_after_delete old.cached.result_id r c.by_result_id e h in
        let (i, j) = l.by_id r e s in
        (
          i,
          kept_by_delete u e.uri c.by_uri e
              (not_same u e.uri
                (λ q. ground (arith, apart, (only_old u c old l held r e s).0 (sym q))))
              j,
        );
    by_uri = λ w e h.
        let (apart, s) = found_after_delete u w c.by_uri e h in
        let (i, j) = l.by_uri w e s in
        (
          i,
          kept_by_delete old.cached.result_id e.cached.result_id c.by_result_id e
              (not_same old.cached.result_id e.cached.result_id (λ q.
                let same =
                  (only_old u c old l held e.cached.result_id e j).1 ((str_eq_iff _ _).1 q) in
                ground (arith, apart, (str_eq_iff u w).1 (sym same ∙ i))))
              j,
        );
    given = λ r e h.
        let (apart, s) = found_after_delete old.cached.result_id r c.by_result_id e h in
        l.given r e s;
  }

pub invalidate-IsLinked : (u : Bytes) (c : TokenCache) → IsLinked c → IsLinked (invalidate u c)
unfolding invalidate
invalidate-IsLinked u c l = elim (Option-cases (lookup u c.by_uri)) [
  | inl n ↦ rw (n, invalidate) l
  | inr (old, e) ↦ rw (e, invalidate) (cut-IsLinked u c old l e)
]

-- What is cached under a URI after Invalidate was so before, for another document.
pub invalidate_by_uri :
    (u w : Bytes) (c : TokenCache) (e : InternalEntry)
    → lookup w (invalidate u c).by_uri ≡ some e
    → (str_eq u w ≡ false) × (lookup w c.by_uri ≡ some e)
unfolding invalidate
invalidate_by_uri u w c e h = elim (Option-cases (lookup u c.by_uri)) [
  | inl n ↦
      let same : lookup w c.by_uri ≡ some e = rw (n, invalidate) at h in
      (not_same u w (λ q. ground (arith, n, same, ap (λ k. lookup k c.by_uri) q)), same)
  | inr (old, o) ↦ found_after_delete u w c.by_uri e (rw (o, invalidate) at h)
]

pub counter_invalidate : (u : Bytes) (c : TokenCache) → (invalidate u c).counter ≡ c.counter
unfolding invalidate
counter_invalidate u c = elim (Option-cases (lookup u c.by_uri)) [
  | inl n ↦ rw (n, invalidate) refl
  | inr (old, e) ↦ rw (e, invalidate) refl
]
