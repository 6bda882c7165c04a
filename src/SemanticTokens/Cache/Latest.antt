-- ===== src/SemanticTokens/Cache/Latest.antt =====
-- What GetForURI answers: the latest entry of a document, and nothing else.
use design_tokens_language_s.Prelude.{
  ℕ, ◌≡◌, ◌≢◌, ◌↔◌, refl, sym, ap, ◌∙◌, true, Option, none, some, List, arith, Bool-cases,
  if◌then◌else◌, Option-cases, inl, inr,
}
use design_tokens_language_s.Ints.{ℤ}
use design_tokens_language_s.GoString.{Bytes, str_eq}
use design_tokens_language_s.GoString.Laws.{str_eq_iff, str_eq_refl}
use design_tokens_language_s.GoMap.{lookup, delete}
use design_tokens_language_s.GoMap.Laws.{lookup-delete}
use design_tokens_language_s.SemanticTokens.Cache.{
  CacheEntry, InternalEntry, TokenCache, copy_entry, store, get_for_uri, get_by_uri, invalidate,
}
use design_tokens_language_s.SemanticTokens.Cache.Laws.{
  IsLinked, HasRoom, not_same, new_entry, new_by_id, new_by_uri, other_by_id, store-IsLinked,
}

some_same : (x y : InternalEntry) → some x ≡ some y → x ≡ y
some_same x y h = cc

for_uri_entry :
    (r u : Bytes) (c : TokenCache) (e : CacheEntry)
    → get_for_uri r u c ≡ some e
    → (x : InternalEntry) × (lookup r c.by_result_id ≡ some x) × (x.uri ≡ u) × (x.cached ≡ e)
unfolding get_for_uri
for_uri_entry r u c e h = elim (Option-cases (lookup r c.by_result_id)) [
  | inl n ↦ absurd (ground (arith, n))
  | inr (x, s) ↦ elim (Bool-cases (str_eq x.uri u)) [
    | inl q ↦
        let same : some x.cached ≡ some e = ground (arith, s, q) in
        (x, s, (str_eq_iff x.uri u).0 q, cc)
    | inr q ↦ absurd (ground (arith, s, q))
  ]
]

for_uri_of :
    (r u : Bytes) (c : TokenCache) (x : InternalEntry)
    → lookup r c.by_result_id ≡ some x
    → get_for_uri r u c ≡ (if str_eq x.uri u then some x.cached else none)
unfolding get_for_uri
for_uri_of r u c x s = rw (s, get_for_uri) refl

for_uri_none :
    (r u : Bytes) (c : TokenCache) → lookup r c.by_result_id ≡ none → get_for_uri r u c ≡ none
unfolding get_for_uri
for_uri_none r u c s = rw (s, get_for_uri) refl

entry_for_uri :
    (r u : Bytes) (c : TokenCache) (x : InternalEntry)
    → lookup r c.by_result_id ≡ some x
    → x.uri ≡ u
    → get_for_uri r u c ≡ some x.cached
entry_for_uri r u c x s q = for_uri_of r u c x s ∙ rw ((str_eq_iff x.uri u).1 q) refl

-- In a linked cache, GetForURI answers with the entry that GetByURI gives for the document, which
-- carries the result ID asked for.
pub get_for_uri_latest :
    (r u : Bytes) (c : TokenCache) (e : CacheEntry)
    → IsLinked c
    → get_for_uri r u c ≡ some e
    → (get_by_uri u c ≡ some e) × (e.result_id ≡ r)
unfolding get_by_uri
get_for_uri_latest r u c e l h =
    let (x, s, q, k) = for_uri_entry r u c e h in
    let (i, j) = l.by_id r x s in
    let here : lookup u c.by_uri ≡ some x = ap (λ w. lookup w c.by_uri) (sym q) ∙ j in
    (rw here (ap some k), ap (λ (y : CacheEntry). y.result_id) (sym k) ∙ i)

by_uri_latest :
    (u : Bytes) (c : TokenCache) (x : InternalEntry)
    → lookup u c.by_uri ≡ some x
    → get_by_uri u c ≡ some x.cached
unfolding get_by_uri
by_uri_latest u c x h = rw h

-- In a linked cache whose counter has room, the result ID that Store returns finds the stored
-- data, and finds nothing for another document.
pub get_for_uri-store :
    (u w : Bytes) (tokens : List ℕ) (v : ℤ) (c : TokenCache)
    → IsLinked c
    → HasRoom c
    → get_for_uri (store u tokens v c).0 w (store u tokens v c).1 ≡ (
        if str_eq u w
        then some (record { result_id = (store u tokens v c).0; tokens = tokens; version = v })
        else none)
unfolding store
get_for_uri-store u w tokens v c l room =
    for_uri_of _ w (store u tokens v c).1 (new_entry u tokens v c l room)
      (new_by_id u tokens v c l room)

-- Once a document is stored in a linked cache whose counter has room, no result ID but the new
-- one finds anything for it.
pub store_expires :
    (u r : Bytes) (tokens : List ℕ) (v : ℤ) (c : TokenCache)
    → IsLinked c
    → HasRoom c
    → r ≢ (store u tokens v c).0
    → get_for_uri r u (store u tokens v c).1 ≡ none
unfolding store
store_expires u r tokens v c l room d =
    elim (Option-cases (get_for_uri r u (store u tokens v c).1)) [
      | inl n ↦ n
      | inr (e, h) ↦
          let (a, b) =
            get_for_uri_latest r u (store u tokens v c).1 e (store-IsLinked u tokens v c l room)
              h in
          let latest =
            by_uri_latest u (store u tokens v c).1 (new_entry u tokens v c l room)
              (new_by_uri u tokens v c l room) in
          let same : some (new_entry u tokens v c l room).cached ≡ some e = sym latest ∙ a in
          absurd (
            d (
              sym b
              ∙ ap (λ (y : Option CacheEntry). elim y [ none ↦ r | some y ↦ y.result_id ])
                  (sym same)))
    ]

-- In a linked cache whose counter has room, storing one document leaves what a result ID of
-- another document finds.
pub store_others :
    (u w r : Bytes) (tokens : List ℕ) (v : ℤ) (c : TokenCache) (e : CacheEntry)
    → IsLinked c
    → HasRoom c
    → u ≢ w
    → get_for_uri r w c ≡ some e
    → get_for_uri r w (store u tokens v c).1 ≡ some e
store_others u w r tokens v c e l room d h =
    let (x, s, q, k) = for_uri_entry r w c e h in
    let kept = other_by_id u tokens v c l room r x s (λ z. d (sym z ∙ q)) in
    entry_for_uri r w (store u tokens v c).1 x kept q ∙ ap some k

module _ (u : Bytes) (c : TokenCache) (old : InternalEntry) (l : IsLinked c)
    (e : lookup u c.by_uri ≡ some old) where
  cut : TokenCache
  cut = record c {
    by_result_id = delete old.cached.result_id c.by_result_id;
    by_uri = delete u c.by_uri;
  }

  cut_lookup :
      (r : Bytes)
      → lookup r cut.by_result_id
        ≡ (if str_eq old.cached.result_id r then none else lookup r c.by_result_id)
  unfolding cut
  cut_lookup r = lookup-delete old.cached.result_id r c.by_result_id

  -- An entry of the document is the one that is cut out.
  pub only_old :
      (r : Bytes) (x : InternalEntry)
      → lookup r c.by_result_id ≡ some x
      → (x.uri ≡ u) ↔ (str_eq old.cached.result_id r ≡ true)
  only_old r x s = (
    λ q.
        let (i, j) = l.by_id r x s in
        let same : some x ≡ some old = sym j ∙ ap (λ k. lookup k c.by_uri) q ∙ e in
        (str_eq_iff old.cached.result_id r).1
          (ap (λ (y : InternalEntry). y.cached.result_id) (some_same old x (sym same)) ∙ i),
    λ h.
        let (i, j) = l.by_uri u old e in
        let k = (str_eq_iff old.cached.result_id r).0 h in
        let same : some x ≡ some old = sym s ∙ ap (λ y. lookup y c.by_result_id) (sym k) ∙ j in
        ap (λ (y : InternalEntry). y.uri) (some_same x old same) ∙ i,
  )

  cut_own : (r : Bytes) → get_for_uri r u cut ≡ none
  cut_own r = elim (Bool-cases (str_eq old.cached.result_id r)) [
    | inl h ↦ for_uri_none r u cut (cut_lookup r ∙ rw h refl)
    | inr h ↦ elim (Option-cases (lookup r c.by_result_id)) [
      | inl n ↦ for_uri_none r u cut (cut_lookup r ∙ rw h n)
      | inr (x, s) ↦
          let apart = not_same x.uri u (λ q. ground (arith, (only_old r x s).0 q, h)) in
          for_uri_of r u cut x (cut_lookup r ∙ rw h s) ∙ rw apart refl
    ]
  ]

  cut_other : (r w : Bytes) → u ≢ w → get_for_uri r w cut ≡ get_for_uri r w c
  cut_other r w d = elim (Option-cases (lookup r c.by_result_id)) [
    | inl n ↦ for_uri_none r w cut (cut_lookup r ∙ ground (arith, n)) ∙ sym (for_uri_none r w c n)
    | inr (x, s) ↦ elim (Bool-cases (str_eq old.cached.result_id r)) [
      | inl h ↦
          let apart = not_same x.uri w (λ q. d (sym ((only_old r x s).1 h) ∙ q)) in
          for_uri_none r w cut (cut_lookup r ∙ rw h refl)
          ∙ sym (for_uri_of r w c x s ∙ rw apart refl)
      | inr h ↦ for_uri_of r w cut x (cut_lookup r ∙ rw h s) ∙ sym (for_uri_of r w c x s)
    ]
  ]

absent_own :
    (u r : Bytes) (c : TokenCache)
    → IsLinked c
    → lookup u c.by_uri ≡ none
    → get_for_uri r u c ≡ none
absent_own u r c l n = elim (Option-cases (get_for_uri r u c)) [
  | inl e ↦ e
  | inr (e, h) ↦
      let (x, s, q, k) = for_uri_entry r u c e h in
      let (i, j) = l.by_id r x s in
      absurd (ground (arith, n, sym j ∙ ap (λ w. lookup w c.by_uri) q))
]

-- After Invalidate on a linked cache, the document has no entry under its URI or any result ID,
-- and what is found for another document is as before.
pub invalidate_lem :
    (u w r : Bytes) (c : TokenCache)
    → IsLinked c
    → u ≢ w
    → (get_by_uri u (invalidate u c) ≡ none)
      × (get_for_uri r u (invalidate u c) ≡ none)
      × (get_for_uri r w (invalidate u c) ≡ get_for_uri r w c)
      × (get_by_uri w (invalidate u c) ≡ get_by_uri w c)
unfolding invalidate get_by_uri cut
invalidate_lem u w r c l d = elim (Option-cases (lookup u c.by_uri)) [
  | inl n ↦ rw (n, invalidate) (rw (n, get_by_uri) refl, absent_own u r c l n, refl, refl)
  | inr (old, e) ↦
      rw (e, invalidate)
        (
          ap copy_entry {y = none} (lookup-delete u u c.by_uri ∙ rw (str_eq_refl u) refl),
          cut_own u c old l e r,
          cut_other u c old l e r w d,
          ap copy_entry {y = lookup w c.by_uri}
              (lookup-delete u w c.by_uri ∙ rw (not_same u w d) refl),
        )
]
