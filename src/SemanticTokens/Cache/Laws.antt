-- ===== src/SemanticTokens/Cache/Laws.antt =====
-- The two maps of the token cache agree, and what Store and Invalidate do to them.
use mathlib.Core.List.{append_cancel_left}
use design_tokens_language_s.Prelude.{
  ℕ, ◌+◌, ◌^◌, ◌≤◌, ◌<◌, ◌≡◌, ◌≢◌, ◌⊎◌, refl, sym, ap, ◌∙◌, true, false, none, some, List, arith,
  Bool-cases, Option-cases, inl, inr, if◌then◌else◌,
}
use design_tokens_language_s.Ints.{ℤ}
use design_tokens_language_s.GoString.{Bytes, ascii, str_eq}
use design_tokens_language_s.GoString.Laws.{str_eq_iff, str_eq_refl}
use design_tokens_language_s.GoString.Decimal.{decimal_injective}
use design_tokens_language_s.GoMap.{lookup}
use design_tokens_language_s.GoMap.Laws.{lookup-insert, lookup-delete}
use design_tokens_language_s.SemanticTokens.Cache.{
  InternalEntry, TokenCache, new_token_cache, result_id_of, next_id, drop_old, store, get,
}

pub result_id_of_injective : (n m : ℕ) → result_id_of n ≡ result_id_of m → n ≡ m
unfolding result_id_of
result_id_of_injective n m e = decimal_injective n m (append_cancel_left (ascii "st-") _ _ e)

-- Both maps hold the same entries: each under its own result ID and under its own URI, and every
-- result ID was given out by the counter.
pub record IsLinked (c : TokenCache) : Type 0 where
  pub by_id :
      (r : Bytes) (e : InternalEntry)
      → lookup r c.by_result_id ≡ some e
      → (e.cached.result_id ≡ r) × (lookup e.uri c.by_uri ≡ some e)
  pub by_uri :
      (u : Bytes) (e : InternalEntry)
      → lookup u c.by_uri ≡ some e
      → (e.uri ≡ u) × (lookup e.cached.result_id c.by_result_id ≡ some e)
  pub given :
      (r : Bytes) (e : InternalEntry)
      → lookup r c.by_result_id ≡ some e
      → (n : ℕ) × (r ≡ result_id_of n) × (n ≤ c.counter)

pub new_token_cache-IsLinked : IsLinked new_token_cache
unfolding lookup
new_token_cache-IsLinked = record {
  by_id = λ r e h. absurd (ground arith);
  by_uri = λ u e h. absurd (ground arith);
  given = λ r e h. absurd (ground arith);
}

-- The counter has not reached its last value.
abbrev pub HasRoom : TokenCache → Type 0
HasRoom c = c.counter + 1 < 2 ^ 64

-- A new result ID is not in use.
pub store_fresh :
    (u : Bytes) (tokens : List ℕ) (v : ℤ) (c : TokenCache)
    → IsLinked c
    → HasRoom c
    → get (store u tokens v c).0 c ≡ none
unfolding get store
store_fresh u tokens v c l h =
    elim (Option-cases (lookup (result_id_of (next_id c)) c.by_result_id)) [
      | inl e ↦ rw e
      | inr (x, e) ↦
          let (n, f, k) = l.given (result_id_of (next_id c)) x e in
          let same = result_id_of_injective (next_id c) n f in absurd (omega arith)
    ]

pub not_same : (s t : Bytes) → s ≢ t → str_eq s t ≡ false
not_same s t h = ground (arith, str_eq_iff s t)

pub same_or_not : (s t : Bytes) → str_eq s t ≡ false → s ≢ t
same_or_not s t h e = ground (arith, str_eq_iff s t)

-- What is left in the first map when the old entry of a URI is taken out.
drop_old_lem :
    (u r : Bytes) (c : TokenCache) (x : InternalEntry)
    → IsLinked c
    → lookup r (drop_old u c) ≡ some x
    → (lookup r c.by_result_id ≡ some x) × (x.uri ≢ u)
unfolding drop_old
drop_old_lem u r c x l h = elim (Option-cases (lookup u c.by_uri)) [
  | inl e ↦
      let held : lookup r c.by_result_id ≡ some x = ground (arith, e) in
      let (i, j) = l.by_id r x held in (held, λ d. ground (arith, ap (λ k. lookup k c.by_uri) d))
  | inr (old, e) ↦
      let cut = lookup-delete old.cached.result_id r c.by_result_id in
      let held : lookup r c.by_result_id ≡ some x = ground (arith, e) in
      let (i, j) = l.by_id r x held in
      (
        held,
        λ d.
            let same : x ≡ old = ground (arith, ap (λ k. lookup k c.by_uri) d) in
            let clash : str_eq old.cached.result_id r ≡ true =
              (str_eq_iff old.cached.result_id r).1
                (ap (λ (y : InternalEntry). y.cached.result_id) (sym same) ∙ i) in
            ground (arith, e),
      )
]

drop_old_keeps :
    (u r : Bytes) (c : TokenCache) (x : InternalEntry)
    → IsLinked c
    → lookup r c.by_result_id ≡ some x
    → x.uri ≢ u
    → lookup r (drop_old u c) ≡ some x
unfolding drop_old
drop_old_keeps u r c x l h d = elim (Option-cases (lookup u c.by_uri)) [
  | inl e ↦ rw (e, drop_old) h
  | inr (old, e) ↦
      let (i, j) = l.by_uri u old e in
      let apart : str_eq old.cached.result_id r ≡ false = not_same _ _ (λ s.
        let same : old ≡ x = ground (arith, ap (λ k. lookup k c.by_result_id) s) in
        d (ap (λ (y : InternalEntry). y.uri) (sym same) ∙ i)) in
      rw (e, drop_old) (rw (lookup-delete, apart) h)
]

module _ (u : Bytes) (tokens : List ℕ) (v : ℤ) (c : TokenCache) (l : IsLinked c)
    (room : HasRoom c) where
  -- The entry that Store makes, under its result ID.
  abbrev pub new_id : Bytes
  new_id = result_id_of (next_id c)

  abbrev pub new_entry : InternalEntry
  new_entry = record {
    cached = record { result_id = new_id; tokens = tokens; version = v };
    uri = u;
  }

  unused : lookup new_id c.by_result_id ≡ none
  unfolding get store
  unused = elim (Option-cases (lookup new_id c.by_result_id)) [
    | inl e ↦ e
    | inr (x, e) ↦ absurd (ground (arith, e, store_fresh u tokens v c l room))
  ]

  by_id_lookup :
      (r : Bytes)
      → lookup r (store u tokens v c).1.by_result_id
        ≡ (if str_eq new_id r then some new_entry else lookup r (drop_old u c))
  unfolding store
  by_id_lookup r = lookup-insert new_id r new_entry (drop_old u c)

  by_uri_lookup :
      (w : Bytes)
      → lookup w (store u tokens v c).1.by_uri
        ≡ (if str_eq u w then some new_entry else lookup w c.by_uri)
  unfolding store
  by_uri_lookup w = lookup-insert u w new_entry c.by_uri

  pub stored_by_id :
      (r : Bytes) (e : InternalEntry)
      → lookup r (store u tokens v c).1.by_result_id ≡ some e
      → (e ≡ new_entry) × (r ≡ new_id)
        ⊎ (str_eq new_id r ≡ false) × (lookup r c.by_result_id ≡ some e) × (e.uri ≢ u)
  stored_by_id r e h = elim (Bool-cases (str_eq new_id r)) [
    | inl s ↦
        let same : some new_entry ≡ some e = ground (arith, s, by_id_lookup r) in
        inl (cc, sym ((str_eq_iff new_id r).0 s))
    | inr s ↦
        let held : lookup r (drop_old u c) ≡ some e = ground (arith, s, by_id_lookup r) in
        let (x, d) = drop_old_lem u r c e l held in inr (s, x, d)
  ]

  pub stored_by_uri :
      (w : Bytes) (e : InternalEntry)
      → lookup w (store u tokens v c).1.by_uri ≡ some e
      → (e ≡ new_entry) × (w ≡ u) ⊎ (str_eq u w ≡ false) × (lookup w c.by_uri ≡ some e)
  stored_by_uri w e h = elim (Bool-cases (str_eq u w)) [
    | inl s ↦
        let same : some new_entry ≡ some e = ground (arith, s, by_uri_lookup w) in
        inl (cc, sym ((str_eq_iff u w).0 s))
    | inr s ↦ inr (s, ground (arith, s, by_uri_lookup w))
  ]

  pub new_by_id : lookup new_id (store u tokens v c).1.by_result_id ≡ some new_entry
  new_by_id = by_id_lookup new_id ∙ rw (str_eq_refl new_id)

  pub new_by_uri : lookup u (store u tokens v c).1.by_uri ≡ some new_entry
  new_by_uri = by_uri_lookup u ∙ rw (str_eq_refl u)

  -- An entry of another document stays where it was.
  pub other_by_id :
      (r : Bytes) (e : InternalEntry)
      → lookup r c.by_result_id ≡ some e
      → e.uri ≢ u
      → lookup r (store u tokens v c).1.by_result_id ≡ some e
  other_by_id r e h d =
      let apart : str_eq new_id r ≡ false =
        not_same new_id r (λ s. ground (arith, unused, ap (λ k. lookup k c.by_result_id) s)) in
      by_id_lookup r ∙ rw apart (drop_old_keeps u r c e l h d)

  pub other_by_uri :
      (w : Bytes) → u ≢ w → lookup w (store u tokens v c).1.by_uri ≡ lookup w c.by_uri
  other_by_uri w d = by_uri_lookup w ∙ rw (not_same u w d)

  pub counter_store : (store u tokens v c).1.counter ≡ next_id c
  unfolding store
  counter_store = refl

  -- While the counter has room, Store keeps the two maps of a linked cache linked: each entry
  -- under its own result ID and its own URI.
  pub store-IsLinked : IsLinked (store u tokens v c).1
  store-IsLinked = record {
    by_id = λ r e h. elim (stored_by_id r e h) [
      | inl (q, p) ↦ (
        ap (λ (x : InternalEntry). x.cached.result_id) q ∙ sym p,
        ap (λ (x : InternalEntry). lookup x.uri (store u tokens v c).1.by_uri) q
            ∙ new_by_uri
            ∙ ap some (sym q),
      )
      | inr (s, x, d) ↦ let (i, j) = l.by_id r e x in (i, other_by_uri e.uri (λ k. d (sym k)) ∙ j)
    ];
    by_uri = λ w e h. elim (stored_by_uri w e h) [
      | inl (q, p) ↦ (
        ap (λ (x : InternalEntry). x.uri) q ∙ sym p,
        ap (λ (x : InternalEntry). lookup x.cached.result_id (store u tokens v c).1.by_result_id) q
            ∙ new_by_id
            ∙ ap some (sym q),
      )
      | inr (s, x) ↦
          let (i, j) = l.by_uri w e x in
          (i, other_by_id e.cached.result_id e j (λ k. same_or_not u w s (sym k ∙ i)))
    ];
    given = λ r e h. elim (stored_by_id r e h) [
      | inl (q, p) ↦ (next_id c, p, omega (arith, counter_store))
      | inr (s, x, d) ↦ let (n, f, k) = l.given r e x in (n, f, omega (arith, counter_store))
    ];
  }
