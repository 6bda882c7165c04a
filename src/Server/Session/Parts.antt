-- ===== src/Server/Session/Parts.antt =====
-- The invariant of a session, and the steps that change the documents or the cached tokens.
use design_tokens_language_s.Prelude.{
  ℕ, ◌+◌, ◌≤◌, ◌≡◌, ◌⊎◌, refl, sym, ap, ◌∙◌, Bool, false, Option, some, List, Bool-cases,
  Option-cases, inl, inr, arith,
}
use design_tokens_language_s.Ints.{ℤ}
use design_tokens_language_s.Outcome.{Outcome-cases}
use design_tokens_language_s.GoString.{Bytes, str_eq}
use design_tokens_language_s.GoMap.{lookup, insert}
use design_tokens_language_s.GoMap.Laws.{lookup-insert, lookup-delete}
use design_tokens_language_s.Documents
use design_tokens_language_s.Documents.Document.{Document}
use design_tokens_language_s.Documents.Manager.History
use design_tokens_language_s.Documents.Manager.History.{
  IsConsistent, handle, handle-IsConsistent, new_manager-IsConsistent,
}
use design_tokens_language_s.Documents.Manager.Laws.{did_change_state, updated}
use design_tokens_language_s.Documents.Change.{ContentChange}
use design_tokens_language_s.Tokens.Store.{IsKeyed}
use design_tokens_language_s.SemanticTokens.Cache.{InternalEntry, TokenCache, store, invalidate}
use design_tokens_language_s.SemanticTokens.Cache.Laws.{
  IsLinked, HasRoom, store-IsLinked, stored_by_uri, counter_store,
}
use design_tokens_language_s.SemanticTokens.Cache.Invalidate.{
  invalidate-IsLinked, invalidate_by_uri,
}
use design_tokens_language_s.SemanticTokens.Encode.{SemanticToken, encode_semantic_tokens}
use design_tokens_language_s.SemanticTokens.Handlers.{
  is_data_language, semantic_tokens_full, semantic_tokens_full_delta,
}
use design_tokens_language_s.SemanticTokens.Handlers.Session.{semantic_tokens_full_cases}
use design_tokens_language_s.Server.{Server}
use design_tokens_language_s.Server.Session.Calm.{Calm}

-- A document of this URI is open.
abbrev pub IsOpen : Bytes → Documents.Manager.Manager → Type 0
IsOpen uri m = (doc : Document) × (lookup uri m ≡ some doc)

-- Every URI with cached tokens is that of an open document.
abbrev pub CachesOpen : Documents.Manager.Manager → TokenCache → Type 0
CachesOpen m c = (uri : Bytes) (e : InternalEntry) → lookup uri c.by_uri ≡ some e → IsOpen uri m

-- The documents stand under their own URIs, the tokens under their keys, the two maps of the token
-- cache agree, and tokens are cached for open documents only.
pub record IsSound (s : Server) : Type 0 where
  pub consistent : IsConsistent s.documents
  pub keyed : IsKeyed s.tokens
  pub linked : IsLinked s.token_cache
  pub caches_open : CachesOpen s.documents s.token_cache

-- A calm step keeps the server sound, and the counter.
pub Calm-IsSound : {s s' : Server} → Calm s s' → IsSound s → IsSound s'
Calm-IsSound {s} {s'} c i = record {
  consistent = rw c.documents_same i.consistent;
  keyed = c.keyed i.keyed;
  linked = rw c.cache_same i.linked;
  caches_open = rw (c.documents_same, c.cache_same) i.caches_open;
}

IsOpen-after_insert :
    (uri other : Bytes) (doc : Document) (m : Documents.Manager.Manager)
    → IsOpen other m
    → IsOpen other (insert uri doc m)
IsOpen-after_insert uri other doc m (d, h) = elim (Bool-cases (str_eq uri other)) [
  | inl e ↦ (doc, lookup-insert uri other doc m ∙ rw e refl)
  | inr e ↦ (d, lookup-insert uri other doc m ∙ rw e h)
]

with_documents :
    (s : Server) (m : Documents.Manager.Manager)
    → IsSound s
    → IsConsistent m
    → ((uri : Bytes) → IsOpen uri s.documents → IsOpen uri m)
    → IsSound (record s { documents = m })
with_documents s m i c o = record {
  consistent = c;
  keyed = i.keyed;
  linked = i.linked;
  caches_open = λ uri e h. o uri (i.caches_open uri e h);
}

pub opened-IsSound :
    (uri language_id content : Bytes) (version : ℤ) (s : Server)
    → IsSound s
    → IsSound (record s {
      documents = (Documents.Manager.did_open uri language_id version content s.documents).1;
    })
unfolding Documents.Manager.did_open handle
opened-IsSound uri language_id content version s i =
    with_documents s _ i
      (handle-IsConsistent (History.opened uri language_id version content) s.documents
        i.consistent)
      (λ other o. IsOpen-after_insert uri other _ s.documents o)

pub changed-IsSound :
    (uri : Bytes) (version : ℤ) (changes : List ContentChange) (s : Server)
    → IsSound s
    → IsSound
        (record s { documents = (Documents.Manager.did_change uri version changes s.documents).1 })
unfolding handle
changed-IsSound uri version changes s i =
    with_documents s _ i
      (handle-IsConsistent (History.changed uri version changes) s.documents i.consistent)
      (λ other o. elim (did_change_state uri version changes s.documents) [
        | inl e ↦ rw e o
        | inr (d, out, a, e) ↦
            rw e (IsOpen-after_insert uri other (updated d out version) s.documents o)
      ])

IsOpen-after_close :
    (uri other : Bytes) (m : Documents.Manager.Manager)
    → str_eq uri other ≡ false
    → IsOpen other m
    → IsOpen other (Documents.Manager.did_close uri m).1
unfolding Documents.Manager.did_close
IsOpen-after_close uri other m apart (d, h) = (d, ground (arith, lookup-delete uri other m))

pub closed-IsSound :
    (uri : Bytes) (s : Server)
    → IsSound s
    → IsSound (record s {
      documents = (Documents.Manager.did_close uri s.documents).1;
      token_cache = invalidate uri s.token_cache;
    })
unfolding handle
closed-IsSound uri s i = record {
  consistent = handle-IsConsistent (History.closed uri) s.documents i.consistent;
  keyed = i.keyed;
  linked = invalidate-IsLinked uri s.token_cache i.linked;
  caches_open = λ other e h.
      let (apart, before) = invalidate_by_uri uri other s.token_cache e h in
      IsOpen-after_close uri other s.documents apart (i.caches_open other e before);
}

-- What a request does to the cache: nothing, or one entry for an open document.
abbrev pub Caches : Bytes → Documents.Manager.Manager → TokenCache → TokenCache → Type 0
Caches uri m c c' =
    (c' ≡ c)
    ⊎ (doc : Document) × (sent : List ℕ) × (lookup uri m ≡ some doc)
      × (c' ≡ (store uri sent doc.version c).1)

pub full-Caches :
    (document : Bytes → Option Document) (is_token_file : Bytes → Bool)
    (tokens_of : Document → List SemanticToken) (uri : Bytes) (m : Documents.Manager.Manager)
    (c : TokenCache)
    → ((doc : Document) → document uri ≡ some doc → lookup uri m ≡ some doc)
    → Caches uri m c (semantic_tokens_full document is_token_file tokens_of uri c).1
full-Caches document is_token_file tokens_of uri m c found =
    elim (semantic_tokens_full_cases document is_token_file tokens_of uri c) [
      | inl (same, none_sent) ↦ inl same
      | inr (doc, sent, serves, e) ↦ inr (doc, sent, found doc serves.found, ap (λ p. p.1) e)
    ]

pub delta-Caches :
    (document : Bytes → Option Document) (is_token_file : Bytes → Bool)
    (tokens_of : Document → List SemanticToken) (uri id : Bytes) (m : Documents.Manager.Manager)
    (c : TokenCache)
    → ((doc : Document) → document uri ≡ some doc → lookup uri m ≡ some doc)
    → Caches uri m c (semantic_tokens_full_delta document is_token_file tokens_of uri id c).1
unfolding semantic_tokens_full_delta
delta-Caches document is_token_file tokens_of uri id m c found =
    elim (Option-cases (document uri)) [
      | inl e ↦ rw (e, semantic_tokens_full_delta) (inl refl)
      | inr (doc, e) ↦
          rw (e, semantic_tokens_full_delta)
            (elim (Bool-cases (is_data_language doc.language_id)) [
              | inr b ↦ rw b (inl refl)
              | inl b ↦ rw b (elim (Bool-cases (is_token_file uri)) [
                | inr t ↦ rw t (inl refl)
                | inl t ↦ rw t (elim (Outcome-cases (encode_semantic_tokens (tokens_of doc))) [
                  | inl (sent, o) ↦ rw o (inr (doc, sent, found doc e, refl))
                  | inr (inl (x, o)) ↦ rw o (inl refl)
                  | inr (inr o) ↦ rw o (inl refl)
                ])
              ])
            ])
    ]

-- The counter is at most one further on.
abbrev pub Counted : TokenCache → TokenCache → Type 0
Counted c c' = c'.counter ≤ c.counter + 1

pub cached-IsSound :
    (uri : Bytes) (s : Server) (c : TokenCache)
    → IsSound s
    → HasRoom s.token_cache
    → Caches uri s.documents s.token_cache c
    → IsSound (record s { token_cache = c }) × Counted s.token_cache c
cached-IsSound uri s c i room (inl same) = (
  record {
    consistent = i.consistent;
    keyed = i.keyed;
    linked = rw same i.linked;
    caches_open = rw same i.caches_open;
  },
  omega (arith, ap (λ (x : TokenCache). x.counter) same),
)
cached-IsSound uri s c i room (inr (doc, sent, found, same)) = (
  record {
    consistent = i.consistent;
    keyed = i.keyed;
    linked = rw same (store-IsLinked uri sent doc.version s.token_cache i.linked room);
    caches_open = λ other e h.
        elim (stored_by_uri uri sent doc.version s.token_cache i.linked room other e
          (sym (ap (λ (x : TokenCache). lookup other x.by_uri) same) ∙ h)) [
            | inl (q, p) ↦ (doc, ap (λ k. lookup k s.documents) p ∙ found)
            | inr (apart, before) ↦ i.caches_open other e before
          ];
  },
  omega (
    arith,
    room,
    ap (λ (x : TokenCache). x.counter) same,
    counter_store uri sent doc.version s.token_cache i.linked room,
  ),
)
