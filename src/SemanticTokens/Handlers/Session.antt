-- ===== src/SemanticTokens/Handlers/Session.antt =====
-- A client that follows full and delta replies, and what it ends up with.
use design_tokens_language_s.Prelude.{
  ℕ, ◌≡◌, ◌≢◌, ◌⊎◌, ◌<◌, ◌^◌, refl, sym, ap, ◌∙◌, true, Bool, Option, none, some, List, length,
  Bool-cases, Option-cases, inl, inr,
}
use design_tokens_language_s.Ints.{ℤ}
use design_tokens_language_s.Outcome.{ok, err, panicked, Outcome-cases}
use design_tokens_language_s.GoString.{Bytes}
use design_tokens_language_s.GoString.Laws.{str_eq_refl}
use design_tokens_language_s.Documents.Document.{Document}
use design_tokens_language_s.SemanticTokens.Cache.{CacheEntry, TokenCache, get_for_uri, store}
use design_tokens_language_s.SemanticTokens.Cache.Laws.{IsLinked, HasRoom}
use design_tokens_language_s.SemanticTokens.Cache.Latest.{get_for_uri-store}
use design_tokens_language_s.SemanticTokens.Delta.{Edit, compute_delta, apply_edits}
use design_tokens_language_s.SemanticTokens.Delta.RoundTrip.{apply_edits-compute_delta}
use design_tokens_language_s.SemanticTokens.Encode.{SemanticToken, encode_semantic_tokens}
use design_tokens_language_s.SemanticTokens.Handlers.{
  Reply, no_reply, full, delta, previous_tokens, delta_reply, is_data_language,
  semantic_tokens_full, semantic_tokens_full_delta,
}

-- What a client remembers of a document: the last result ID and the data.
pub record Client : Type 0 where
  pub result_id : Bytes
  pub tokens : List ℕ

-- The client's part of the protocol.
unfoldable pub follow : Reply → Client → Client
follow no_reply k = k
follow (full none sent) k = record k { tokens = sent }
follow (full (some id) sent) k = record { result_id = id; tokens = sent }
follow (delta id edits) k = elim (apply_edits k.tokens edits) [
  | ok sent ↦ record { result_id = id; tokens = sent }
  | err e ↦ k
  | panicked ↦ k
]

-- If the cache finds the client's result ID for the document, then it holds the client's data, which is
-- short enough for the protocol's offsets.
abbrev pub IsInStep : Bytes → Client → TokenCache → Type 0
IsInStep uri k c =
    (e : CacheEntry)
    → get_for_uri k.result_id uri c ≡ some e
    → (e.tokens ≡ k.tokens) × (length k.tokens < 2 ^ 32)

follow-delta :
    (id : Bytes) (edits : List Edit) (sent : List ℕ) (k : Client)
    → apply_edits k.tokens edits ≡ ok sent
    → follow (delta id edits) k ≡ record { result_id = id; tokens = sent }
unfolding follow
follow-delta id edits sent k h = rw (h, follow) refl

-- Whatever was cached, a client in step follows the reply to the new result ID and the new data.
follow-delta_reply :
    (uri new_id : Bytes) (sent : List ℕ) (k : Client) (c : TokenCache)
    → IsInStep uri k c
    → follow (delta_reply (previous_tokens (get_for_uri k.result_id uri c)) new_id sent) k
      ≡ record { result_id = new_id; tokens = sent }
unfolding follow delta_reply
follow-delta_reply uri new_id sent k c step = elim (Option-cases (get_for_uri k.result_id uri c)) [
  | inl n ↦ rw n refl
  | inr (e, h) ↦
      let (same, short) = step e h in
      let applied : apply_edits k.tokens (compute_delta e.tokens sent) ≡ ok sent =
        ap (λ xs. apply_edits k.tokens (compute_delta xs sent)) same
        ∙ apply_edits-compute_delta k.tokens sent short in
      rw h (follow-delta new_id (compute_delta e.tokens sent) sent k applied)
]

-- The client that has what Store was given is in step.
stored_IsInStep :
    (uri : Bytes) (sent : List ℕ) (v : ℤ) (c : TokenCache)
    → IsLinked c
    → HasRoom c
    → length sent < 2 ^ 32
    → IsInStep uri
        (record { result_id = (store uri sent v c).0; tokens = sent })
        (store uri sent v c).1
stored_IsInStep uri sent v c l room short e h =
    let there : get_for_uri (store uri sent v c).0 uri (store uri sent v c).1
        ≡ some (record { result_id = (store uri sent v c).0; tokens = sent; version = v }) =
      get_for_uri-store uri uri sent v c l room ∙ rw (str_eq_refl uri) refl in
    let same : some (record { result_id = (store uri sent v c).0; tokens = sent; version = v })
        ≡ some e =
      sym there ∙ h in
    (cc, short)

module _ (document : Bytes → Option Document) (should_process_as_token_file : Bytes → Bool)
    (get_semantic_tokens_for_document : Document → List SemanticToken) where
  -- The document is there, may be processed, and its tokens have the encoding `sent`.
  pub record Serves (uri : Bytes) (doc : Document) (sent : List ℕ) : Type 0 where
    pub found : document uri ≡ some doc
    pub data_language : is_data_language doc.language_id ≡ true
    pub token_file : should_process_as_token_file uri ≡ true
    pub encoded : encode_semantic_tokens (get_semantic_tokens_for_document doc) ≡ ok sent

  delta_runs :
      (uri : Bytes) (doc : Document) (sent : List ℕ) (id : Bytes) (c : TokenCache)
      → Serves uri doc sent
      → semantic_tokens_full_delta document should_process_as_token_file
          get_semantic_tokens_for_document uri id c
        ≡ (
          ok (
              delta_reply
                (previous_tokens (get_for_uri id uri c))
                (store uri sent doc.version c).0
                sent),
          (store uri sent doc.version c).1,
        )
  unfolding semantic_tokens_full_delta
  delta_runs uri doc sent id c s =
      rw (s.found, semantic_tokens_full_delta)
        (rw s.data_language (rw s.token_file (rw s.encoded refl)))

  -- If the document is served, the cache is linked and has room, the data is shorter than 2 to
  -- the 32, and the client is in step with the cache (what the cache finds under its result ID,
  -- if anything, is its data), then its request for a delta is answered, and after it follows the
  -- reply it has the current data of the document and is in step again.
  pub semantic_tokens_full_delta_lem :
      (uri : Bytes) (doc : Document) (sent : List ℕ) (k : Client) (c : TokenCache)
      → Serves uri doc sent
      → IsLinked c
      → HasRoom c
      → length sent < 2 ^ 32
      → IsInStep uri k c
      → (reply : Reply) × ((semantic_tokens_full_delta document should_process_as_token_file
            get_semantic_tokens_for_document uri k.result_id c).0
          ≡ ok reply)
        × ((follow reply k).tokens ≡ sent)
        × IsInStep uri
            (follow reply k)
            (semantic_tokens_full_delta document should_process_as_token_file
              get_semantic_tokens_for_document uri k.result_id c).1
  semantic_tokens_full_delta_lem uri doc sent k c s l room short step =
      let reply =
        delta_reply (previous_tokens (get_for_uri k.result_id uri c))
          (store uri sent doc.version c).0 sent in
      let run : semantic_tokens_full_delta document should_process_as_token_file
            get_semantic_tokens_for_document uri k.result_id c
          ≡ (ok reply, (store uri sent doc.version c).1) =
        delta_runs uri doc sent k.result_id c s in
      let now = follow-delta_reply uri (store uri sent doc.version c).0 sent k c step in
      rw run (
        reply,
        refl,
        ap (λ (x : Client). x.tokens) now,
        rw now (stored_IsInStep uri sent doc.version c l room short),
      )

  -- A request for all tokens either leaves the cache as it was and answers without data, or the
  -- document is served, and the reply carries its data under the result ID by which Store keeps
  -- it.
  pub semantic_tokens_full_cases :
      (uri : Bytes) (c : TokenCache)
      → ((semantic_tokens_full document should_process_as_token_file
              get_semantic_tokens_for_document uri c).1
            ≡ c)
          × ((id : Bytes) (sent : List ℕ)
              → (semantic_tokens_full document should_process_as_token_file
                  get_semantic_tokens_for_document uri c).0
                ≢ ok (full (some id) sent))
        ⊎ (doc : Document) × (sent : List ℕ) × Serves uri doc sent
          × (semantic_tokens_full document should_process_as_token_file
                get_semantic_tokens_for_document uri c
              ≡ (
                ok (full (some (store uri sent doc.version c).0) sent),
                (store uri sent doc.version c).1,
              ))
  unfolding semantic_tokens_full
  semantic_tokens_full_cases uri c = elim (Option-cases (document uri)) [
    | inl n ↦ rw (n, semantic_tokens_full) (inl (refl, λ id sent h. cc))
    | inr (doc, f) ↦ elim (Bool-cases (is_data_language doc.language_id)) [
      | inr b ↦ rw (f, semantic_tokens_full) (rw b (inl (refl, λ id sent h. cc)))
      | inl b ↦ elim (Bool-cases (should_process_as_token_file uri)) [
        | inr t ↦ rw (f, semantic_tokens_full) (rw b (rw t (inl (refl, λ id sent h. cc))))
        | inl t ↦
            elim (Outcome-cases (encode_semantic_tokens (get_semantic_tokens_for_document doc))) [
              | inl (sent, e) ↦ inr (
                doc,
                sent,
                record { found = f; data_language = b; token_file = t; encoded = e },
                rw (f, semantic_tokens_full) (rw b (rw t (rw e refl))),
              )
              | inr (inl (x, e)) ↦
                  rw (f, semantic_tokens_full) (rw b (rw t (rw e (inl (refl, λ id sent h. cc)))))
              | inr (inr e) ↦
                  rw (f, semantic_tokens_full) (rw b (rw t (rw e (inl (refl, λ id sent h. cc)))))
            ]
      ]
    ]
  ]
