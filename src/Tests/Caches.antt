-- ===== src/Tests/Caches.antt =====
-- The semantic token cache and the handlers in a session of two documents.
use design_tokens_language_s.Prelude.{
  ℕ, ◌≡◌, ◌≢◌, refl, Bool, true, Option, none, some, List, [], ◌∷◌, arith, if◌then◌else◌,
}
use design_tokens_language_s.Ints.{pos, ◌-ℤ◌}
use design_tokens_language_s.Outcome.{ok}
use design_tokens_language_s.GoString.{Bytes, ascii, str_eq}
use design_tokens_language_s.Documents.Document.{Document}
use design_tokens_language_s.Documents.Change.{Range}
use design_tokens_language_s.SemanticTokens.Cache.{
  CacheEntry, TokenCache, new_token_cache, next_id, store, get_for_uri, get_by_uri, invalidate,
}
use design_tokens_language_s.SemanticTokens.Cache.Laws.{
  IsLinked, HasRoom, result_id_of_injective, new_token_cache-IsLinked, store-IsLinked,
}
use design_tokens_language_s.SemanticTokens.Cache.Latest.{
  get_for_uri-store, store_expires, store_others, invalidate_lem,
}
use design_tokens_language_s.SemanticTokens.Encode.{
  SemanticToken, encode_semantic_tokens, encode_loop, encode_token, append_validated_int,
}
use design_tokens_language_s.SemanticTokens.Handlers.{
  Reply, full, is_data_language, semantic_tokens_full_delta, semantic_tokens_range,
}
use design_tokens_language_s.SemanticTokens.Encode.Decode.{decode}
use design_tokens_language_s.SemanticTokens.Handlers.Ranges.{semantic_tokens_range_lem, WithinOf}
use design_tokens_language_s.SemanticTokens.Handlers.Session.{
  Client, follow, IsInStep, Serves, semantic_tokens_full_delta_lem,
}

abbrev uri_a : Bytes
uri_a = ascii "a"

abbrev uri_b : Bytes
uri_b = ascii "b"

abbrev sent : List ℕ
sent = 0 ∷ 4 ∷ 3 ∷ 0 ∷ 0 ∷ []

abbrev first_id : Bytes
first_id = ascii "st-1"

abbrev cached : TokenCache
cached = (store uri_a [] (pos 1) new_token_cache).1

abbrev entry : CacheEntry
entry = record {
  result_id = (store uri_a [] (pos 1) new_token_cache).0;
  tokens = [];
  version = pos 1;
}

room_new : HasRoom new_token_cache
room_new = omega arith

room_cached : HasRoom cached
unfolding store
room_cached = omega arith

cached-IsLinked : IsLinked cached
cached-IsLinked = store-IsLinked uri_a [] (pos 1) new_token_cache new_token_cache-IsLinked room_new

found : get_for_uri (store uri_a [] (pos 1) new_token_cache).0 uri_a cached ≡ some entry
unfolding str_eq
found = get_for_uri-store uri_a uri_a [] (pos 1) new_token_cache new_token_cache-IsLinked room_new

a_is_not_b : uri_a ≢ uri_b
a_is_not_b = ground arith

b_is_not_a : uri_b ≢ uri_a
b_is_not_a = ground arith

get_for_uri-store_example :
    get_for_uri (store uri_b sent (pos 2) cached).0 uri_a (store uri_b sent (pos 2) cached).1 ≡ (
      if str_eq uri_b uri_a
      then some (record {
        result_id = (store uri_b sent (pos 2) cached).0;
        tokens = sent;
        version = pos 2;
      })
      else none)
get_for_uri-store_example =
    get_for_uri-store uri_b uri_a sent (pos 2) cached cached-IsLinked room_cached

store_others_example :
    get_for_uri (store uri_a [] (pos 1) new_token_cache).0 uri_a (store uri_b sent (pos 2) cached).1
    ≡ some entry
store_others_example =
    store_others uri_b uri_a (store uri_a [] (pos 1) new_token_cache).0 sent (pos 2) cached entry
      cached-IsLinked room_cached b_is_not_a found

-- The second ID differs from the first.
next_differs : (store uri_a [] (pos 1) new_token_cache).0 ≢ (store uri_a sent (pos 2) cached).0
unfolding store
next_differs h =
    let same = result_id_of_injective (next_id new_token_cache) (next_id cached) h in
    absurd (ground (arith, same))

store_expires_example :
    get_for_uri (store uri_a [] (pos 1) new_token_cache).0 uri_a (store uri_a sent (pos 2) cached).1
    ≡ none
store_expires_example =
    store_expires uri_a (store uri_a [] (pos 1) new_token_cache).0 sent (pos 2) cached
      cached-IsLinked room_cached next_differs

invalidate_lem_example :
    (get_by_uri uri_a (invalidate uri_a cached) ≡ none)
    × (get_for_uri first_id uri_a (invalidate uri_a cached) ≡ none)
    × (get_for_uri first_id uri_b (invalidate uri_a cached) ≡ get_for_uri first_id uri_b cached)
    × (get_by_uri uri_b (invalidate uri_a cached) ≡ get_by_uri uri_b cached)
invalidate_lem_example = invalidate_lem uri_a uri_b first_id cached cached-IsLinked a_is_not_b

-- One JSON document with one token.
abbrev token : SemanticToken
token = record {
  line = pos 0;
  start_char = pos 4;
  length = pos 3;
  token_type = pos 0;
  token_modifiers = pos 0;
}

abbrev doc : Document
doc = record { uri = uri_a; language_id = ascii "json"; content = []; version = pos 2 }

abbrev document : Bytes → Option Document
document uri = if str_eq uri uri_a then some doc else none

abbrev every_file : Bytes → Bool
every_file uri = true

abbrev one_token : Document → List SemanticToken
one_token d = token ∷ []

abbrev client : Client
client = record { result_id = (store uri_a [] (pos 1) new_token_cache).0; tokens = [] }

serves : Serves document every_file one_token uri_a doc sent
unfolding str_eq is_data_language encode_semantic_tokens encode_loop encode_token
    append_validated_int ◌-ℤ◌
serves = record { found = refl; data_language = refl; token_file = refl; encoded = refl }

client-IsInStep : IsInStep uri_a client cached
client-IsInStep e h = let same : some e ≡ some entry = ground (arith, found) in (cc, omega arith)

semantic_tokens_full_delta_lem_example :
    (reply : Reply) × ((semantic_tokens_full_delta document every_file one_token uri_a
        client.result_id cached).0
      ≡ ok reply)
    × ((follow reply client).tokens ≡ sent)
    × IsInStep uri_a
        (follow reply client)
        (semantic_tokens_full_delta document every_file one_token uri_a client.result_id cached).1
semantic_tokens_full_delta_lem_example =
    semantic_tokens_full_delta_lem document every_file one_token uri_a doc sent client cached serves
      cached-IsLinked room_cached (ground arith) client-IsInStep

-- The start of line 0 up to its tenth column.
abbrev range : Range
range = record {
  start = record { line = 0; character = 0 };
  stop = record { line = 0; character = 9 };
}

semantic_tokens_range_lem_example :
    (out : List ℕ) × (within : List SemanticToken) × (semantic_tokens_range document one_token uri_a
        range
      ≡ ok (full none out))
    × (decode out ≡ some within)
    × WithinOf range (token ∷ []) within
unfolding str_eq encode_semantic_tokens encode_loop encode_token append_validated_int ◌-ℤ◌
semantic_tokens_range_lem_example =
    semantic_tokens_range_lem document one_token uri_a doc range refl (ground arith) refl
