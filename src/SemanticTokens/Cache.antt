-- ===== src/SemanticTokens/Cache.antt =====
-- lsp/methods/textDocument/semanticTokens/cache.go. Each method runs under the lock; an entry is
-- copied on its way in and out, so it is a value here.
pub mod Laws
pub mod Latest
pub mod Invalidate
use design_tokens_language_s.Prelude.{
  ℕ, ◌+◌, ◌%◌, ◌^◌, Option, none, some, List, [], ◌∷◌, ◌++◌, if◌then◌else◌,
}
use design_tokens_language_s.Ints.{ℤ}
use design_tokens_language_s.GoString.{Bytes, ascii, str_eq}
use design_tokens_language_s.GoString.Decimal.{decimal}
use design_tokens_language_s.GoMap.{GoMap, lookup, insert, delete}

-- types.SemanticTokenCacheEntry
pub record CacheEntry : Type 0 where
  pub result_id : Bytes
  pub tokens : List ℕ
  pub version : ℤ

-- internalEntry
pub record InternalEntry : Type 0 where
  pub cached : CacheEntry
  pub uri : Bytes

pub record TokenCache : Type 0 where
  pub by_result_id : GoMap InternalEntry
  pub by_uri : GoMap InternalEntry
  pub counter : ℕ

-- NewTokenCache
abbrev pub new_token_cache : TokenCache
new_token_cache = record { by_result_id = []; by_uri = []; counter = 0 }

-- fmt.Sprintf("st-%d", id)
unfoldable pub result_id_of : ℕ → Bytes
result_id_of id = ascii "st-" ++ decimal id

-- atomic.AddUint64(&c.counter, 1)
abbrev pub next_id : TokenCache → ℕ
next_id c = (c.counter + 1) % 2 ^ 64

-- the old entry of a URI, taken out of the first map
unfoldable pub drop_old : Bytes → TokenCache → GoMap InternalEntry
drop_old uri c = elim (lookup uri c.by_uri) [
  | none ↦ c.by_result_id
  | some old ↦ delete old.cached.result_id c.by_result_id
]

-- Store: the result ID, and the cache
unfoldable pub store : Bytes → List ℕ → ℤ → TokenCache → Bytes × TokenCache
store uri tokens version c =
    let result_id = result_id_of (next_id c) in
    let e : InternalEntry = record {
      cached = record { result_id = result_id; tokens = tokens; version = version };
      uri = uri;
    } in
    (
      result_id,
      record {
        by_result_id = insert result_id e (drop_old uri c);
        by_uri = insert uri e c.by_uri;
        counter = next_id c;
      },
    )

-- copyEntry
abbrev pub copy_entry : Option InternalEntry → Option CacheEntry
copy_entry none = none
copy_entry (some e) = some e.cached

-- Get
unfoldable pub get : Bytes → TokenCache → Option CacheEntry
get result_id c = copy_entry (lookup result_id c.by_result_id)

-- GetForURI
unfoldable pub get_for_uri : Bytes → Bytes → TokenCache → Option CacheEntry
get_for_uri result_id uri c = elim (lookup result_id c.by_result_id) [
  | none ↦ none
  | some e ↦ if str_eq e.uri uri then some e.cached else none
]

-- GetByURI
unfoldable pub get_by_uri : Bytes → TokenCache → Option CacheEntry
get_by_uri uri c = copy_entry (lookup uri c.by_uri)

-- Invalidate
unfoldable pub invalidate : Bytes → TokenCache → TokenCache
invalidate uri c = elim (lookup uri c.by_uri) [
  | none ↦ c
  | some e ↦ record c {
    by_result_id = delete e.cached.result_id c.by_result_id;
    by_uri = delete uri c.by_uri;
  }
]
