-- ===== src/Server/Session/Sound.antt =====
-- What holds of the server throughout a session.
use design_tokens_language_s.Prelude.{
  ◌+◌, ◌^◌, ◌<◌, ◌≡◌, refl, ap, List, [], ◌∷◌, length, inl, inr, arith,
}
use design_tokens_language_s.Ints.{ℤ}
use design_tokens_language_s.Outcome.{Outcome-cases}
use design_tokens_language_s.GoString.{Bytes}
use design_tokens_language_s.GoMap.{lookup}
use design_tokens_language_s.Documents
use design_tokens_language_s.Documents.Manager.History.{new_manager-IsConsistent}
use design_tokens_language_s.Documents.Change.{ContentChange}
use design_tokens_language_s.SemanticTokens.Cache.{TokenCache}
use design_tokens_language_s.SemanticTokens.Cache.Laws.{HasRoom, new_token_cache-IsLinked}
use design_tokens_language_s.SemanticTokens.Cache.Invalidate.{counter_invalidate}
use design_tokens_language_s.Server.{Server, new_server}
use design_tokens_language_s.Server.Environment.{Environment}
use design_tokens_language_s.Server.Loading.Frame.{ResolvesInPlace}
use design_tokens_language_s.Server.Notifications.{did_open, did_change, did_close}
use design_tokens_language_s.Server.Session.{
  Event, initialize_request, initialized_notice, opened, changed, closed, watched_files, configured,
  tokens_full, tokens_delta, request_full, request_delta, step, run,
}
use design_tokens_language_s.Server.Session.Parts.{
  IsSound, Counted, Calm-IsSound, opened-IsSound, changed-IsSound, closed-IsSound, full-Caches,
  delta-Caches, cached-IsSound,
}
use design_tokens_language_s.Server.Session.Calm.{
  Calm, auto_load-Calm, did_change_watched_files-Calm, did_change_configuration-Calm,
  initialize-Calm, initialized-Calm,
}

module _ (env : Environment) (in_place : ResolvesInPlace env) where
  Calm-Counted :
      {s s' : Server} → IsSound s → Calm s s' → IsSound s' × Counted s.token_cache s'.token_cache
  Calm-Counted {s} {s'} i c =
      (Calm-IsSound c i, omega (arith, ap (λ (x : TokenCache). x.counter) c.cache_same))

  open_step :
      (uri language_id content : Bytes) (version : ℤ) (s : Server)
      → IsSound s
      → IsSound (did_open env uri language_id version content s).1
        × Counted s.token_cache (did_open env uri language_id version content s).1.token_cache
  unfolding did_open Documents.Manager.did_open
  open_step uri language_id content version s i =
      Calm-Counted (opened-IsSound uri language_id content version s i)
        (auto_load-Calm env in_place uri language_id content _)

  change_step :
      (uri : Bytes) (version : ℤ) (changes : List ContentChange) (s : Server)
      → (did_change env uri version changes s).1
        ≡ record s { documents = (Documents.Manager.did_change uri version changes s.documents).1 }
  unfolding did_change
  change_step uri version changes s =
      elim (Outcome-cases (Documents.Manager.did_change uri version changes s.documents).0) [
        | inl (u, e) ↦ rw (e, did_change) refl
        | inr (inl (x, e)) ↦ rw (e, did_change) refl
        | inr (inr e) ↦ rw (e, did_change) refl
      ]

  pub step-IsSound :
      (e : Event) (s : Server)
      → IsSound s
      → HasRoom s.token_cache
      → IsSound (step env e s) × Counted s.token_cache (step env e s).token_cache
  unfolding step did_close request_full request_delta Documents.Manager.get
  step-IsSound (initialize_request pulls params) s i room =
      Calm-Counted i (initialize-Calm env in_place pulls params s)
  step-IsSound (initialized_notice context) s i room =
      Calm-Counted i (initialized-Calm env in_place context s)
  step-IsSound (watched_files changes) s i room =
      Calm-Counted i (did_change_watched_files-Calm env in_place changes s)
  step-IsSound (configured context settings) s i room =
      Calm-Counted i (did_change_configuration-Calm env in_place context settings s)
  step-IsSound (closed uri) s i room =
      (closed-IsSound uri s i, omega (arith, counter_invalidate uri s.token_cache))
  step-IsSound (tokens_full uri) s i room =
      cached-IsSound uri s _ i room (full-Caches _ _ _ uri s.documents s.token_cache (λ doc h. h))
  step-IsSound (tokens_delta uri id) s i room =
      cached-IsSound uri s _ i room
        (delta-Caches _ _ _ uri id s.documents s.token_cache (λ doc h. h))
  step-IsSound (opened uri language_id version content) s i room =
      open_step uri language_id content version s i
  step-IsSound (changed uri version changes) s i room =
      rw (change_step uri version changes s) (changed-IsSound uri version changes s i, omega arith)

  -- If resolving aliases neither renames tokens nor moves them to another file, then every
  -- session whose events the counter of the token cache has room for keeps a sound server sound:
  -- documents under their own URIs, tokens under the keys of their files and names, the two maps
  -- of the token cache in agreement, and cached tokens for open documents only.
  pub run-IsSound :
      (es : List Event) (s : Server)
      → IsSound s
      → s.token_cache.counter + length es < 2 ^ 64
      → IsSound (run env es s)
  unfolding run
  run-IsSound [] s i room = i
  run-IsSound (e ∷ es) s i room =
      let (sound, counted) = step-IsSound e s i (omega (arith, room)) in
      run-IsSound es (step env e s) sound (omega (arith, room, counted))

pub new_server-IsSound : IsSound new_server
unfolding lookup
new_server-IsSound = record {
  consistent = new_manager-IsConsistent;
  keyed = record { is_map = tt; correct = tt };
  linked = new_token_cache-IsLinked;
  caches_open = λ uri e h. absurd (ground arith);
}
