-- ===== src/Tests/Managers.antt =====
-- The document manager on a short session.
use design_tokens_language_s.Prelude.{◌⊎◌, List, ◌≡◌, ◌≢◌, refl, none, [], ◌∷◌, arith}
use design_tokens_language_s.Ints.{pos}
use design_tokens_language_s.Outcome.{ok, err, panicked}
use design_tokens_language_s.GoString.{Bytes, ascii, str_eq}
use design_tokens_language_s.GoMap.{lookup, insert, delete}
use design_tokens_language_s.Documents.Document.{Document, set_content, stale}
use design_tokens_language_s.Documents.Change.{ContentChange, apply_changes}
use design_tokens_language_s.Documents.Manager.{
  Manager, get, did_open, did_close, did_change, failed_to_set_content, document_not_found,
}
use design_tokens_language_s.Documents.Manager.Laws.{
  did_change_lem, other_documents, Accepted, did_change-ne-panicked, Accepts, updated,
}
use design_tokens_language_s.Documents.Manager.History.{
  Event, changed, opened, closed, history, OpenSince, history-OpenSince,
}

abbrev uri : Bytes
uri = ascii "file:///a.css"

abbrev css : Bytes
css = ascii "css"

abbrev doc : Document
doc = record { uri = uri; language_id = css; content = ascii "a{}"; version = pos 4 }

abbrev session : Manager
session = (uri, doc) ∷ []

abbrev rewrite : List ContentChange
rewrite = record { range = none; text = ascii "b{}" } ∷ []

stale_run :
    did_change uri (pos 3) rewrite session
    ≡ (err (failed_to_set_content (stale (pos 4) (pos 3))), session)
unfolding did_change lookup str_eq apply_changes set_content
stale_run = refl

close_twice : (did_close uri (did_close uri session).1).0 ≡ err (document_not_found uri)
unfolding did_close lookup str_eq delete
close_twice = refl

did_change_lem_example :
    ((d : Document) × (out : Bytes) × Accepts uri (pos 5) rewrite session d out
      × (did_change uri (pos 5) rewrite session
          ≡ (ok tt, insert uri (updated d out (pos 5)) session)))
    ⊎ (¬ Accepted uri (pos 5) rewrite session
        × ((did_change uri (pos 5) rewrite session).0 ≢ ok tt)
        × ((did_change uri (pos 5) rewrite session).1 ≡ session))
did_change_lem_example = did_change_lem uri (pos 5) rewrite session

abbrev other : Bytes
other = ascii "file:///b.css"

other_documents_example :
    (get other (did_open uri css (pos 5) [] session).1 ≡ get other session)
    × (get other (did_change uri (pos 5) rewrite session).1 ≡ get other session)
    × (get other (did_close uri session).1 ≡ get other session)
unfolding str_eq
other_documents_example = other_documents uri other css [] (pos 5) rewrite session refl

did_change-ne-panicked_example : (did_change uri (pos 5) rewrite session).0 ≢ panicked
did_change-ne-panicked_example = did_change-ne-panicked uri (pos 5) rewrite session

abbrev events : List Event
events = opened uri css (pos 1) [] ∷ changed uri (pos 2) rewrite ∷ closed uri ∷ []

abbrev later : List Event
later = changed uri (pos 6) rewrite ∷ changed uri (pos 5) rewrite ∷ []

history-OpenSince_example : OpenSince uri (pos 4) (history later session)
unfolding lookup str_eq
history-OpenSince_example =
    history-OpenSince uri (pos 4) later session (tt, (tt, tt)) (doc, refl, omega arith)
