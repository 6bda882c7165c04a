-- ===== src/Documents/Manager/Laws.antt =====
-- What the methods of the document manager do to the document that they name and to the others.
use design_tokens_language_s.Prelude.{
  ◌≡◌, ◌≢◌, ap, false, some, List, arith, Option-cases, inl, inr, ◌⊎◌,
}
use design_tokens_language_s.Ints.{ℤ, ◌≤ℤ◌}
use design_tokens_language_s.GoString.{Bytes, str_eq}
use design_tokens_language_s.GoMap.{lookup, insert}
use design_tokens_language_s.GoMap.Laws.{lookup-insert, lookup-delete}
use design_tokens_language_s.Outcome.{ok, panicked, Outcome-cases}
use design_tokens_language_s.Documents.Document.{Document, set_content}
use design_tokens_language_s.Documents.Change.{ContentChange, apply_changes}
use design_tokens_language_s.Documents.Change.Edits.{
  Edits, apply_changes_iff-Edits, apply_changes-ne-panicked,
}
use design_tokens_language_s.Documents.Manager.{Manager, get, did_open, did_close, did_change}

-- A didChange that returns an error has changed no document.
pub did_change_error :
    (uri : Bytes) (v : ℤ) (cs : List ContentChange) (m : Manager)
    → (did_change uri v cs m).0 ≢ ok tt
    → (did_change uri v cs m).1 ≡ m
unfolding did_change set_content
did_change_error uri v cs m h = ground arith

abbrev pub updated : Document → Bytes → ℤ → Document
updated d content v = record d { content = content; version = v }

-- A document is open, the changes are edits of its content, and the version is not older than its.
pub record Accepts (uri : Bytes) (v : ℤ) (cs : List ContentChange) (m : Manager) (d : Document)
    (out : Bytes) : Type 0 where
  pub is_open : lookup uri m ≡ some d
  pub edited : Edits d.content cs out
  pub newer : d.version ≤ℤ v

accepted_runs :
    (uri : Bytes) (v : ℤ) (cs : List ContentChange) (m : Manager) (d : Document) (out : Bytes)
    → Accepts uri v cs m d out
    → did_change uri v cs m ≡ (ok tt, insert uri (updated d out v) m)
unfolding did_change set_content
accepted_runs uri v cs m d out a =
    let e = (apply_changes_iff-Edits d.content out cs).1 a.edited in ground (arith, e)

-- What a successful didChange went through.
accepted_only :
    (uri : Bytes) (v : ℤ) (cs : List ContentChange) (m : Manager)
    → (did_change uri v cs m).0 ≡ ok tt
    → (d : Document) × (out : Bytes) × Accepts uri v cs m d out
unfolding did_change set_content
accepted_only uri v cs m h = elim (Option-cases (lookup uri m)) [
  | inl e ↦ absurd (ground arith)
  | inr (d, e) ↦ elim (Outcome-cases (apply_changes d.content cs)) [
    | inl (out, f) ↦ (
      d,
      out,
      record {
        is_open = e;
        edited = (apply_changes_iff-Edits d.content out cs).0 f;
        newer = ground (arith, f);
      },
    )
    | inr f ↦ absurd (ground (arith, f))
  ]
]

-- There are a document and a content that a didChange with these changes and version leads to.
abbrev pub Accepted : Bytes → ℤ → List ContentChange → Manager → Type 0
Accepted uri v cs m = (d : Document) × (out : Bytes) × Accepts uri v cs m d out

-- A didChange is accepted or refused. It is accepted if the document is open, its changes are
-- edits of its content in the sense of the specification, and the version is not older than the
-- one of the document: then it succeeds, that document has the edited content and the new
-- version, and nothing else has changed. It is refused if there are no such document and edits:
-- then it fails, and nothing has changed.
pub did_change_lem :
    (uri : Bytes) (v : ℤ) (cs : List ContentChange) (m : Manager)
    → ((d : Document) × (out : Bytes) × Accepts uri v cs m d out
        × (did_change uri v cs m ≡ (ok tt, insert uri (updated d out v) m)))
      ⊎ (¬ Accepted uri v cs m
          × ((did_change uri v cs m).0 ≢ ok tt)
          × ((did_change uri v cs m).1 ≡ m))
did_change_lem uri v cs m = elim (Outcome-cases (did_change uri v cs m).0) [
  | inl (u, h) ↦
      let (d, out, a) = accepted_only uri v cs m h in
      inl (d, out, a, accepted_runs uri v cs m d out a)
  | inr h ↦
      let fails : (did_change uri v cs m).0 ≢ ok tt =
        λ e. elim h [ inl (x, f) ↦ cc | inr f ↦ cc ] in
      inr (
        λ r. let (d, out, a) = r in fails (ap (λ p. p.0) (accepted_runs uri v cs m d out a)),
        fails,
        did_change_error uri v cs m fails,
      )
]

-- No didChange panics, whatever positions its changes name.
pub did_change-ne-panicked :
    (uri : Bytes) (v : ℤ) (cs : List ContentChange) (m : Manager)
    → (did_change uri v cs m).0 ≢ panicked
unfolding did_change set_content
did_change-ne-panicked uri v cs m h = elim (Option-cases (lookup uri m)) [
  | inl e ↦ absurd (ground arith)
  | inr (d, e) ↦ absurd (ground (arith, apply_changes-ne-panicked d.content cs))
]

-- The documents after a didChange: as before, or with a newer version of the one named.
pub did_change_state :
    (uri : Bytes) (v : ℤ) (cs : List ContentChange) (m : Manager)
    → ((did_change uri v cs m).1 ≡ m)
      ⊎ ((d : Document) × (out : Bytes) × Accepts uri v cs m d out
          × ((did_change uri v cs m).1 ≡ insert uri (updated d out v) m))
did_change_state uri v cs m = elim (did_change_lem uri v cs m) [
  | inl (d, out, a, e) ↦ inr (d, out, a, ap (λ p. p.1) e)
  | inr (n, f, e) ↦ inl e
]

change_keeps_other :
    (uri other : Bytes) (v : ℤ) (cs : List ContentChange) (m : Manager)
    → str_eq uri other ≡ false
    → get other (did_change uri v cs m).1 ≡ get other m
unfolding get
change_keeps_other uri other v cs m h = elim (did_change_state uri v cs m) [
  | inl e ↦ rw e
  | inr (d, out, a, e) ↦ rw (e, lookup-insert, h)
]

-- Opening, changing or closing a document, whether that succeeds or fails, leaves every document
-- with another URI as it was.
pub other_documents :
    (uri other language_id content : Bytes) (v : ℤ) (cs : List ContentChange) (m : Manager)
    → str_eq uri other ≡ false
    → (get other (did_open uri language_id v content m).1 ≡ get other m)
      × (get other (did_change uri v cs m).1 ≡ get other m)
      × (get other (did_close uri m).1 ≡ get other m)
unfolding get did_open did_close did_change set_content
other_documents uri other language_id content v cs m h = (
  rw (lookup-insert, h),
  change_keeps_other uri other v cs m h,
  ground (arith, lookup-delete uri other m),
)
