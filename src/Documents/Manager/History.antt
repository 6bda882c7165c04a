-- ===== src/Documents/Manager/History.antt =====
-- Histories of calls on the document manager.
use design_tokens_language_s.Prelude.{
  ◌≡◌, refl, ap, sym, ◌∙◌, false, some, List, [], ◌∷◌, arith, inl, inr, Bool-cases, Option-cases,
  All,
}
use design_tokens_language_s.Ints.{ℤ, ◌≤ℤ◌, pos_part, neg_part}
use design_tokens_language_s.GoString.{Bytes, str_eq}
use design_tokens_language_s.GoString.Laws.{str_eq_iff}
use design_tokens_language_s.GoMap.{lookup, insert, delete, IsMap}
use design_tokens_language_s.GoMap.Laws.{lookup-insert, lookup-delete, insert-IsMap, delete-IsMap}
use design_tokens_language_s.Documents.Document.{Document, new_document}
use design_tokens_language_s.Documents.Change.{ContentChange}
use design_tokens_language_s.Documents.Manager.{
  Manager, new_manager, did_open, did_close, did_change,
}
use design_tokens_language_s.Documents.Manager.Laws.{updated, did_change_state}

-- A notification of the client.
pub data Event : Type 0 where
  opened : Bytes → Bytes → ℤ → Bytes → Event
  changed : Bytes → ℤ → List ContentChange → Event
  closed : Bytes → Event

-- The documents after a notification, whether its method succeeds or not.
unfoldable pub handle : Event → Manager → Manager
handle (opened uri language_id v content) m = (did_open uri language_id v content m).1
handle (changed uri v cs) m = (did_change uri v cs m).1
handle (closed uri) m = (did_close uri m).1

unfoldable pub history : List Event → Manager → Manager
unfolding handle
history [] m = m
history (e ∷ es) m = history es (handle e m)

-- Each document is filed under its own URI, and no URI twice.
pub record IsConsistent (m : Manager) : Type 0 where
  pub is_map : IsMap m
  pub filed : (uri : Bytes) (d : Document) → lookup uri m ≡ some d → d.uri ≡ uri

insert-IsConsistent :
    (uri : Bytes) (d : Document) (m : Manager)
    → d.uri ≡ uri
    → IsConsistent m
    → IsConsistent (insert uri d m)
insert-IsConsistent uri d m e c = record {
  is_map = insert-IsMap uri d m c.is_map;
  filed = λ j x h. ground (arith, lookup-insert uri j d m, str_eq_iff uri j, c.filed j x);
}

delete-IsConsistent : (uri : Bytes) (m : Manager) → IsConsistent m → IsConsistent (delete uri m)
delete-IsConsistent uri m c = record {
  is_map = delete-IsMap uri m c.is_map;
  filed = λ j x h. ground (arith, lookup-delete uri j m, c.filed j x);
}

pub handle-IsConsistent : (e : Event) (m : Manager) → IsConsistent m → IsConsistent (handle e m)
unfolding handle did_open did_close new_document
handle-IsConsistent (opened uri language_id v content) m c =
    insert-IsConsistent uri (new_document uri language_id v content) m refl c
handle-IsConsistent (changed uri v cs) m c = elim (did_change_state uri v cs m) [
  | inl e ↦ rw e c
  | inr (d, out, a, e) ↦
      rw e (insert-IsConsistent uri (updated d out v) m (c.filed uri d a.is_open) c)
]
handle-IsConsistent (closed uri) m c = elim (Option-cases (lookup uri m)) [
  | inl e ↦ rw (e, handle, did_close) c
  | inr (d, e) ↦ rw (e, handle, did_close) (delete-IsConsistent uri m c)
]

-- After any notifications, from a consistent manager, every document is filed under its own URI,
-- once.
pub history-IsConsistent :
    (es : List Event) (m : Manager) → IsConsistent m → IsConsistent (history es m)
unfolding history
history-IsConsistent [] m c = c
history-IsConsistent (e ∷ es) m c = history-IsConsistent es (handle e m) (handle-IsConsistent e m c)

pub new_manager-IsConsistent : IsConsistent new_manager
unfolding lookup
new_manager-IsConsistent = record { is_map = tt; filed = λ uri d h. cc }

-- No notification opens or closes this document.
abbrev pub KeepsOpen : Bytes → Event → Type 0
KeepsOpen uri (opened u _ _ _) = str_eq u uri ≡ false
KeepsOpen uri (changed u _ _) = Unit
KeepsOpen uri (closed u) = str_eq u uri ≡ false

-- A document of that URI is open, at that version or a newer one.
abbrev pub OpenSince : Bytes → ℤ → Manager → Type 0
OpenSince uri v m = (d : Document) × (lookup uri m ≡ some d) × (v ≤ℤ d.version)

newer_version :
    {d' d : Document} (v w : ℤ) → some d' ≡ some d → v ≤ℤ d.version → d'.version ≤ℤ w → v ≤ℤ w
newer_version {d'} {d} v w e n a =
    let same : d' ≡ d = cc in
    omega (
      arith,
      ap (λ (x : Document). pos_part x.version) same,
      ap (λ (x : Document). neg_part x.version) same,
    )

handle-OpenSince :
    (uri : Bytes) (v : ℤ) (e : Event) (m : Manager)
    → KeepsOpen uri e
    → OpenSince uri v m
    → OpenSince uri v (handle e m)
unfolding handle did_open did_close
handle-OpenSince uri v (opened u language_id w content) m k (d, h, n) =
    (d, rw (lookup-insert, k) h, n)
handle-OpenSince uri v (closed u) m k (d, h, n) = (d, ground (arith, lookup-delete u uri m), n)
handle-OpenSince uri v (changed u w cs) m k (d, h, n) = elim (did_change_state u w cs m) [
  | inl e ↦ rw e (d, h, n)
  | inr (d', out, a, e) ↦ elim (Bool-cases (str_eq u uri)) [
    | inr f ↦ (d, rw (e, lookup-insert, f) h, n)
    | inl f ↦ (
      updated d' out w,
      rw (e, lookup-insert, f),
      newer_version v w (sym a.is_open ∙ ap (λ x. lookup x m) ((str_eq_iff u uri).0 f) ∙ h) n
          a.newer,
    )
  ]
]

-- Through any notifications that neither open nor close a document, it stays open and its version
-- never goes back.
pub history-OpenSince :
    (uri : Bytes) (v : ℤ) (es : List Event) (m : Manager)
    → All (KeepsOpen uri) es
    → OpenSince uri v m
    → OpenSince uri v (history es m)
unfolding history
history-OpenSince uri v [] m k o = o
history-OpenSince uri v (e ∷ es) m (k, ks) o =
    history-OpenSince uri v es (handle e m) ks (handle-OpenSince uri v e m k o)
