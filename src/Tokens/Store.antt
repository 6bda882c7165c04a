-- ===== src/Tokens/Store.antt =====
-- Adding and removing tokens: the entries of the manager, and their number.
use mathlib.Core.Path.{subst}
use design_tokens_language_s.Prelude.{
  suc, ◌+◌, ◌≡◌, ◌⊎◌, inl, inr, refl, ap, sym, [], ◌∷◌, arith, Bool-cases, Option-cases,
  if◌then◌else◌, Option, none, some, length,
}
use design_tokens_language_s.Outcome.{ok, err}
use design_tokens_language_s.GoString.{Bytes, str_eq}
use design_tokens_language_s.GoString.Laws.{str_eq_iff}
use design_tokens_language_s.GoMap.{lookup, insert, delete, Fresh, IsMap}
use design_tokens_language_s.GoMap.Laws.{lookup-insert, insert-IsMap, length-insert}
use design_tokens_language_s.Tokens.{
  Token, Manager, make_key, add, remove, remove_first, names_entry, count, get_qualified,
  token_not_found, remove_by_source_file,
}

-- After a token is added, its file and name lead to it, and every other key to what it led to before.
pub get_qualified-add :
    (t : Token) (name file : Bytes) (m : Manager)
    → get_qualified name file (add (some t) m).1 ≡ (
        if str_eq (make_key t.file_path t.name) (make_key file name)
        then some t
        else get_qualified name file m)
unfolding get_qualified add
get_qualified-add t name file m =
    lookup-insert (make_key t.file_path t.name) (make_key file name) t m

-- The count grows by one, unless the key was there: then the token is replaced.
pub count-add :
    (t : Token) (m : Manager)
    → count (add (some t) m).1
      ≡ elim (get_qualified t.name t.file_path m) [ none ↦ suc (count m) | some _ ↦ count m ]
unfolding count add get_qualified
count-add t m = length-insert (make_key t.file_path t.name) t m

-- Each token stands under the key of its file and name.
abbrev pub Correct : Manager → Type 0
Correct [] = Unit
Correct ((key, t) ∷ m) = (key ≡ make_key t.file_path t.name) × Correct m

-- So does every token of the manager, and no key stands twice.
pub record IsKeyed (m : Manager) : Type 0 where
  pub is_map : IsMap m
  pub correct : Correct m

insert-Correct :
    (t : Token) (m : Manager) → Correct m → Correct (insert (make_key t.file_path t.name) t m)
unfolding insert
insert-Correct t [] c = (refl, tt)
insert-Correct t ((j, u) ∷ m) (c, cs) = elim (Bool-cases (str_eq j (make_key t.file_path t.name))) [
  | inl e ↦ rw e (refl, cs)
  | inr e ↦ rw e (c, insert-Correct t m cs)
]

delete-Correct : (k : Bytes) (m : Manager) → Correct m → Correct (delete k m)
unfolding delete
delete-Correct k [] c = tt
delete-Correct k ((j, u) ∷ m) (c, cs) = elim (Bool-cases (str_eq j k)) [
  | inl e ↦ rw e (delete-Correct k m cs)
  | inr e ↦ rw e (c, delete-Correct k m cs)
]

-- A sub-list of the entries, in order.
data Part : Manager → Manager → Type 0 where
  nothing : Part [] []
  left_out : {e : Bytes × Token} {m m' : Manager} → Part m' m → Part m' (e ∷ m)
  kept : {e : Bytes × Token} {m m' : Manager} → Part m' m → Part (e ∷ m') (e ∷ m)

Part-refl : (m : Manager) → Part m m
Part-refl [] = nothing
Part-refl (e ∷ m) = kept (Part-refl m)

Part-Fresh : (k : Bytes) {m' m : Manager} → Part m' m → Fresh k m → Fresh k m'
Part-Fresh k nothing f = tt
Part-Fresh k (left_out p) f = Part-Fresh k p f.1
Part-Fresh k (kept p) f = (f.0, Part-Fresh k p f.1)

Part-IsMap : {m' m : Manager} → Part m' m → IsMap m → IsMap m'
Part-IsMap nothing h = tt
Part-IsMap (left_out p) h = Part-IsMap p h.1
Part-IsMap (kept p) h = (Part-Fresh _ p h.0, Part-IsMap p h.1)

Part-Correct : {m' m : Manager} → Part m' m → Correct m → Correct m'
Part-Correct nothing h = tt
Part-Correct (left_out p) h = Part-Correct p h.1
Part-Correct (kept p) h = (h.0, Part-Correct p h.1)

Part-IsKeyed : {m' m : Manager} → Part m' m → IsKeyed m → IsKeyed m'
Part-IsKeyed p k = record { is_map = Part-IsMap p k.is_map; correct = Part-Correct p k.correct }

remove_by_source_file-Part : (file : Bytes) (m : Manager) → Part (remove_by_source_file file m).1 m
unfolding remove_by_source_file
remove_by_source_file-Part file [] = nothing
remove_by_source_file-Part file ((key, t) ∷ m) = elim (Bool-cases (str_eq t.file_path file)) [
  | inl e ↦ rw e (left_out (remove_by_source_file-Part file m))
  | inr e ↦ rw e (kept (remove_by_source_file-Part file m))
]

abbrev OneLess : Manager → Manager → Type 0
OneLess m m' = Part m' m × (length m ≡ suc (length m'))

-- One entry gone: what a search for a name deletes.
remove_first-Part : (name : Bytes) (m m' : Manager) → remove_first name m ≡ some m' → OneLess m m'
unfolding remove_first
remove_first-Part name [] m' h = cc
remove_first-Part name ((key, t) ∷ m) m' h = elim (Bool-cases (names_entry name key t)) [
  | inl e ↦
      let s : m ≡ m' = ground arith in
      subst (OneLess ((key, t) ∷ m)) s (left_out (Part-refl m), refl)
  | inr e ↦ elim (Option-cases (remove_first name m)) [
    | inl f ↦ absurd (ground arith)
    | inr (rest, f) ↦
        let s : (key, t) ∷ rest ≡ m' = ground arith in
        let (p, n) = remove_first-Part name m rest f in
        subst (OneLess ((key, t) ∷ m)) s (kept p, ap suc n)
  ]
]

delete-Part : (k : Bytes) (m : Manager) → Part (delete k m) m
unfolding delete
delete-Part k [] = nothing
delete-Part k ((j, t) ∷ m) = elim (Bool-cases (str_eq j k)) [
  | inl e ↦ rw e (left_out (delete-Part k m))
  | inr e ↦ rw e (kept (delete-Part k m))
]

delete-Fresh : (k : Bytes) (m : Manager) → Fresh k m → delete k m ≡ m
unfolding delete
delete-Fresh k [] f = refl
delete-Fresh k ((j, t) ∷ m) f = rw f.0 (ap (λ r. (j, t) ∷ r) (delete-Fresh k m f.1))

length-delete :
    (k : Bytes) (t : Token) (m : Manager)
    → IsMap m
    → lookup k m ≡ some t
    → length m ≡ suc (length (delete k m))
unfolding delete lookup
length-delete k t [] h e = cc
length-delete k t ((j, u) ∷ m) (f, h) e = elim (Bool-cases (str_eq j k)) [
  | inl s ↦ rw s (ap (λ r. suc (length r)) (sym (delete-Fresh k m (rw (← (str_eq_iff j k).0 s) f))))
  | inr s ↦ rw s (ap suc (length-delete k t m h (rw s at e)))
]

-- A Remove that fails changes nothing; one that succeeds takes out exactly one entry.
remove-cases :
    (name : Bytes) (m : Manager)
    → IsMap m
    → (((remove name m).0 ≡ err (token_not_found name)) × ((remove name m).1 ≡ m))
      ⊎ (((remove name m).0 ≡ ok tt) × OneLess m (remove name m).1)
unfolding remove
remove-cases name m h = elim (Option-cases (lookup name m)) [
  | inr (t, e) ↦
      inr (rw (e, remove), rw (e, remove) (delete-Part name m, length-delete name t m h e))
  | inl e ↦ elim (Option-cases (remove_first name m)) [
    | inl f ↦ inl (ground arith, ground arith)
    | inr (m', f) ↦ inr (ground arith, rw (e, remove, f, remove) (remove_first-Part name m m' f))
  ]
]

pub add-IsKeyed : (o : Option Token) (m : Manager) → IsKeyed m → IsKeyed (add o m).1
unfolding add
add-IsKeyed none m k = k
add-IsKeyed (some t) m k = record {
  is_map = insert-IsMap (make_key t.file_path t.name) t m k.is_map;
  correct = insert-Correct t m k.correct;
}

-- Add, Remove and RemoveBySourceFile keep each token under the key of its file and name, and no
-- key twice.
pub operations-IsKeyed :
    (o : Option Token) (name file : Bytes) (m : Manager)
    → IsKeyed m
    → IsKeyed (add o m).1 × IsKeyed (remove name m).1 × IsKeyed (remove_by_source_file file m).1
operations-IsKeyed o name file m k = (
  add-IsKeyed o m k,
  elim (remove-cases name m k.is_map) [ inl (_, e) ↦ rw e k | inr (_, p) ↦ Part-IsKeyed p.0 k ],
  Part-IsKeyed (remove_by_source_file-Part file m) k,
)

-- A Remove on a keyed manager takes exactly one entry out, or returns an error and leaves the
-- manager as it was.
pub count-remove :
    (name : Bytes) (m : Manager)
    → IsKeyed m
    → (((remove name m).0 ≡ err (token_not_found name)) × ((remove name m).1 ≡ m))
      ⊎ (((remove name m).0 ≡ ok tt) × (count m ≡ count (remove name m).1 + 1))
unfolding count
count-remove name m k = elim (remove-cases name m k.is_map) [
  | inl h ↦ inl h
  | inr (h, p) ↦ inr (h, omega (arith, p.1))
]
