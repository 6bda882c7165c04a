-- ===== src/Paths/Npm/Exports.antt =====
-- Export patterns: matching against expanding.
use design_tokens_language_s.Prelude.{
  ℕ, ◌-◌, ◌≤◌, ◌≡◌, refl, sym, ap, ◌∙◌, inl, inr, true, some, List, [], ◌∷◌, ◌++◌, ◌==◌, length,
  drop, take, Bool-cases, arith, take-drop-drop,
}
use design_tokens_language_s.GoString.{
  join, Bytes, ascii, has_prefix, has_suffix, contains, split, before_first,
}
use design_tokens_language_s.GoString.Laws.{str_eq_sound, join-split}
use design_tokens_language_s.Paths.Npm.{match_parts, match_export_pattern, replace_star}

has_prefix-take : (s p : Bytes) → has_prefix s p ≡ true → take (length p) s ≡ p
unfolding has_prefix
has_prefix-take s [] h = ground arith
has_prefix-take [] (d ∷ p) h = cc
has_prefix-take (c ∷ s) (d ∷ p) h = ground (arith, has_prefix-take s p)

split_nil : (s p : Bytes) → split b'*' s ≡ p ∷ [] → s ≡ p
split_nil s p h = sym (join-split b'*' s) ∙ ap (join b'*') h

cons_parts : (x y : Bytes) (xs ys : List Bytes) → x ∷ xs ≡ y ∷ ys → (x ≡ y) × (xs ≡ ys)
cons_parts x y xs ys h = (cc, cc)

before_first-parts :
    (x : ℕ) (ps : List Bytes) (p q : Bytes)
    → before_first x ps ≡ p ∷ q ∷ []
    → (r : Bytes) × (ps ≡ r ∷ q ∷ []) × (p ≡ x ∷ r)
before_first-parts x [] p q h = cc
before_first-parts x (r ∷ ps) p q h =
    let (a, b) = cons_parts (x ∷ r) p ps (q ∷ []) h in (r, ap (λ ys. r ∷ ys) b, sym a)

-- The first star stands between the two parts.
replace_star-split :
    (s prefix suffix t : Bytes)
    → split b'*' s ≡ prefix ∷ suffix ∷ []
    → replace_star s t ≡ prefix ++ (t ++ suffix)
unfolding replace_star split
replace_star-split [] prefix suffix t h = cc
replace_star-split (x ∷ s) prefix suffix t h = elim (Bool-cases (x == b'*')) [
  | inl e ↦
      let (a, b) = cons_parts [] prefix (split b'*' s) (suffix ∷ []) (rw e at h) in
      rw e (ap (λ q. t ++ q) (split_nil s suffix b) ∙ ap (λ q. q ++ (t ++ suffix)) a)
  | inr e ↦
      let (r, a, b) = before_first-parts x (split b'*' s) prefix suffix (rw e at h) in
      rw e
        (ap (λ q. x ∷ q) (replace_star-split s r suffix t a) ∙ ap (λ q. q ++ (t ++ suffix)) (sym b))
]

has_suffix-drop :
    (s p : Bytes)
    → has_suffix s p ≡ true
    → (drop (length s - length p) s ≡ p) × (length p ≤ length s)
unfolding has_suffix
has_suffix-drop s p h = (str_eq_sound _ _ (ground arith), ground arith)

match_parts_lem :
    (prefix suffix path t : Bytes)
    → match_parts (prefix ∷ suffix ∷ []) path ≡ some t
    → prefix ++ (t ++ suffix) ≡ path
unfolding match_parts
match_parts_lem prefix suffix path t h =
    let stop = length path - length suffix in
    let starts : has_prefix path prefix ≡ true = ground arith in
    let ends : has_suffix path suffix ≡ true = ground arith in
    let order : length prefix ≤ stop = ground arith in
    let between : some (drop (length prefix) (take stop path)) ≡ some t = ground arith in
    let same : drop (length prefix) (take stop path) ≡ t = cc in
    let (tail, fits) = has_suffix-drop path suffix ends in
    ap (λ p. p ++ (t ++ suffix)) (sym (has_prefix-take path prefix starts))
    ∙ ap (λ q. take (length prefix) path ++ (q ++ suffix)) (sym same)
    ∙ ap (λ q. take (length prefix) path ++ (drop (length prefix) (take stop path) ++ q)) (sym tail)
    ∙ take-drop-drop (length prefix) stop path order

parts_expand :
    (ps : List Bytes) (pattern path t : Bytes)
    → split b'*' pattern ≡ ps
    → match_parts ps path ≡ some t
    → replace_star pattern t ≡ path
unfolding match_parts
parts_expand [] pattern path t e m = cc
parts_expand (p ∷ []) pattern path t e m = cc
parts_expand (p ∷ q ∷ []) pattern path t e m =
    replace_star-split pattern p q t e ∙ match_parts_lem p q path t m
parts_expand (p ∷ q ∷ r ∷ ps) pattern path t e m = cc

-- The text that the wildcard of an export pattern stands for, put in the place of the wildcard,
-- gives the requested path.
pub match_export_pattern-expands :
    (pattern path t : Bytes)
    → match_export_pattern pattern path ≡ some t
    → replace_star pattern t ≡ path
unfolding match_export_pattern
match_export_pattern-expands pattern path t h = elim (Bool-cases (contains pattern (ascii "*"))) [
  | inr c ↦ absurd (ground (arith, c))
  | inl c ↦
      parts_expand (split b'*' pattern) pattern path t refl (rw (c, match_export_pattern) at h)
]
