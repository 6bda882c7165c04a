-- ===== src/Tokens/Find.antt =====
-- What Get finds. Its loop takes the first entry that passes, in an order that Go leaves open, so the
-- statements hold for every order.
use design_tokens_language_s.Prelude.{
  ◌≡◌, ◌≢◌, ◌⊎◌, inl, inr, ap, sym, ◌∙◌, true, [], ◌∷◌, ◌||◌, arith, Bool-cases, Option-cases, none,
  some,
}
use design_tokens_language_s.GoString.{Bytes, str_eq, has_suffix}
use design_tokens_language_s.GoString.Laws.{
  str_eq_iff, str_eq_refl, has_suffix-append, has_suffix_split,
}
use design_tokens_language_s.GoMap.{lookup}
use design_tokens_language_s.Tokens.{Token, Manager, make_key, colon, search_name, scan, get}
use design_tokens_language_s.Tokens.Keys.{Lacks, make_key_cases, no_bare_key, same_parts}
use design_tokens_language_s.Tokens.Store.{IsKeyed, Correct}

-- No name holds a colon.
abbrev pub PlainNames : Manager → Type 0
PlainNames [] = Unit
PlainNames ((key, t) ∷ m) = Lacks colon t.name × PlainNames m

-- Some entry holds the token.
abbrev pub Holds : Manager → Token → Type 0
Holds [] u = ⊥
Holds ((key, t) ∷ m) u = (t ≡ u) ⊎ Holds m u

suffix_is_name :
    (f n name : Bytes)
    → Lacks colon n
    → Lacks colon name
    → has_suffix (make_key f n) (colon ∷ name) ≡ true
    → n ≡ name
suffix_is_name f n name hn hname h =
    let s = has_suffix_split (make_key f n) (colon ∷ name) h in
    elim (make_key_cases f n) [
      | inl (_, e) ↦ absurd (no_bare_key _ n name hn hname (sym e ∙ sym s))
      | inr e ↦ (same_parts _ _ n name hn hname (sym e ∙ sym s)).1
    ]

key_is_name : (f n name : Bytes) → Lacks colon n → Lacks colon name → make_key f n ≡ name → n ≡ name
key_is_name f n name hn hname h = elim (make_key_cases f n) [
  | inl (_, e) ↦ sym e ∙ h
  | inr e ↦ absurd (no_bare_key f name n hname hn (sym h ∙ e))
]

name_passes :
    (f n : Bytes) → (has_suffix (make_key f n) (colon ∷ n) || str_eq (make_key f n) n) ≡ true
name_passes f n = elim (make_key_cases f n) [
  | inl (_, e) ↦ rw e (ground (arith, str_eq_refl n))
  | inr e ↦ rw e (ground (arith, has_suffix-append f (colon ∷ n)))
]

module _ (css_variable_name : Token → Bytes) where
  -- A token that the loop of Get may stop at.
  abbrev pub Answers : Bytes → Bytes → Token → Type 0
  Answers q name t = (t.name ≡ name) ⊎ (css_variable_name t ≡ q)

  -- The test of the loop on one entry.
  test_sound :
      (q name key : Bytes) (t : Token)
      → key ≡ make_key t.file_path t.name
      → Lacks colon t.name
      → Lacks colon name
      → (has_suffix key (colon ∷ name) || str_eq key name) ≡ true
      → t.name ≡ name
  test_sound q name key t e plain h p = elim (Bool-cases (has_suffix key (colon ∷ name))) [
    | inl s ↦
        suffix_is_name t.file_path t.name name plain h
          (ap (λ k. has_suffix k (colon ∷ name)) (sym e) ∙ s)
    | inr s ↦
        key_is_name t.file_path t.name name plain h (sym e ∙ (str_eq_iff key name).0 (ground arith))
  ]

  scan_sound :
      (q name : Bytes) (m : Manager) (t : Token)
      → Correct m
      → PlainNames m
      → Lacks colon name
      → scan css_variable_name q name m ≡ some t
      → Holds m t × Answers q name t
  unfolding scan
  scan_sound q name [] t c p h e = absurd (ground arith)
  scan_sound q name ((key, u) ∷ m) t (c, cs) (p, ps) h e =
      elim (Bool-cases (has_suffix key (colon ∷ name) || str_eq key name)) [
        | inl a ↦
            let same : u ≡ t = ground arith in
            (
              inl same,
              inl (ap (λ (x : Token). x.name) (sym same) ∙ test_sound q name key u c p h a),
            )
        | inr a ↦ elim (Bool-cases (str_eq (css_variable_name u) q)) [
          | inl b ↦
              let same : u ≡ t = ground arith in
              (
                inl same,
                inr (ap css_variable_name (sym same) ∙ (str_eq_iff (css_variable_name u) q).0 b),
              )
          | inr b ↦ let (x, y) = scan_sound q name m t cs ps h (ground arith) in (inr x, y)
        ]
      ]

  scan_complete :
      (q name : Bytes) (m : Manager) (t : Token)
      → Correct m
      → Holds m t
      → Answers q name t
      → scan css_variable_name q name m ≢ none
  unfolding scan
  scan_complete q name [] t c h a e = absurd h
  scan_complete q name ((key, u) ∷ m) t (c, cs) (inr h) a e =
      scan_complete q name m t cs h a (ground arith)
  scan_complete q name ((key, u) ∷ m) t (c, cs) (inl h) (inl a) e =
      let same : key ≡ make_key u.file_path name =
        c ∙ ap (make_key u.file_path) (ap (λ (x : Token). x.name) h ∙ a) in
      let passes : (has_suffix key (colon ∷ name) || str_eq key name) ≡ true =
        ap (λ k. has_suffix k (colon ∷ name) || str_eq k name) same
        ∙ name_passes u.file_path name in
      absurd (ground arith)
  scan_complete q name ((key, u) ∷ m) t (c, cs) (inl h) (inr b) e =
      let same : str_eq (css_variable_name u) q ≡ true =
        (str_eq_iff (css_variable_name u) q).1 (ap css_variable_name h ∙ b) in
      absurd (ground arith)

  lookup-Holds :
      (q : Bytes) (m : Manager) (t : Token)
      → Correct m
      → lookup q m ≡ some t
      → Holds m t × (q ≡ make_key t.file_path t.name)
  unfolding lookup
  lookup-Holds q [] t c e = absurd (ground arith)
  lookup-Holds q ((key, u) ∷ m) t (c, cs) e = elim (Bool-cases (str_eq key q)) [
    | inl a ↦
        let same : u ≡ t = ground arith in
        (
          inl same,
          sym ((str_eq_iff key q).0 a) ∙ c ∙ ap (λ (x : Token). make_key x.file_path x.name) same,
        )
    | inr a ↦ let (x, y) = lookup-Holds q m t cs (ground arith) in (inr x, y)
  ]

  -- In a keyed manager whose token names, like the name searched for, hold no colon, a token that
  -- Get returns is held, and the query is its key, its name in one of the spellings, or its CSS
  -- variable; for every order of the entries.
  pub get_sound :
      (q : Bytes) (m : Manager) (t : Token)
      → IsKeyed m
      → PlainNames m
      → Lacks colon (search_name q)
      → get css_variable_name q m ≡ some t
      → Holds m t × ((q ≡ make_key t.file_path t.name) ⊎ Answers q (search_name q) t)
  unfolding get
  get_sound q m t k p h e = elim (Option-cases (lookup q m)) [
    | inl a ↦
        let (x, y) = scan_sound q (search_name q) m t k.correct p h (ground arith) in (x, inr y)
    | inr (u, a) ↦
        let same : u ≡ t = ground arith in
        let (x, y) = lookup-Holds q m t k.correct (a ∙ ap some same) in (x, inl y)
  ]

  -- If a held token of a keyed manager has the name searched for, or the query as its CSS
  -- variable, then Get returns a token; for every order of the entries.
  pub get_complete :
      (q : Bytes) (m : Manager) (t : Token)
      → IsKeyed m
      → Holds m t
      → Answers q (search_name q) t
      → get css_variable_name q m ≢ none
  unfolding get
  get_complete q m t k h a e = elim (Option-cases (lookup q m)) [
    | inl b ↦ scan_complete q (search_name q) m t k.correct h a (ground arith)
    | inr (u, b) ↦ absurd (ground arith)
  ]
