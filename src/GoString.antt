-- ===== src/GoString.antt =====
-- Go strings as lists of bytes, and the functions of the `strings` and `fmt` packages that the
-- server uses on them.
pub mod Laws
pub mod Decimal
use Prim.Native.Char.{code}
use Prim.Native.String.{String}
use design_tokens_language_s.Prelude.{
  ℕ, suc, Option, none, some, ◌+◌, ◌-◌, Bool, true, false, ◌&&◌, ◌||◌, List, [], ◌∷◌, ◌++◌, ◌==◌,
  ltb, leb, length, drop, keep, map, not, if◌then◌else◌,
}

abbrev pub Bytes : Type 0
Bytes = List ℕ

-- The bytes of an ASCII literal.
abbrev pub ascii : String → Bytes
ascii String.[] = []
ascii (String.◌∷◌ letter rest) = code letter ∷ ascii rest

-- s == t
unfoldable pub str_eq : Bytes → Bytes → Bool
str_eq [] [] = true
str_eq [] (d ∷ t) = false
str_eq (c ∷ s) [] = false
str_eq (c ∷ s) (d ∷ t) = c == d && str_eq s t

-- strings.HasPrefix(s, p)
unfoldable pub has_prefix : Bytes → Bytes → Bool
has_prefix s [] = true
has_prefix [] (d ∷ p) = false
has_prefix (c ∷ s) (d ∷ p) = c == d && has_prefix s p

-- strings.HasSuffix(s, p): `len(s) >= len(p) && s[len(s)-len(p):] == p`
unfoldable pub has_suffix : Bytes → Bytes → Bool
unfolding str_eq
has_suffix s p = leb (length p) (length s) && str_eq (drop (length s - length p) s) p

-- strings.TrimPrefix(s, p)
unfoldable pub trim_prefix : Bytes → Bytes → Bytes
unfolding has_prefix
trim_prefix s p = if has_prefix s p then drop (length p) s else s

-- strings.Contains(s, p)
unfoldable pub contains : Bytes → Bytes → Bool
unfolding has_prefix
contains [] p = has_prefix [] p
contains (c ∷ s) p = has_prefix (c ∷ s) p || contains s p

-- strings.Index(s, p): `none` stands for -1
unfoldable pub index : Bytes → Bytes → Option ℕ
unfolding has_prefix
index [] p = if has_prefix [] p then some 0 else none
index (c ∷ s) p =
    let rest = index s p in
    if has_prefix (c ∷ s) p then some 0 else elim rest [ none ↦ none | some i ↦ some (suc i) ]

-- strings.ReplaceAll(s, "c", "d") for two single bytes
unfoldable pub replace_byte : ℕ → ℕ → Bytes → Bytes
replace_byte c d = map (λ x. if x == c then d else x)

-- strings.ReplaceAll(s, "c", "") for a single byte
unfoldable pub remove_byte : ℕ → Bytes → Bytes
remove_byte c = keep (λ x. not (x == c))

-- One more byte before the first part.
abbrev pub before_first : ℕ → List Bytes → List Bytes
before_first c [] = (c ∷ []) ∷ []
before_first c (p ∷ ps) = (c ∷ p) ∷ ps

-- strings.Split(s, "c") for a single byte: never empty
unfoldable pub split : ℕ → Bytes → List Bytes
split sep [] = [] ∷ []
split sep (c ∷ s) = let rest = split sep s in if c == sep then [] ∷ rest else before_first c rest

-- strings.LastIndex(s, "c") for a single byte, and the text behind that index: `none` for -1
unfoldable pub after_last : ℕ → Bytes → List Bytes
after_last c [] = []
after_last c (x ∷ s) = elim (after_last c s) [
  | [] ↦ if x == c then s ∷ [] else []
  | t ∷ ts ↦ t ∷ ts
]

-- strings.Join(parts, "c") for a single byte
abbrev pub join : ℕ → List Bytes → Bytes
join sep [] = []
join sep (p ∷ []) = p
join sep (p ∷ q ∷ ps) = p ++ sep ∷ join sep (q ∷ ps)
