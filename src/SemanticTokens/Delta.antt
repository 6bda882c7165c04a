-- ===== src/SemanticTokens/Delta.antt =====
-- lsp/methods/textDocument/semanticTokens/delta.go
pub mod RoundTrip
use design_tokens_language_s.Prelude.{
  ℕ, zero, suc, ◌+◌, ◌-◌, ◌%◌, ◌^◌, Bool, true, false, ◌&&◌, none, some, List, [], ◌∷◌, ◌++◌, ◌==◌,
  ltb, leb, length, get_elem?, take, drop, min, if◌then◌else◌,
}
use design_tokens_language_s.Outcome.{Outcome, ok, panicked}

-- protocol.SemanticTokensEdit
pub record Edit : Type 0 where
  pub start : ℕ
  pub delete_count : ℕ
  pub inserted : List ℕ

-- uint32(n)
abbrev pub uint32 : ℕ → ℕ
uint32 n = n % 2 ^ 32

-- xs[i] == ys[j]; the loops ask it in range only
same_at : List ℕ → ℕ → List ℕ → ℕ → Bool
same_at xs i ys j = elim (get_elem? xs i) [
  | none ↦ false
  | some x ↦ elim (get_elem? ys j) [ none ↦ false | some y ↦ x == y ]
]

-- prefixLen < minLen && oldData[prefixLen] == newData[prefixLen]
more_prefix : List ℕ → List ℕ → ℕ → Bool
unfolding same_at
more_prefix old new prefix_len =
    ltb prefix_len (min (length old) (length new)) && same_at old prefix_len new prefix_len

prefix_loop : ℕ → List ℕ → List ℕ → ℕ → ℕ
prefix_loop zero old new prefix_len = prefix_len
prefix_loop (suc f) old new prefix_len = elim (more_prefix old new prefix_len) [
  | true ↦ prefix_loop f old new (prefix_len + 1)
  | false ↦ prefix_len
]

-- suffixLen < minLen-prefixLen && oldData[oldLen-1-suffixLen] == newData[newLen-1-suffixLen]
more_suffix : List ℕ → List ℕ → ℕ → ℕ → Bool
unfolding same_at
more_suffix old new prefix_len suffix_len =
    ltb suffix_len (min (length old) (length new) - prefix_len)
    && same_at old (length old - 1 - suffix_len) new (length new - 1 - suffix_len)

suffix_loop : ℕ → List ℕ → List ℕ → ℕ → ℕ → ℕ
suffix_loop zero old new prefix_len suffix_len = suffix_len
suffix_loop (suc f) old new prefix_len suffix_len =
    elim (more_suffix old new prefix_len suffix_len) [
      | true ↦ suffix_loop f old new prefix_len (suffix_len + 1)
      | false ↦ suffix_len
    ]

-- what ComputeDelta returns once both lengths are known; nil is the empty list
edit_between : List ℕ → List ℕ → ℕ → ℕ → List Edit
edit_between old new prefix_len suffix_len =
    let delete_count = length old - prefix_len - suffix_len in
    let insert_data = drop prefix_len (take (length new - suffix_len) new) in
    if delete_count == 0 && length insert_data == 0
    then []
    else record {
      start = uint32 prefix_len;
      delete_count = uint32 delete_count;
      inserted = insert_data;
    }
      ∷ []

-- ComputeDelta: a loop makes at most as many rounds as the shorter list is long
unfoldable pub compute_delta : List ℕ → List ℕ → List Edit
unfolding prefix_loop suffix_loop more_prefix more_suffix edit_between
compute_delta old new =
    let rounds = min (length old) (length new) in
    let prefix_len = prefix_loop rounds old new 0 in
    if prefix_len == length old && length old == length new
    then []
    else edit_between old new prefix_len (suffix_loop rounds old new prefix_len 0)

-- ApplyEdits: slicing `oldData[start+deleteCount:]` panics behind the end; within it every copy fits
unfoldable pub apply_edits : List ℕ → List Edit → Outcome (Unit {0}) (List ℕ)
apply_edits old [] = ok old
apply_edits old (e ∷ es) =
    if leb (e.start + e.delete_count) (length old)
    then ok (take e.start old ++ (e.inserted ++ drop (e.start + e.delete_count) old))
    else panicked
