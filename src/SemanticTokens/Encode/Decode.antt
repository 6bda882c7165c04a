-- ===== src/SemanticTokens/Encode/Decode.antt =====
-- The encoding of semantic tokens against a decoder written from the protocol, and which token lists
-- are encoded.
use design_tokens_language_s.Prelude.{
  ℕ, ◌+◌, ◌≤◌, ◌≡◌, refl, sym, ap, ◌∙◌, Option, none, some, List, [], ◌∷◌, ◌++◌, ◌==◌, arith,
  append_assoc, append-nil, if◌then◌else◌,
}
use design_tokens_language_s.Ints.{ℤ, pos, negsuc, ◌-ℤ◌, eqb_ℤ}
use design_tokens_language_s.Outcome.{ok, chain_ok}
use design_tokens_language_s.Position.{max_uint32}
use design_tokens_language_s.SemanticTokens.Encode.{
  SemanticToken, Field, delta_line, delta_start, append_validated_int, encode_token, encode_loop,
  encode_semantic_tokens,
}

-- A client's reading of the data, five numbers for each token, from the position of the last token.
pub decode_loop : List ℕ → ℕ → ℕ → Option (List SemanticToken)
decode_loop [] prev_line prev_start = some []
decode_loop (dl ∷ ds ∷ n ∷ ty ∷ mo ∷ rest) prev_line prev_start =
    let start = if dl == 0 then prev_start + ds else ds in
    elim (decode_loop rest (prev_line + dl) start) [
      | none ↦ none
      | some tokens ↦ some (
          record {
            line = pos (prev_line + dl);
            start_char = pos start;
            length = pos n;
            token_type = pos ty;
            token_modifiers = pos mo;
          }
          ∷ tokens)
    ]
decode_loop _ prev_line prev_start = none

unfoldable pub decode : List ℕ → Option (List SemanticToken)
unfolding decode_loop
decode out = decode_loop out 0 0

append_inv :
    (out : List ℕ) (v : ℤ) (f : Field) (i : ℕ) {out' : List ℕ}
    → append_validated_int out v f i ≡ ok out'
    → (n : ℕ) × (v ≡ pos n) × (n ≤ max_uint32) × (out ++ n ∷ [] ≡ out')
unfolding append_validated_int
append_inv out (negsuc n) f i h = absurd (ground arith)
append_inv out (pos n) f i h = (n, refl, ground arith, ground arith)

-- The five numbers of a token that stands behind a position.
record Row (pl pc : ℕ) (t : SemanticToken) (out out' : List ℕ) : Type 0 where
  dl : ℕ
  ds : ℕ
  n : ℕ
  ty : ℕ
  mo : ℕ
  data_is : out' ≡ out ++ (dl ∷ ds ∷ n ∷ ty ∷ mo ∷ [])
  line_is : t.line ≡ pos (pl + dl)
  start_is : t.start_char ≡ pos (if dl == 0 then pc + ds else ds)
  length_is : t.length ≡ pos n
  type_is : t.token_type ≡ pos ty
  modifiers_is : t.token_modifiers ≡ pos mo

five_on :
    (out : List ℕ) (a b c d e : ℕ)
    → (((((out ++ a ∷ []) ++ b ∷ []) ++ c ∷ []) ++ d ∷ []) ++ e ∷ [])
      ≡ out ++ (a ∷ b ∷ c ∷ d ∷ e ∷ [])
five_on out a b c d e = simp append_assoc

line_back : (v : ℤ) (p d : ℕ) → v -ℤ pos p ≡ pos d → v ≡ pos (p + d)
unfolding ◌-ℤ◌
line_back v p d h = ground arith

start_back :
    (delta v : ℤ) (p d dl : ℕ)
    → delta ≡ pos dl
    → (if eqb_ℤ delta (pos 0) then v -ℤ pos p else v) ≡ pos d
    → v ≡ pos (if dl == 0 then p + d else d)
unfolding ◌-ℤ◌
start_back delta v p d dl e h = ground arith

abbrev start_of : ℕ → ℕ → SemanticToken → ℤ
start_of pl pc t = if eqb_ℤ (t.line -ℤ pos pl) (pos 0) then t.start_char -ℤ pos pc else t.start_char

encode-Row :
    (out : List ℕ) (i pl pc : ℕ) (t : SemanticToken) {out' : List ℕ}
    → encode_token out i (pos pl) (pos pc) t ≡ ok out'
    → Row pl pc t out out'
unfolding encode_token
encode-Row out i pl pc t h =
    let (o1, e1, h1) = chain_ok (append_validated_int out (t.line -ℤ pos pl) delta_line i) _ h in
    let (dl, f1, _, g1) = append_inv out (t.line -ℤ pos pl) delta_line i e1 in
    let (o2, e2, h2) = chain_ok (append_validated_int o1 (start_of pl pc t) delta_start i) _ h1 in
    let (ds, f2, _, g2) = append_inv o1 (start_of pl pc t) delta_start i e2 in
    let (o3, e3, h3) = chain_ok (append_validated_int o2 t.length Field.length i) _ h2 in
    let (n, f3, _, g3) = append_inv o2 t.length Field.length i e3 in
    let (o4, e4, h4) = chain_ok (append_validated_int o3 t.token_type Field.token_type i) _ h3 in
    let (ty, f4, _, g4) = append_inv o3 t.token_type Field.token_type i e4 in
    let (mo, f5, _, g5) = append_inv o4 t.token_modifiers Field.token_modifiers i h4 in
    record {
      dl = dl;
      ds = ds;
      n = n;
      ty = ty;
      mo = mo;
      data_is =
          sym g5
          ∙ ap (λ o. o ++ mo ∷ []) (sym g4)
          ∙ ap (λ o. (o ++ ty ∷ []) ++ mo ∷ []) (sym g3)
          ∙ ap (λ o. ((o ++ n ∷ []) ++ ty ∷ []) ++ mo ∷ []) (sym g2)
          ∙ ap (λ o. (((o ++ ds ∷ []) ++ n ∷ []) ++ ty ∷ []) ++ mo ∷ []) (sym g1)
          ∙ five_on out dl ds n ty mo;
      line_is = line_back t.line pl dl f1;
      start_is = start_back (t.line -ℤ pos pl) t.start_char pc ds dl f1 f2;
      length_is = f3;
      type_is = f4;
      modifiers_is = f5;
    }

Row-decodes :
    {pl pc : ℕ} {t : SemanticToken} {out out' : List ℕ} (ts : List SemanticToken) (tail : List ℕ)
    (row : Row pl pc t out out')
    → decode_loop tail (pl + row.dl) (if row.dl == 0 then pc + row.ds else row.ds) ≡ some ts
    → decode_loop (row.dl ∷ row.ds ∷ row.n ∷ row.ty ∷ row.mo ∷ tail) pl pc ≡ some (t ∷ ts)
unfolding decode_loop
Row-decodes ts tail row d =
    rw (d, decode_loop)
      (λ j. some (
        record {
          line = sym row.line_is j;
          start_char = sym row.start_is j;
          length = sym row.length_is j;
          token_type = sym row.type_is j;
          token_modifiers = sym row.modifiers_is j;
        }
        ∷ ts))

-- What the data adds to what was there decodes to the tokens.
encode_loop_decodes :
    (ts : List SemanticToken) (i pl pc : ℕ) (out out' : List ℕ)
    → encode_loop ts i (pos pl) (pos pc) out ≡ ok out'
    → (tail : List ℕ) × (out' ≡ out ++ tail) × (decode_loop tail pl pc ≡ some ts)
unfolding encode_loop decode_loop
encode_loop_decodes [] i pl pc out out' h =
    let e : out ≡ out' = cc in ([], sym e ∙ sym (append-nil out), refl)
encode_loop_decodes (t ∷ ts) i pl pc out out' h =
    let (o, e, k) = chain_ok (encode_token out i (pos pl) (pos pc) t) _ h in
    let row = encode-Row out i pl pc t e in
    let start = if row.dl == 0 then pc + row.ds else row.ds in
    let moved : encode_loop ts (i + 1) (pos (pl + row.dl)) (pos start) o ≡ ok out' =
      ap (λ l. encode_loop ts (i + 1) l (pos start) o) (sym row.line_is)
      ∙ ap (λ s. encode_loop ts (i + 1) t.line s o) (sym row.start_is)
      ∙ k in
    let (tail, f, d) = encode_loop_decodes ts (i + 1) (pl + row.dl) start o out' moved in
    (
      row.dl ∷ row.ds ∷ row.n ∷ row.ty ∷ row.mo ∷ tail,
      f
          ∙ ap (λ x. x ++ tail) row.data_is
          ∙ append_assoc out (row.dl ∷ row.ds ∷ row.n ∷ row.ty ∷ row.mo ∷ []) tail,
      Row-decodes ts tail row d,
    )

-- Data that is sent decodes, by the rules of the protocol, to the tokens that it was made of.
pub decode-encode_semantic_tokens :
    (ts : List SemanticToken) (out : List ℕ)
    → encode_semantic_tokens ts ≡ ok out
    → decode out ≡ some ts
unfolding encode_semantic_tokens decode
decode-encode_semantic_tokens ts out h =
    let (tail, e, d) = encode_loop_decodes ts 0 0 0 [] out h in ap (λ x. decode_loop x 0 0) e ∙ d
