-- ===== src/Features/Definition/First.antt =====
-- Which call a definition is looked up for.
use design_tokens_language_s.Prelude.{
  ◌≡◌, ◌↔◌, ◌++◌, refl, true, false, Bool, Option, List, [], ◌∷◌, All, arith,
}
use design_tokens_language_s.GoString.{Bytes}
use design_tokens_language_s.Tokens.{Token}
use design_tokens_language_s.Documents.Change.{Position}
use design_tokens_language_s.Ranges.Overlap.{Before, Contains}
use design_tokens_language_s.Features.{VarCall}
use design_tokens_language_s.Features.Definition.{
  is_position_in_var_call, answer_for, find_definition,
}

-- The test on a call is that its half-open range holds the position.
pub is_position_in_var_call_iff :
    (p : Position) (v : VarCall)
    → Before v.range.start v.range.stop
    → (is_position_in_var_call p v ≡ true) ↔ Contains v.range p
unfolding is_position_in_var_call
is_position_in_var_call_iff p v h = ground arith

-- The definition is answered for the first var() call whose range holds the position; calls
-- before and behind it do not matter.
pub find_definition_first :
    (token_named : Bytes → Option Token) (links : Bool) (p : Position) (before : List VarCall)
    (v : VarCall) (after : List VarCall)
    → All (λ w. is_position_in_var_call p w ≡ false) before
    → Before v.range.start v.range.stop
    → Contains v.range p
    → find_definition token_named links p (before ++ (v ∷ after)) ≡ answer_for token_named links v
unfolding find_definition
find_definition_first token_named links p [] v after a h c =
    rw ((is_position_in_var_call_iff p v h).1 c, find_definition) refl
find_definition_first token_named links p (w ∷ before) v after (a, b) h c =
    rw (a, find_definition) (find_definition_first token_named links p before v after b h c)
