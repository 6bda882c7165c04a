-- ===== src/Tests/Urls.antt =====
-- Paths and their URIs, with percent-encoding of the bytes that would end or split a path.
use design_tokens_language_s.Prelude.{
  ℕ, ◌+◌, ◌-◌, ◌*◌, ◌/◌, ◌%◌, ◌≡◌, refl, ap, ◌∙◌, Bool, false, ◌||◌, Option, none, some, List, [],
  ◌∷◌, ◌++◌, append-nil, ◌==◌, ltb, map, drop, if◌then◌else◌, Bool-cases, inl, inr, arith,
}
use design_tokens_language_s.GoString.{Bytes, ascii, has_prefix, join, split, str_eq}
use design_tokens_language_s.Paths.Uri
use design_tokens_language_s.Paths.Uri.{
  ParsedUrl, slash, handle_windows_unc_path, slash_uri, normalize_and_encode_segments, absolute,
  encode_segment, is_windows_drive_letter, is_drive, uri_to_path, path_to_uri, has_drive,
}
use design_tokens_language_s.Paths.Uri.Convert.{IsUrlLibrary, IsPosixPath, uri_to_path-path_to_uri}

abbrev is_special : ℕ → Bool
is_special c = (c == b'%') || (c == b'/') || (c == b'?') || (c == b'#') || (c == 32)

abbrev hex : ℕ → ℕ
hex n = if ltb n 10 then 48 + n else 55 + n

abbrev unhex : ℕ → ℕ
unhex c = if ltb c 58 then c - 48 else c - 55

escape : Bytes → Bytes
escape [] = []
escape (c ∷ s) =
    if is_special c then b'%' ∷ hex (c / 16) ∷ hex (c % 16) ∷ escape s else c ∷ escape s

abbrev one_more : ℕ → Option Bytes → Option Bytes
one_more c none = none
one_more c (some s) = some (c ∷ s)

unescape : Bytes → Option Bytes
unescape [] = some []
unescape (c ∷ []) = if c == b'%' then none else some (c ∷ [])
unescape (c ∷ d ∷ []) = if c == b'%' then none else one_more c (unescape (d ∷ []))
unescape (c ∷ d ∷ e ∷ s) =
    let decoded = unescape s in
    let rest = unescape (d ∷ e ∷ s) in
    if c == b'%' then one_more (unhex d * 16 + unhex e) decoded else one_more c rest

-- The path ends at a query or a fragment.
path_part : Bytes → Bytes
path_part [] = []
path_part (c ∷ s) = if (c == b'?') || (c == b'#') then [] else c ∷ path_part s

abbrev file_url : Option Bytes → Option ParsedUrl
file_url none = none
file_url (some path) = some (record { scheme = ascii "file"; host = []; path = path })

abbrev net : Uri.Library
net = record {
  parse = λ uri.
      if has_prefix uri (ascii "file:///")
      then file_url (unescape (path_part (drop 7 uri)))
      else none;
  path_escape = escape;
  path_unescape = unescape;
  abs = λ p. some p;
  to_slash = λ p. p;
  from_slash = λ p. p;
  to_upper = λ s. s;
  is_windows = false;
}

path_part-escape : (s t : Bytes) → path_part (escape s ++ t) ≡ escape s ++ path_part t
unfolding path_part escape
path_part-escape [] t = refl
path_part-escape (c ∷ s) t = ground (arith, path_part-escape s t)

path_part-join :
    (segments : List Bytes)
    → path_part (join slash (map escape segments)) ≡ join slash (map escape segments)
unfolding path_part
path_part-join [] = refl
path_part-join (s ∷ []) = rw append-nil at (path_part-escape s [])
path_part-join (s ∷ t ∷ segments) =
    path_part-escape s _ ∙ ap (λ u. escape s ++ slash ∷ u) (path_part-join (t ∷ segments))

plain_byte : (c : ℕ) (s : Bytes) → (c == b'%') ≡ false → unescape (c ∷ s) ≡ one_more c (unescape s)
unfolding unescape
plain_byte c [] h = rw h refl
plain_byte c (d ∷ []) h = rw h refl
plain_byte c (d ∷ e ∷ s) h = rw h refl

unhex-hex : (n : ℕ) → unhex (hex n) ≡ n
unhex-hex n = ground arith

escaped_byte : (c : ℕ) → unhex (hex (c / 16)) * 16 + unhex (hex (c % 16)) ≡ c
escaped_byte c = rw (unhex-hex (c / 16), unhex-hex (c % 16)) (omega arith)

unescape-escape : (s t u : Bytes) → unescape t ≡ some u → unescape (escape s ++ t) ≡ some (s ++ u)
unfolding escape unescape
unescape-escape [] t u h = h
unescape-escape (c ∷ s) t u h = elim (Bool-cases (is_special c)) [
  | inl e ↦ rw (e, unescape-escape s t u h, escaped_byte c) refl
  | inr e ↦ rw (e, plain_byte c (escape s ++ t) (ground (arith, e)), unescape-escape s t u h) refl
]

unescape-join :
    (segments : List Bytes)
    → unescape (join slash (map escape segments)) ≡ some (join slash segments)
unfolding unescape
unescape-join [] = refl
unescape-join (s ∷ []) = rw append-nil at (rw append-nil at (unescape-escape s [] [] refl))
unescape-join (s ∷ t ∷ segments) = unescape-escape s _ _ (
    plain_byte slash (join slash (map escape (t ∷ segments))) refl
    ∙ ap (one_more slash) (unescape-join (t ∷ segments)))

laws : IsUrlLibrary net
unfolding has_prefix escape path_part
laws = record {
  escape_empty = refl;
  parse_escaped = λ segments.
      ap (λ p. file_url (unescape (slash ∷ p))) (path_part-join segments)
      ∙ ap file_url (plain_byte slash (join slash (map escape segments)) refl)
      ∙ ap (λ p. file_url (one_more slash p)) (unescape-join segments);
}

-- A path with a byte that is escaped.
abbrev path : Bytes
path = ascii "a b#.json"

uri_run : path_to_uri net (slash ∷ path) ≡ ascii "file:///a%20b%23.json"
unfolding path_to_uri handle_windows_unc_path slash_uri normalize_and_encode_segments split
    has_prefix absolute encode_segment str_eq is_windows_drive_letter is_drive escape
uri_run = refl

plain_path : IsPosixPath net (slash ∷ path)
unfolding has_drive
plain_path = record {
  posix = refl;
  absolute_path = refl;
  to_slash_same = refl;
  from_slash_same = refl;
  no_drive = refl;
}

uri_to_path-path_to_uri_example : uri_to_path net (path_to_uri net (slash ∷ path)) ≡ slash ∷ path
unfolding unescape
uri_to_path-path_to_uri_example = uri_to_path-path_to_uri net laws path plain_path refl
