-- ===== src/Paths/Uri/Convert.antt =====
-- From a path to its URI and back, on a system other than Windows.
use mathlib.Core.List.{cons-ne-nil}
use design_tokens_language_s.Prelude.{
  ℕ, suc, ◌≡◌, ◌≢◌, refl, ap, ◌∙◌, false, none, some, List, [], ◌∷◌, ◌++◌, ◌==◌, map, arith,
  Bool-cases, inl, inr,
}
use design_tokens_language_s.GoString.{Bytes, ascii, str_eq, has_prefix, split, join, before_first}
use design_tokens_language_s.GoString.Laws.{str_eq_iff, join-split, join-cons_nil, split-ne-nil}
use design_tokens_language_s.Paths.Uri.{
  Library, slash, colon, is_drive, is_windows_drive_letter, has_drive, without_drive_slash,
  handle_windows_unc_path, encode_segment, normalize_and_encode_segments, absolute, slash_uri,
  path_to_uri, local_path, uri_to_path,
}

-- What net/url documents: no text is escaped to no text, and a URI of the scheme "file" without a
-- host, whose path is made of escaped segments, is parsed to the segments as they were. An escaped
-- segment has no "?", "#", "%" or slash of its own, so nothing ends the path early.
pub record IsUrlLibrary (go : Library) : Type 0 where
  pub escape_empty : go.path_escape [] ≡ []
  pub parse_escaped :
      (segments : List Bytes)
      → go.parse (ascii "file://" ++ slash ∷ join slash (map go.path_escape segments))
        ≡ some (record { scheme = ascii "file"; host = []; path = slash ∷ join slash segments })

-- A rooted path of such a system that is absolute, with nothing for a conversion of separators to do.
pub record IsPosixPath (go : Library) (path : Bytes) : Type 0 where
  pub posix : go.is_windows ≡ false
  pub absolute_path : go.abs path ≡ some path
  pub to_slash_same : go.to_slash path ≡ path
  pub from_slash_same : go.from_slash path ≡ path
  pub no_drive : has_drive path ≡ false

abbrev first_part : List Bytes → Bytes
first_part [] = []
first_part (segment ∷ segments) = segment

two_bytes :
    (c d : ℕ) (segments : List Bytes)
    → (d == colon) ≡ false
    → is_drive (first_part (before_first c (before_first d segments))) ≡ false
unfolding is_drive
two_bytes c d [] h = ground arith
two_bytes c d ([] ∷ segments) h = ground arith
two_bytes c d ((x ∷ segment) ∷ segments) h = refl

-- The first segment of a rooted path is no drive if the path has none.
drive_first :
    (rest : Bytes)
    → has_drive (slash ∷ rest) ≡ false
    → is_drive (first_part (split slash rest)) ≡ false
unfolding has_drive is_drive split
drive_first [] h = refl
drive_first (c ∷ []) h = ground arith
drive_first (c ∷ d ∷ rest) h = elim (Bool-cases (c == slash)) [
  | inl e ↦ rw e refl
  | inr e ↦ rw e (elim (Bool-cases (d == slash)) [
    | inl f ↦ rw f refl
    | inr f ↦ rw f (two_bytes c d (split slash rest) (ground arith))
  ])
]

module _ (go : Library) (laws : IsUrlLibrary go) where
  encode_later :
      (i : ℕ) (segment : Bytes)
      → (i == 1) ≡ false
      → encode_segment go i segment ≡ go.path_escape segment
  unfolding encode_segment is_windows_drive_letter
  encode_later i segment h = ground (arith, str_eq_iff segment [], laws.escape_empty)

  encode_first :
      (i : ℕ) (segment : Bytes)
      → is_drive segment ≡ false
      → encode_segment go i segment ≡ go.path_escape segment
  unfolding encode_segment is_windows_drive_letter
  encode_first i segment h = ground (arith, str_eq_iff segment [], laws.escape_empty)

  encode_rest :
      (i : ℕ) (segments : List Bytes)
      → normalize_and_encode_segments go (suc (suc i)) segments ≡ map go.path_escape segments
  unfolding normalize_and_encode_segments
  encode_rest i [] = refl
  encode_rest i (segment ∷ segments) =
      ground (arith, encode_later (suc (suc i)) segment, encode_rest (suc i) segments)

  encode_from_first :
      (segments : List Bytes)
      → is_drive (first_part segments) ≡ false
      → normalize_and_encode_segments go 1 segments ≡ map go.path_escape segments
  unfolding normalize_and_encode_segments
  encode_from_first [] h = refl
  encode_from_first (segment ∷ segments) h =
      ground (arith, encode_first 1 segment h, encode_rest 0 segments)

  segments_of_path :
      (rest : Bytes)
      → has_drive (slash ∷ rest) ≡ false
      → normalize_and_encode_segments go 0 (split slash (slash ∷ rest))
        ≡ map go.path_escape (split slash (slash ∷ rest))
  unfolding normalize_and_encode_segments split
  segments_of_path rest h =
      ground (arith, encode_later 0 [], encode_from_first (split slash rest) (drive_first rest h))

  map_ne_nil : (segments : List Bytes) → segments ≢ [] → map go.path_escape segments ≢ []
  map_ne_nil [] h = λ e. h refl
  map_ne_nil (segment ∷ segments) h = cons-ne-nil _ _

  -- the escaped path, behind its first slash
  abbrev escaped : Bytes → Bytes
  escaped rest = join slash (map go.path_escape (split slash rest))

  escaped_path :
      (rest : Bytes)
      → join slash (map go.path_escape (split slash (slash ∷ rest))) ≡ slash ∷ escaped rest
  unfolding split
  escaped_path rest =
      ap (λ s. join slash (s ∷ map go.path_escape (split slash rest))) laws.escape_empty
      ∙ join-cons_nil slash (map go.path_escape (split slash rest))
          (map_ne_nil (split slash rest) (split-ne-nil slash rest))

  absolute_lem : (path : Bytes) → IsPosixPath go path → absolute go path ≡ path
  unfolding absolute
  absolute_lem path p = rw (p.absolute_path, absolute) refl

  no_unc_path : (path : Bytes) → IsPosixPath go path → handle_windows_unc_path go path ≡ none
  unfolding handle_windows_unc_path
  no_unc_path path p = rw p.posix refl

  slash_uri_lem :
      (rest : Bytes)
      → has_drive (slash ∷ rest) ≡ false
      → slash_uri go (slash ∷ rest) ≡ ascii "file://" ++ slash ∷ escaped rest
  unfolding slash_uri has_prefix
  slash_uri_lem rest h =
      ap (λ s. ascii "file://" ++ join slash s) (segments_of_path rest h)
      ∙ ap (λ s. ascii "file://" ++ s) (escaped_path rest)

  not_unc :
      (path : Bytes)
      → handle_windows_unc_path go (absolute go path) ≡ none
      → path_to_uri go path ≡ slash_uri go (go.to_slash (absolute go path))
  unfolding path_to_uri
  not_unc path h = rw (h, path_to_uri) refl

  path_to_uri_posix :
      (rest : Bytes)
      → IsPosixPath go (slash ∷ rest)
      → path_to_uri go (slash ∷ rest) ≡ ascii "file://" ++ slash ∷ escaped rest
  path_to_uri_posix rest p =
      let absolute_path = absolute_lem (slash ∷ rest) p in
      not_unc (slash ∷ rest)
        (ap (handle_windows_unc_path go) absolute_path ∙ no_unc_path (slash ∷ rest) p)
      ∙ ap (λ path. slash_uri go (go.to_slash path)) absolute_path
      ∙ ap (slash_uri go) p.to_slash_same
      ∙ slash_uri_lem rest p.no_drive

  -- The URI of a path is parsed to that path.
  parse-path_to_uri :
      (rest : Bytes)
      → IsPosixPath go (slash ∷ rest)
      → go.parse (path_to_uri go (slash ∷ rest))
        ≡ some (record { scheme = ascii "file"; host = []; path = slash ∷ rest })
  parse-path_to_uri rest p =
      ap go.parse (path_to_uri_posix rest p)
      ∙ laws.parse_escaped (split slash rest)
      ∙ ap (λ q. some (record { scheme = ascii "file"; host = []; path = slash ∷ q }))
          (join-split slash rest)

  -- On a system other than Windows, a rooted absolute path without a drive that a
  -- percent-decoding leaves as it is, converted to a URI and back, is itself, if net/url escapes
  -- no text to no text and parses the file URI of escaped segments to the segments as they were.
  pub uri_to_path-path_to_uri :
      (rest : Bytes)
      → IsPosixPath go (slash ∷ rest)
      → go.path_unescape (slash ∷ rest) ≡ some (slash ∷ rest)
      → uri_to_path go (path_to_uri go (slash ∷ rest)) ≡ slash ∷ rest
  unfolding uri_to_path local_path without_drive_slash str_eq
  uri_to_path-path_to_uri rest p plain =
      rw (parse-path_to_uri rest p, uri_to_path)
        (rw (plain, local_path) (rw p.no_drive p.from_slash_same))
