-- ===== src/Paths/Uri.antt =====
-- internal/uriutil/convert.go: file paths and file URIs. What packages net/url, path/filepath and
-- strings do beyond single bytes, and the operating system, are a parameter.
pub mod Convert
use design_tokens_language_s.Prelude.{
  ℕ, suc, Bool, true, false, not, ◌&&◌, ◌||◌, Option, none, some, List, [], ◌∷◌, ◌++◌, ◌==◌, leb,
  map, drop, if◌then◌else◌,
}
use design_tokens_language_s.GoString.{
  Bytes, ascii, str_eq, has_prefix, trim_prefix, replace_byte, split, join,
}

-- url.URL, the parts that are read; the path is decoded
pub record ParsedUrl : Type 0 where
  pub scheme : Bytes
  pub host : Bytes
  pub path : Bytes

-- url.Parse, url.PathEscape, url.PathUnescape, filepath.Abs, filepath.ToSlash, filepath.FromSlash,
-- strings.ToUpper, and the test of runtime.GOOS; `none` stands for an error
pub record Library : Type 0 where
  pub parse : Bytes → Option ParsedUrl
  pub path_escape : Bytes → Bytes
  pub path_unescape : Bytes → Option Bytes
  pub abs : Bytes → Option Bytes
  pub to_slash : Bytes → Bytes
  pub from_slash : Bytes → Bytes
  pub to_upper : Bytes → Bytes
  pub is_windows : Bool

abbrev pub slash : ℕ
slash = b'/'

abbrev pub colon : ℕ
colon = b':'

abbrev pub backslash : ℕ
backslash = 92

-- (ch >= 'A' && ch <= 'Z') || (ch >= 'a' && ch <= 'z')
unfoldable pub is_letter : ℕ → Bool
is_letter ch = (leb b'A' ch && leb ch b'Z') || (leb b'a' ch && leb ch b'z')

-- two bytes, a letter and a colon
unfoldable pub is_drive : Bytes → Bool
is_drive (ch ∷ c ∷ []) = c == colon && is_letter ch
is_drive _ = false

-- isWindowsDriveLetter
unfoldable pub is_windows_drive_letter : Bytes → ℕ → Bool
is_windows_drive_letter segment i = if not (i == 1) then false else is_drive segment

-- path[0] == '/' && path[2] == ':' on a path of three bytes or more
unfoldable pub has_drive : Bytes → Bool
has_drive (x ∷ y ∷ z ∷ rest) = x == slash && z == colon
has_drive _ = false

-- the slash in front of a drive is dropped
unfoldable pub without_drive_slash : Bytes → Bytes
without_drive_slash path = if has_drive path then drop 1 path else path

module _ (go : Library) where
  -- handleExtendedLengthPrefix: the path, whether to go on, and whether the prefix was there
  unfoldable pub handle_extended_length_prefix : Bytes → Bytes × Bool × Bool
  handle_extended_length_prefix abs_path =
      let remainder = drop 4 abs_path in
      if not (has_prefix abs_path (backslash ∷ backslash ∷ b'?' ∷ backslash ∷ []))
        && not (has_prefix abs_path (ascii "//?/"))
      then (abs_path, true, false)
      else if has_prefix (go.to_upper remainder) (ascii "UNC" ++ backslash ∷ [])
          || has_prefix (go.to_upper remainder) (ascii "UNC/")
      then (backslash ∷ backslash ∷ drop 4 remainder, true, true)
      else ([], false, false)

  -- the loops over the segments of a UNC path
  unfoldable pub unc_uri : Bytes → Bytes
  unc_uri unc_path =
      ascii "file://" ++ join slash (map go.path_escape (split slash (go.to_slash unc_path)))

  -- handleWindowsUNCPath: `none` if it is no UNC path
  unfoldable pub handle_windows_unc_path : Bytes → Option Bytes
  handle_windows_unc_path path =
      if not go.is_windows
      then none
      else let (abs_path, goes_on, was_extended) = handle_extended_length_prefix path in
        if not goes_on
        then none
        else if not (has_prefix abs_path (backslash ∷ backslash ∷ []))
            && not (has_prefix abs_path (ascii "//"))
        then none
        else if has_prefix abs_path (backslash ∷ backslash ∷ [])
        then some (unc_uri (trim_prefix abs_path (backslash ∷ backslash ∷ [])))
        else some (unc_uri (trim_prefix abs_path (ascii "//")))

  -- one round of the loop of normalizeAndEncodeSegments
  unfoldable pub encode_segment : ℕ → Bytes → Bytes
  encode_segment i segment =
      if str_eq segment []
      then segment
      else if is_windows_drive_letter segment i
      then elim segment [ [] ↦ [] | ch ∷ rest ↦ go.to_upper (ch ∷ []) ++ colon ∷ [] ]
      else go.path_escape segment

  -- normalizeAndEncodeSegments, from an index on
  unfoldable pub normalize_and_encode_segments : ℕ → List Bytes → List Bytes
  normalize_and_encode_segments i [] = []
  normalize_and_encode_segments i (segment ∷ segments) =
      encode_segment i segment ∷ normalize_and_encode_segments (suc i) segments

  -- filepath.Abs, or the path if it fails
  unfoldable pub absolute : Bytes → Bytes
  absolute path = elim (go.abs path) [ none ↦ path | some abs_path ↦ abs_path ]

  -- the URI of a path with forward slashes
  unfoldable pub slash_uri : Bytes → Bytes
  slash_uri path =
      let rooted = if not (has_prefix path (ascii "/")) then slash ∷ path else path in
      ascii "file://" ++ join slash (normalize_and_encode_segments 0 (split slash rooted))

  -- PathToURI
  unfoldable pub path_to_uri : Bytes → Bytes
  path_to_uri path = elim (handle_windows_unc_path (absolute path)) [
    | some uri ↦ uri
    | none ↦ slash_uri (go.to_slash (absolute path))
  ]

  -- uriFallback
  unfoldable pub uri_fallback : Bytes → Bytes
  uri_fallback uri =
      let path =
        if has_prefix uri (ascii "file:///")
        then drop 7 uri
        else if has_prefix uri (ascii "file://")
        then drop 7 uri
        else uri in
      go.from_slash (without_drive_slash path)

  -- s, _ := url.PathUnescape(path)
  unfoldable pub unescaped : Bytes → Bytes
  unescaped path = elim (go.path_unescape path) [ none ↦ [] | some s ↦ s ]

  -- the path of a URI with a host
  unfoldable pub host_path : Bytes → Bytes → Bytes
  host_path host path =
      if is_drive host
      then go.from_slash (host ++ slash ∷ trim_prefix (unescaped path) (ascii "/"))
      else if go.is_windows
      then backslash ∷ backslash ∷ unescaped host ++ replace_byte slash backslash (unescaped path)
      else host ++ path

  -- the path of a URI without a host
  unfoldable pub local_path : Bytes → Bytes
  local_path path =
      go.from_slash (
        without_drive_slash (elim (go.path_unescape path) [ none ↦ path | some decoded ↦ decoded ]))

  -- URIToPath
  unfoldable pub uri_to_path : Bytes → Bytes
  uri_to_path uri = elim (go.parse uri) [
    | none ↦ uri_fallback uri
    | some parsed ↦
        if not (str_eq parsed.scheme (ascii "file"))
        then uri_fallback uri
        else if not (str_eq parsed.host [])
        then host_path parsed.host parsed.path
        else local_path parsed.path
  ]
