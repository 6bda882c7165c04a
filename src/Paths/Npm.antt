-- ===== src/Paths/Npm.antt =====
-- lsp/path.go: where a configured token file is, with the lookup of npm packages.
pub mod Exports
use design_tokens_language_s.Prelude.{
  ℕ, ◌+◌, ◌-◌, Bool, true, false, not, ◌&&◌, ◌||◌, Option, none, some, List, [], ◌∷◌, ◌++◌, ◌==◌,
  ltb, length, drop, take, if◌then◌else◌,
}
use design_tokens_language_s.Outcome.{Outcome, ok, err, panicked}
use design_tokens_language_s.GoString.{
  Bytes, ascii, str_eq, has_prefix, has_suffix, trim_prefix, contains, split,
}
use design_tokens_language_s.Json.{
  Json, null, boolean, number, text, array, object, Fields, end_of_object, field, value_at,
}
use design_tokens_language_s.Paths.{FilePath}

-- os.Stat: a file or directory is there, is missing, or cannot be looked at
pub data Stat : Type 0 where
  there missing inaccessible : Stat

-- PackageJSON
pub record PackageJson : Type 0 where
  pub main : Bytes
  pub exports : Option Json

-- The file system: os.UserHomeDir, os.Stat, and readPackageJSON's reading and decoding.
pub record FileSystem : Type 0 where
  pub user_home_dir : Option Bytes
  pub stat : Bytes → Stat
  pub package_json : Bytes → Option PackageJson

pub data PathError : Type 0 where
  no_home_directory : PathError
  invalid_package_path path_traversal outside_node_modules package_not_found package_inaccessible
        no_main_entry unresolved_package :
      Bytes → PathError

-- the errors of the resolution within a package
pub data ExportError : Type 0 where
  no_match target_not_found no_entry_point file_not_found : Bytes → ExportError
  no_condition unsupported_type no_package_json : ExportError

abbrev pub slash : ℕ
slash = b'/'

-- strings.SplitN(s, "c", 2): the text before the first c and that behind it, if there is one
unfoldable pub cut : ℕ → Bytes → Option (Bytes × Bytes)
cut c [] = none
cut c (x ∷ s) =
    let rest = cut c s in
    if x == c then some ([], s) else elim rest [ none ↦ none | some p ↦ some (x ∷ p.0, p.1) ]

-- matchExportPattern: the text that the wildcard stands for
unfoldable pub match_parts : List Bytes → Bytes → Option Bytes
match_parts (prefix ∷ suffix ∷ []) requested_path =
    if not (has_prefix requested_path prefix) || not (has_suffix requested_path suffix)
    then none
    else let start = length prefix in
      let stop = length requested_path - length suffix in
      if ltb stop start then none else some (drop start (take stop requested_path))
match_parts _ requested_path = none

unfoldable pub match_export_pattern : Bytes → Bytes → Option Bytes
match_export_pattern pattern requested_path =
    if not (contains pattern (ascii "*"))
    then none
    else match_parts (split b'*' pattern) requested_path

-- strings.Replace(s, "*", t, 1)
unfoldable pub replace_star : Bytes → Bytes → Bytes
replace_star [] t = []
replace_star (x ∷ s) t = let rest = replace_star s t in if x == b'*' then t ++ s else x ∷ rest

-- expandPattern
unfoldable pub expand_pattern : Json → Bytes → Json
expand_pattern (text s) t = text (replace_star s t)
expand_pattern j t = j

module _ (files : FilePath) (system : FileSystem) where
  -- os.Stat(path) without an error
  unfoldable pub exists : Bytes → Bool
  exists path = elim (system.stat path) [ there ↦ true | missing ↦ false | inaccessible ↦ false ]

  unfoldable mutual
    -- resolveExportTarget
    pub resolve_export_target : Bytes → Json → Outcome ExportError Bytes
    resolve_export_target dir (text t) =
        let path = files.join dir t in if exists path then ok path else err (target_not_found t)
    resolve_export_target dir (object conditions) =
        let for_default = condition dir (ascii "default") conditions in
        let for_require = condition dir (ascii "require") conditions in
        let for_import = condition dir (ascii "import") conditions in
        elim for_default [
          | some r ↦ r
          | none ↦ elim for_require [
            | some r ↦ r
            | none ↦ elim for_import [ some r ↦ r | none ↦ err no_condition ]
          ]
        ]
    resolve_export_target dir null = err unsupported_type
    resolve_export_target dir (boolean b) = err unsupported_type
    resolve_export_target dir (number n) = err unsupported_type
    resolve_export_target dir (array xs) = err unsupported_type

    -- the recursive call for the target of a condition, if there is one
    pub condition : Bytes → Bytes → Fields → Option (Outcome ExportError Bytes)
    condition dir key end_of_object = none
    condition dir key (field k v rest) =
        let later = condition dir key rest in
        let here = resolve_export_target dir v in if str_eq k key then some here else later

  -- the loop over the patterns of the export map
  unfoldable pub resolve_patterns : Bytes → Fields → Bytes → Outcome ExportError Bytes
  resolve_patterns dir end_of_object requested_path = err (no_match requested_path)
  resolve_patterns dir (field pattern target rest) requested_path =
      elim (match_export_pattern pattern requested_path) [
        | some t ↦ resolve_export_target dir (expand_pattern target t)
        | none ↦ resolve_patterns dir rest requested_path
      ]

  -- the lookup with "./" in front, if it is not there
  unfoldable pub prefixed_target : Fields → Bytes → Option Json
  prefixed_target exports requested_path =
      if not (has_prefix requested_path (ascii "./"))
      then value_at (ascii "./" ++ requested_path) exports
      else none

  -- resolveExports
  unfoldable pub resolve_exports : Bytes → Json → Bytes → Outcome ExportError Bytes
  resolve_exports dir (text e) requested_path =
      if str_eq requested_path (ascii ".") || str_eq requested_path (ascii "./")
      then (let path = files.join dir e in
          if exists path then ok path else err (no_match requested_path))
      else err (no_match requested_path)
  resolve_exports dir (object exports) requested_path = elim (value_at requested_path exports) [
    | some target ↦ resolve_export_target dir target
    | none ↦ elim (prefixed_target exports requested_path) [
      | some target ↦ resolve_export_target dir target
      | none ↦ resolve_patterns dir exports requested_path
    ]
  ]
  resolve_exports dir _ requested_path = err unsupported_type

  -- resolveExports, if the package has exports; an error counts as no result
  unfoldable pub by_exports : Bytes → PackageJson → Bytes → Option Bytes
  by_exports dir pkg requested_path = elim pkg.exports [
    | none ↦ none
    | some e ↦ elim (resolve_exports dir e requested_path) [
      | ok path ↦ some path
      | err x ↦ none
      | panicked ↦ none
    ]
  ]

  -- the legacy part of resolvePackageEntry
  unfoldable pub legacy_entry : Bytes → PackageJson → Outcome ExportError Bytes
  legacy_entry dir pkg =
      let main_path = files.join dir pkg.main in
      let index_path = files.join dir (ascii "index.js") in
      if not (str_eq pkg.main []) && exists main_path
      then ok main_path
      else if exists index_path
      then ok index_path
      else err (no_entry_point dir)

  -- resolvePackageEntry
  unfoldable pub resolve_package_entry : Bytes → Bytes → Outcome ExportError Bytes
  resolve_package_entry dir entry = elim (system.package_json dir) [
    | none ↦ err no_package_json
    | some pkg ↦ elim (by_exports dir pkg entry) [
      | some path ↦ ok path
      | none ↦ legacy_entry dir pkg
    ]
  ]

  -- direct file access in resolvePackageSubpath
  unfoldable pub direct_file : Bytes → Bytes → Outcome ExportError Bytes
  direct_file dir subpath =
      let path = files.join dir subpath in
      if exists path then ok path else err (file_not_found subpath)

  -- resolvePackageSubpath
  unfoldable pub resolve_package_subpath : Bytes → Bytes → Outcome ExportError Bytes
  resolve_package_subpath dir subpath = elim (system.package_json dir) [
    | none ↦ direct_file dir subpath
    | some pkg ↦ elim (by_exports dir pkg (ascii "./" ++ subpath)) [
      | some path ↦ ok path
      | none ↦ direct_file dir subpath
    ]
  ]

  -- the package's name and the path within it; `none` is a scope without a package
  unfoldable pub package_parts : Bytes → Option (Bytes × Bytes)
  package_parts npm_path =
      if has_prefix npm_path (ascii "@")
      then elim (cut slash npm_path) [
        | none ↦ none
        | some p ↦ elim (cut slash p.1) [
          | none ↦ some (p.0 ++ slash ∷ p.1, [])
          | some q ↦ some (p.0 ++ slash ∷ q.0, q.1)
        ]
      ]
      else elim (cut slash npm_path) [ none ↦ some (npm_path, []) | some p ↦ some p ]

  -- the test on the constructed directory
  unfoldable pub is_inside : Bytes → Bytes → Bool
  is_inside dir node_modules =
      has_prefix (files.clean dir) (files.clean node_modules ++ slash ∷ [])
      || str_eq (files.clean dir) (files.clean node_modules)

  -- the end of resolveNpmPath, once the package directory is there
  unfoldable pub resolve_in_package : Bytes → Bytes → Bytes → Outcome PathError Bytes
  resolve_in_package npm_path dir subpath =
      if str_eq subpath []
      then elim (resolve_package_entry dir (ascii ".")) [
        | ok path ↦ ok path
        | err x ↦ err (no_main_entry dir)
        | panicked ↦ panicked
      ]
      else elim (resolve_package_subpath dir subpath) [
        | ok path ↦ ok path
        | err x ↦ err (unresolved_package npm_path)
        | panicked ↦ panicked
      ]

  -- resolveNpmPath
  unfoldable pub resolve_npm_path : Bytes → Bytes → Outcome PathError Bytes
  resolve_npm_path npm_path root =
      if str_eq npm_path [] || has_prefix npm_path (ascii "/")
      then err (invalid_package_path npm_path)
      else elim (package_parts npm_path) [
        | none ↦ err (invalid_package_path npm_path)
        | some (name, subpath) ↦
            let node_modules = files.join root (ascii "node_modules") in
            let dir = files.join (files.join root (ascii "node_modules")) name in
            if contains name (ascii "..")
            then err (path_traversal npm_path)
            else if not (is_inside dir node_modules)
            then err (outside_node_modules npm_path)
            else elim (system.stat dir) [
              | missing ↦ err (package_not_found name)
              | inaccessible ↦ err (package_inaccessible name)
              | there ↦ resolve_in_package npm_path dir subpath
            ]
      ]

  -- normalizePath
  unfoldable pub normalize_path : Bytes → Bytes → Outcome PathError Bytes
  normalize_path path root =
      if files.is_abs path
      then ok path
      else if has_prefix path (ascii "~/")
      then elim system.user_home_dir [
        | none ↦ err no_home_directory
        | some home ↦ ok (files.join home (drop 2 path))
      ]
      else if has_prefix path (ascii "npm:")
      then resolve_npm_path (drop 4 path) root
      else ok (files.join root (trim_prefix path (ascii "./")))
