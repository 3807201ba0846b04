-- ===== src/Manifest/Resolve.antt =====
-- manifest.go and schema/manifest.go: a path is looked up in a manifest.
use arseeding.Prelude.{Text, codes, ◌==◌, Option, none, some, [], ◌∷◌, ◌++◌, if◌then◌else◌}
use arseeding.Prelude.Maps.{Dict, lookup}
use arseeding.Effect.{Result, ok, err, page_not_found}

pub record ManifestData : Type 0 where
  pub index_path : Text  -- `Index.Path`
  pub paths : Dict Text  -- the transaction id for each path

-- `strings.TrimPrefix(path, "/")`, `strings.TrimSuffix(path, "/")`
unfoldable pub trim_prefix : Text → Text
trim_prefix [] = []
trim_prefix (c ∷ path) = if c == b'/' then path else c ∷ path

unfoldable pub trim_suffix : Text → Text
trim_suffix [] = []
trim_suffix (c ∷ []) = if c == b'/' then [] else c ∷ []
trim_suffix (c ∷ d ∷ path) = c ∷ trim_suffix (d ∷ path)

unfoldable pub trim_path : Text → Text
trim_path path = trim_suffix (trim_prefix path)

abbrev pub or_page_not_found : Option Text → Result Text
or_page_not_found none = err page_not_found
or_page_not_found (some tx_id) = ok tx_id

-- a second try adds "/index.html"
abbrev pub or_index_html : ManifestData → Text → Option Text → Option Text
or_index_html mani path (some tx_id) = some tx_id
or_index_html mani path none = lookup (path ++ codes "/index.html") mani.paths

unfoldable pub lookup_path : ManifestData → Text → Result Text
lookup_path mani path = or_page_not_found (or_index_html mani path (lookup path mani.paths))

-- the empty path is that of the index
unfoldable pub path_or_index : ManifestData → Text → Result Text
path_or_index mani (c ∷ path) = ok (c ∷ path)
path_or_index mani [] = elim mani.index_path [ [] ↦ err page_not_found | c ∷ path ↦ ok (c ∷ path) ]

abbrev pub lookup_found : ManifestData → Result Text → Result Text
lookup_found mani (ok path) = lookup_path mani path
lookup_found mani (err e) = err e

-- the id of the transaction or item that `handleManifest` serves for a path
unfoldable pub resolve_path : ManifestData → Text → Result Text
resolve_path mani path = lookup_found mani (path_or_index mani (trim_path path))
