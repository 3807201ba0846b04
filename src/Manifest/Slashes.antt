-- ===== src/Manifest/Slashes.antt =====
-- manifest.go: slashes around a path do not count.
use arseeding.Prelude.{ℕ, Text, ◌≡◌, refl, sym, ap, ◌∙◌, [], ◌∷◌, ◌++◌, ◌==◌, false}
use arseeding.Manifest.Resolve.{
  ManifestData, trim_prefix, trim_suffix, trim_path, path_or_index, lookup_found, resolve_path,
}

trim_suffix-slash : (path : Text) → trim_suffix (path ++ b'/' ∷ []) ≡ path
unfolding trim_suffix
trim_suffix-slash [] = refl
trim_suffix-slash (c ∷ []) = refl
trim_suffix-slash (c ∷ d ∷ path) = ap (λ t. c ∷ t) (trim_suffix-slash (d ∷ path))

module _ (c : ℕ) (path : Text) (first : (c == b'/') ≡ false)
    (last : trim_suffix (c ∷ path) ≡ c ∷ path) where
  trim_path-bare : trim_path (c ∷ path) ≡ c ∷ path
  unfolding trim_path trim_prefix
  trim_path-bare = rw first last

  trim_path-front : trim_path (b'/' ∷ c ∷ path) ≡ c ∷ path
  unfolding trim_path trim_prefix
  trim_path-front = last

  trim_path-back : trim_path (c ∷ path ++ b'/' ∷ []) ≡ c ∷ path
  unfolding trim_path trim_prefix
  trim_path-back = rw first (trim_suffix-slash (c ∷ path))

  trim_path-both : trim_path (b'/' ∷ c ∷ path ++ b'/' ∷ []) ≡ c ∷ path
  unfolding trim_path trim_prefix
  trim_path-both = trim_suffix-slash (c ∷ path)

  -- A path of at least one byte that neither begins nor ends with a slash is resolved alike with a slash before it, behind
  -- it, or at both ends.
  pub resolve_path-slashes :
      (mani : ManifestData)
      → (resolve_path mani (b'/' ∷ c ∷ path) ≡ resolve_path mani (c ∷ path))
        × (resolve_path mani (c ∷ path ++ b'/' ∷ []) ≡ resolve_path mani (c ∷ path))
        × (resolve_path mani (b'/' ∷ c ∷ path ++ b'/' ∷ []) ≡ resolve_path mani (c ∷ path))
  unfolding resolve_path
  resolve_path-slashes mani =
      let found = λ (p : Text). lookup_found mani (path_or_index mani p) in
      (
        ap found (trim_path-front ∙ sym trim_path-bare),
        ap found (trim_path-back ∙ sym trim_path-bare),
        ap found (trim_path-both ∙ sym trim_path-bare),
      )
