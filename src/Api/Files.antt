-- ===== src/Api/Files.antt =====
-- api.go and jobs.go: the files that data are served from, and how often each is in use
-- (`dataResponse`, `genTmpFileName`, `existTmpFile`, `incFileCnt`, `decFileCnt`, `deleteTmpFile`).
use arseeding.Prelude.{
  ℕ, zero, suc, Text, Bytes, codes, text_eq, Bool, true, false, not, Option, none, some, List, [],
  ◌∷◌, ◌++◌, if◌then◌else◌,
}
use arseeding.Prelude.Int.{ℤ, pos, negsuc}
use arseeding.Prelude.Maps.{Dict, lookup, insert, remove, map_option}
use arseeding.Effect.{Result, ok, err}
use arseeding.Goar.Types.{Tag}
use arseeding.Bundle.Parse.{get_tag_value, content_type}
use arseeding.Api.Range.{FileReads, plus_one, minus, RangeReply, data_range_response}

-- `tmpFileMap`, and the files in the directory by their names
pub record TmpFiles : Type 0 where
  pub tmp_file_map : Dict ℤ
  pub files : Dict Bytes

unfoldable pub gen_tmp_file_name : Text → Text → Text
gen_tmp_file_name ip item_id = codes "./tmpFile/" ++ ip ++ codes "-read-" ++ item_id

abbrev pub is_some {ℓ} : {A : Type ℓ} → Option A → Bool
is_some none = false
is_some (some a) = true

abbrev pub or_zero : Option ℤ → ℤ
or_zero none = pos 0
or_zero (some n) = n

unfoldable pub exist_tmp_file : Text → TmpFiles → Bool
exist_tmp_file name t = is_some (lookup name t.tmp_file_map)

unfoldable pub inc_file_cnt : Text → TmpFiles → TmpFiles
inc_file_cnt name t = record t {
  tmp_file_map = insert name (plus_one (or_zero (lookup name t.tmp_file_map))) t.tmp_file_map;
}

unfoldable pub dec_file_cnt : Text → TmpFiles → TmpFiles
dec_file_cnt name t = record t {
  tmp_file_map = insert name (minus (or_zero (lookup name t.tmp_file_map)) (pos 1)) t.tmp_file_map;
}

abbrev pub is_positive : ℤ → Bool
is_positive (pos (suc n)) = true
is_positive (pos zero) = false
is_positive (negsuc n) = false

-- the loop of `deleteTmpFile` over the entries; a removal that fails is not looked at
unfoldable pub delete_unused : Dict ℤ → TmpFiles → TmpFiles
delete_unused [] t = t
delete_unused ((name, cnt) ∷ m) t = delete_unused m (
    if is_positive cnt
    then t
    else record t { tmp_file_map = remove name t.tmp_file_map; files = remove name t.files })

unfoldable pub delete_tmp_file : TmpFiles → TmpFiles
delete_tmp_file t = delete_unused t.tmp_file_map t

-- the name and the content of an open file
abbrev pub Reader : Type 0
Reader = Text × Bytes

pub data DataReply : Type 0 where
  -- `c.Data` with status 200
  data_content : Text → Bytes → DataReply
  -- `dataRangeResponse`, with the error response that follows its error
  data_range : RangeReply → DataReply
  data_is_replied : DataReply

-- A failed `os.Rename` or `os.Open` is an input.
pub record Moves : Type 0 where
  pub rename : Result (Unit {0})
  pub reopen : Result (Unit {0})

abbrev pub moved : Text → Text → Bytes → TmpFiles → TmpFiles
moved old new file t = record t { files = insert new file (remove old t.files) }

module _ ⦃f : FileReads⦄ where
  -- the file in use while it is served; the count goes down when the handler returns
  unfoldable pub serve_file :
      ℕ → Result (Unit {0}) → Text → Text → Bytes → TmpFiles → Option (TmpFiles × DataReply)
  serve_file fuel stat header tmp_file_name file t =
      map_option (λ r. (dec_file_cnt tmp_file_name (inc_file_cnt tmp_file_name t), data_range r))
        (data_range_response fuel stat header file)

  abbrev pub move_and_serve :
      ℕ
      → Result (Unit {0})
      → Moves
      → Text
      → Text
      → Reader
      → TmpFiles
      → Option (TmpFiles × DataReply)
  move_and_serve fuel stat moves header tmp_file_name (name, file) t = elim moves.rename [
    | err e ↦ some (dec_file_cnt name t, data_is_replied)
    | ok u ↦ elim moves.reopen [
      | err e ↦ some (moved name tmp_file_name file t, data_is_replied)
      | ok v ↦ serve_file fuel stat header tmp_file_name file (moved name tmp_file_name file t)
    ]
  ]

  abbrev pub serve_reader :
      ℕ
      → Result (Unit {0})
      → Moves
      → Text
      → Text
      → Reader
      → TmpFiles
      → Option (TmpFiles × DataReply)
  serve_reader fuel stat moves header tmp_file_name (name, file) t =
      let elsewhere = move_and_serve fuel stat moves header tmp_file_name (name, file) t in
      let in_place = serve_file fuel stat header tmp_file_name file t in
      if not (text_eq name tmp_file_name) then elsewhere else in_place

  unfoldable pub data_response :
      ℕ
      → Result (Unit {0})
      → Moves
      → Text
      → Text
      → Option Reader
      → Bytes
      → List Tag
      → Text
      → TmpFiles
      → Option (TmpFiles × DataReply)
  data_response fuel stat moves header ip (some reader) bytes tags id t =
      serve_reader fuel stat moves header (gen_tmp_file_name ip id) reader t
  data_response fuel stat moves header ip none bytes tags id t =
      some (t, data_content (get_tag_value tags content_type ++ codes "; charset=utf-8") bytes)
