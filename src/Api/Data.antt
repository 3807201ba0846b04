-- ===== src/Api/Data.antt =====
-- api.go: data are routed to their manifest, their file or the store, and a manifest is named
-- (`dataRoute`, `setManifestUrl`).
use arseeding.Prelude.{
  ℕ, Text, Bytes, codes, text_eq, Bool, ◌&&◌, Option, none, some, List, [], ◌++◌, if◌then◌else◌,
}
use arseeding.Prelude.Maps.{lookup}
use arseeding.Effect.{Result, ok, err, local_not_exist, pure}
use arseeding.Rawdb.Interface.{KeyValueDb}
use arseeding.Goar.Types.{Goar, Tag}
use arseeding.Bundle.Types.{BundleItem, BundleUtils, ManifestTable}
use arseeding.Bundle.Items.{load_item_meta}
use arseeding.Bundle.Parse.{
  get_manifest_id, insert_manifest, insert_if, expected_tx_sandbox, get_tag_value, content_type,
  manifest_type,
}
use arseeding.Orders.Chain.{Bundler}
use arseeding.Manifest.Items.{get_ar_tx_or_item_tags}
use arseeding.Api.Range.{FileReads}
use arseeding.Api.Files.{TmpFiles, gen_tmp_file_name, exist_tmp_file}
use arseeding.Api.Replies.{Reply, json, internal_error_response, proxy_arweave_gateway, redirect}
use arseeding.Api.Items.{
  ItemReply, plain, Loaded, DataRequest, FileCalls, load_ar_tx_or_item_data, named, answer_data,
}

-- schema/manifest.go: `Manifest`
pub record ManifestRow : Type 0 where
  pub manifest_url : Text
  pub manifest_id : Text

module _ ⦃kv : KeyValueDb⦄ ⦃g : Goar⦄ ⦃u : BundleUtils⦄ ⦃b : Bundler⦄ where
  module _ ⦃f : FileReads⦄ (fuel : ℕ) (calls : FileCalls) (req : DataRequest) where
    module _ ⦃m : ManifestTable⦄ (enable_manifest : Bool) where
      abbrev pub Routed : Type 0
      Routed = Option (m.Table × TmpFiles × ItemReply)

      abbrev pub sandbox_url : Text → Text
      sandbox_url mf_url =
          (if req.tls then codes "https" else codes "http")
          ++ codes "://"
          ++ mf_url
          ++ codes "."
          ++ req.host

      -- behind the insertion of a manifest that is new
      abbrev pub redirect_or_error : Text → TmpFiles → m.Table × Result (Unit {0}) → Routed
      redirect_or_error mf_url t (rows, ok u) =
          some (rows, t, plain (redirect (sandbox_url mf_url)))
      redirect_or_error mf_url t (rows, err e) = some (rows, t, plain (internal_error_response e))

      abbrev pub with_rows : m.Table → Option (TmpFiles × ItemReply) → Routed
      with_rows rows none = none
      with_rows rows (some (t, r)) = some (rows, t, r)

      abbrev pub route_loaded : Text → m.Table → Result Loaded → TmpFiles → Routed
      route_loaded tx_id rows (err local_not_exist) t = some (rows, t, plain proxy_arweave_gateway)
      route_loaded tx_id rows (err e) t = some (rows, t, plain (internal_error_response e))
      route_loaded tx_id rows (ok (tags, reader, bytes)) t =
          let mf_url = expected_tx_sandbox tx_id in
          let served =
            answer_data fuel calls req (named calls.new_name reader) bytes tags tx_id t in
          if enable_manifest && text_eq (get_tag_value tags content_type) manifest_type
          then redirect_or_error mf_url t
              (insert_if mf_url tx_id (get_manifest_id mf_url rows) rows)
          else with_rows rows served

      abbrev pub route_found : Text → m.Table → Option (Result Loaded) → TmpFiles → Routed
      route_found tx_id rows none t = none
      route_found tx_id rows (some r) t = route_loaded tx_id rows r t

      -- the content of the file that an earlier request left
      abbrev pub tmp_content : Option Bytes → Bytes
      tmp_content (some file) = file
      tmp_content none = []

      abbrev pub answer_item :
          Text → Text → Result BundleItem → TmpFiles → Option (TmpFiles × ItemReply)
      answer_item tx_id tmp (err e) t = some (t, plain (internal_error_response e))
      answer_item tx_id tmp (ok item) t =
          answer_data fuel calls req (some (tmp, tmp_content (lookup tmp t.files))) [] item.tags
            tx_id t

      -- A file that exists is opened first.
      abbrev pub answer_tmp :
          Text → Text → kv.Db → Result (Unit {0}) → TmpFiles → Option (TmpFiles × ItemReply)
      answer_tmp tx_id tmp db (err e) t = some (t, plain (internal_error_response e))
      answer_tmp tx_id tmp db (ok u) t = answer_item tx_id tmp (load_item_meta tx_id db) t

      unfoldable pub data_route : Text → kv.Db → m.Table → TmpFiles → Routed
      data_route tx_id db rows t =
          let tmp = gen_tmp_file_name req.client_ip tx_id in
          let from_tmp = with_rows rows (answer_tmp tx_id tmp db calls.open_tmp t) in
          let from_store = route_found tx_id rows (load_ar_tx_or_item_data fuel tx_id db) t in
          if exist_tmp_file tmp t then from_tmp else from_store

  module _ ⦃m : ManifestTable⦄ (enable_manifest : Bool) where
    abbrev pub inserted_row :
        Text → Text → m.Table × Result (Unit {0}) → m.Table × Reply ManifestRow
    inserted_row mf_url tx_id (rows, ok u) =
        (rows, json (record { manifest_url = mf_url; manifest_id = tx_id }))
    inserted_row mf_url tx_id (rows, err e) = (rows, internal_error_response e)

    abbrev pub set_by_tags : Text → Text → Result (List Tag) → m.Table → m.Table × Reply ManifestRow
    set_by_tags mf_url tx_id (err e) rows = (rows, internal_error_response e)
    set_by_tags mf_url tx_id (ok tags) rows = inserted_row mf_url tx_id (
        (if enable_manifest && text_eq (get_tag_value tags content_type) manifest_type
            then insert_manifest mf_url tx_id
            else pure tt)
          rows)

    abbrev pub known_or_set :
        Text → Text → Result Text → Result (List Tag) → m.Table → m.Table × Reply ManifestRow
    known_or_set mf_url tx_id (ok mf_id) tags rows =
        (rows, json (record { manifest_url = mf_url; manifest_id = mf_id }))
    known_or_set mf_url tx_id (err e) tags rows = set_by_tags mf_url tx_id tags rows

    unfoldable pub set_manifest_url : Text → kv.Db → m.Table → m.Table × Reply ManifestRow
    set_manifest_url tx_id db rows =
        let mf_url = expected_tx_sandbox tx_id in
        known_or_set mf_url tx_id (get_manifest_id mf_url rows) (get_ar_tx_or_item_tags tx_id db)
          rows
