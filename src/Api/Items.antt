-- ===== src/Api/Items.antt =====
-- api.go: the handlers on bundle items, their data and their manifests (`getItemMeta`, `getItemField`,
-- `getItemIdsByArId`, `bundleFee`).
use arseeding.Prelude.{
  ℕ, Text, Bytes, codes, text_eq, Bool, ◌||◌, Option, none, some, List, [], if◌then◌else◌,
}
use arseeding.Prelude.Maps.{Dict, map_option}
use arseeding.Effect.{Result, ok, err, local_not_exist, other, bind_result}
use arseeding.Rawdb.Interface.{KeyValueDb}
use arseeding.Goar.Types.{Goar, Tag, Transaction}
use arseeding.Store.Numbers.{atoi}
use arseeding.Store.Records.{load_tx_meta}
use arseeding.Submit.Read.{tx_data_by_meta}
use arseeding.Fees.Types.{Decimals, Fee, RespFee}
use arseeding.Fees.Price.{calc_item_fee}
use arseeding.Bundle.Types.{BundleItem, BundleUtils}
use arseeding.Bundle.Items.{
  load_item_meta, load_item_binary, load_ar_id_to_item_ids, LoadedBinary, binary_reader, item_bytes,
}
use arseeding.Orders.Chain.{Bundler}
use arseeding.Manifest.Items.{parse_bundle_item, decoded}
use arseeding.Api.Range.{FileReads}
use arseeding.Api.Files.{TmpFiles, Reader, DataReply, Moves, data_response}
use arseeding.Api.Replies.{
  Reply, json, html, error_response, not_found_response, internal_error_response, or_internal_error,
}

-- what the data handlers answer
pub data ItemReply : Type 0 where
  plain : Reply (List Tag) → ItemReply
  number : ℕ → ItemReply
  data_reply : DataReply → ItemReply

-- the tags of data, the file that they are in, and else the data
abbrev pub Loaded : Type 0
Loaded = List Tag × Option Bytes × Bytes

-- the request: its address, its Range header, TLS and its host
pub record DataRequest : Type 0 where
  pub client_ip : Text
  pub range_header : Text
  pub tls : Bool
  pub host : Text

-- what the file system does meanwhile: the name that a new file gets, and how the calls on files end
pub record FileCalls : Type 0 where
  pub new_name : Text
  pub open_tmp : Result (Unit {0})
  pub stat : Result (Unit {0})
  pub moves : Moves

unfoldable pub is_data_field : Text → Bool
is_data_field field =
    text_eq field (codes "data")
    || (text_eq field (codes "data.json")
        || (text_eq field (codes "data.txt")
            || (text_eq field (codes "data.pdf")
                || (text_eq field (codes "data.png")
                    || (text_eq field (codes "data.jpeg")
                        || (text_eq field (codes "data.gif")
                            || text_eq field (codes "data.mp4")))))))

unfoldable pub bundle_fee :
    ⦃dec : Decimals⦄ → (Text → Text) → Dict Fee → Text → Text → Reply RespFee
bundle_fee to_upper per_fees size symbol = elim (atoi size) [
  | err e ↦ error_response e
  | ok num_size ↦ or_internal_error (calc_item_fee to_upper per_fees symbol num_size)
]

module _ ⦃kv : KeyValueDb⦄ ⦃g : Goar⦄ ⦃u : BundleUtils⦄ ⦃b : Bundler⦄ where
  unfoldable pub get_item_meta : Text → kv.Db → Reply BundleItem
  get_item_meta id db = or_internal_error (load_item_meta id db)

  unfoldable pub get_item_ids_by_ar_id : Text → kv.Db → Reply (List Text)
  get_item_ids_by_ar_id ar_id db = or_internal_error (load_ar_id_to_item_ids ar_id db)

  -- the results of `getBundleItemData`, the file apart from the bytes
  abbrev pub loaded_of : LoadedBinary → BundleItem → Result Loaded
  loaded_of (binary_reader file) item = ok (item.tags, item.data_reader, [])
  loaded_of (item_bytes bytes) item =
      bind_result (g.base64_decode item.data_text) λ data_bytes. ok (item.tags, none, data_bytes)

  unfoldable pub load_bundle_item_data : Text → kv.Db → Result Loaded
  load_bundle_item_data id db =
      bind_result (load_item_binary id db)
        λ binary. bind_result (parse_bundle_item binary) λ item. loaded_of binary item

  -- the results of `getArTxOrItemData`, likewise
  abbrev pub tx_loaded : ℕ → kv.Db → Result Transaction → Option (Result Loaded)
  tx_loaded fuel db (err e) = some (err local_not_exist)
  tx_loaded fuel db (ok tx) =
      map_option
        (λ r.
          bind_result r (λ bytes.
            bind_result (decoded (g.tags_decode tx.tags)) (λ tags. ok (tags, none, bytes))))
        (tx_data_by_meta fuel tx db)

  abbrev pub item_or_tx_loaded : ℕ → Text → kv.Db → Result BundleItem → Option (Result Loaded)
  item_or_tx_loaded fuel id db (ok item) = some (load_bundle_item_data id db)
  item_or_tx_loaded fuel id db (err e) = tx_loaded fuel db (load_tx_meta id db)

  unfoldable pub load_ar_tx_or_item_data : ℕ → Text → kv.Db → Option (Result Loaded)
  load_ar_tx_or_item_data fuel id db = item_or_tx_loaded fuel id db (load_item_meta id db)

  abbrev pub item_header : Text → BundleItem → ItemReply
  item_header field item =
      if text_eq field (codes "id")
      then plain (html item.id)
      else if text_eq field (codes "anchor")
      then plain (html item.anchor)
      else if text_eq field (codes "owner")
      then plain (html item.owner)
      else if text_eq field (codes "tags")
      then plain (json item.tags)
      else if text_eq field (codes "target")
      then plain (html item.target)
      else if text_eq field (codes "signature")
      then plain (html item.signature)
      else if text_eq field (codes "signatureType")
      then number item.signature_type
      else plain (error_response (other (codes "invalid_field")))

  abbrev pub named : Text → Option Bytes → Option Reader
  named name none = none
  named name (some file) = some (name, file)

  module _ ⦃f : FileReads⦄ (fuel : ℕ) (calls : FileCalls) (req : DataRequest) where
    abbrev pub answer_data :
        Option Reader → Bytes → List Tag → Text → TmpFiles → Option (TmpFiles × ItemReply)
    answer_data reader bytes tags id t =
        map_option (λ out. (out.0, data_reply out.1))
          (data_response fuel calls.stat calls.moves req.range_header req.client_ip reader bytes
            tags id t)

    abbrev pub answer_loaded : Text → Result Loaded → TmpFiles → Option (TmpFiles × ItemReply)
    answer_loaded id (err e) t = some (t, plain (internal_error_response e))
    answer_loaded id (ok (tags, reader, bytes)) t =
        answer_data (named calls.new_name reader) bytes tags id t

    abbrev pub item_field :
        Text → Text → kv.Db → Result BundleItem → TmpFiles → Option (TmpFiles × ItemReply)
    item_field id field db (err e) t = some (t, plain (not_found_response e))
    item_field id field db (ok item) t =
        let content = answer_loaded id (load_bundle_item_data id db) t in
        if is_data_field field then content else some (t, item_header field item)

    unfoldable pub get_item_field : Text → Text → kv.Db → TmpFiles → Option (TmpFiles × ItemReply)
    get_item_field id field db t = item_field id field db (load_item_meta id db) t
