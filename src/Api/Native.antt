-- ===== src/Api/Native.antt =====
-- api.go: native data are signed by the node and submitted (`submitNativeData`).
use arseeding.Prelude.{
  ℕ, Text, Bytes, codes, true, ltb, Option, none, some, List, [], ◌∷◌, if◌then◌else◌,
}
use arseeding.Prelude.Int.{pos}
use arseeding.Prelude.Maps.{Dict, lookup}
use arseeding.Effect.{Result, ok, err, other, bind_result, Eff, throw, ◌>>◌}
use arseeding.Rawdb.Interface.{KeyValueDb}
use arseeding.Goar.Types.{Tag}
use arseeding.Fees.Types.{Decimals, Fee}
use arseeding.Bundle.Types.{BundleItem, BundleUtils, ManifestTable}
use arseeding.Orders.Types.{Order, SqlDb, BigInts}
use arseeding.Orders.Wdb.{get_api_key_detail}
use arseeding.Orders.ApiKeys.{process_apikey_spend_bal}
use arseeding.Orders.Chain.{Bundler}
use arseeding.Orders.Expiry.{Site}
use arseeding.Orders.Submit.{Signers, Submission, at_wdb, process_submit_item}
use arseeding.Api.Replies.{Reply, RespItemId}
use arseeding.Api.Submit.{
  allow_stream_min_item_size, Upload, Settings, uploaded, is_sort_items, reply_with,
}

-- `CreateAndSignItemStream` and `CreateAndSignItem`, by the bytes and the tags
pub record ItemSigner : Type 0 where
  pub create_and_sign_item_stream : Bytes → List Tag → Result BundleItem
  pub create_and_sign_item : Bytes → List Tag → Result BundleItem

-- the query is the map of the parameters, in the order in which it is ranged over
pub record NativeRequest : Type 0 where
  pub api_key : Text
  pub sort_upper : Text
  pub sort_lower : Text
  pub currency : Text
  pub query : Dict (List Text)
  pub body : Option Upload
  pub create_temp : Result (Unit {0})

unfoldable pub tags_with : Text → List Text → List Tag → List Tag
tags_with name [] tags = tags
tags_with name (val ∷ values) tags =
    record { name = name; value = val } ∷ tags_with name values tags

unfoldable pub tags_of : Dict (List Text) → List Tag
tags_of [] = []
tags_of ((name, values) ∷ query) = tags_with name values (tags_of query)

abbrev pub has_content_type : Option (List Text) → Result (Unit {0})
has_content_type (some values) = ok tt
has_content_type none = err (other (codes "Query params must include Content-Type"))

abbrev pub or_assemble_failed : Result BundleItem → Result BundleItem
or_assemble_failed (ok item) = ok item
or_assemble_failed (err e) = err (other (codes "assemble bundle item failed"))

-- the text of the query's error is left out
abbrev pub or_wrong_key : Result (Unit {0}) → Result (Unit {0})
or_wrong_key (ok a) = ok a
or_wrong_key (err e) = err (other (codes "Wrong X-API-KEY"))

unfoldable pub known_key : ⦃sql : SqlDb⦄ → Text → sql.Db → Result (Unit {0})
known_key [] wdb = err (other (codes "Wrong X-API-KEY"))
known_key (c ∷ key) wdb =
    or_wrong_key (bind_result (get_api_key_detail (c ∷ key) wdb) (λ ak. ok tt))

abbrev pub native_submission : NativeRequest → ℕ → Submission
native_submission req size = record {
  currency = req.currency;
  is_no_fee_mode = true;
  api_key = req.api_key;
  is_sort = is_sort_items req.sort_upper req.sort_lower;
  size = size;
}

abbrev pub resp_item_id_of : Order → RespItemId
resp_item_id_of order = record { item_id = order.item_id; size = order.size }

module _ ⦃dec : Decimals⦄ ⦃big : BigInts⦄ ⦃k : Signers⦄ ⦃sql : SqlDb⦄ ⦃kv : KeyValueDb⦄
    ⦃m : ManifestTable⦄ ⦃u : BundleUtils⦄ ⦃b : Bundler⦄ (per_fees : Dict Fee)
    (node : Settings) where
  module _ ⦃signer : ItemSigner⦄ where
    -- `bundlerItemSigner`, whose errors are replaced by one
    unfoldable pub signed_item : Bytes → ℕ → List Tag → Result BundleItem
    signed_item bytes size tags = or_assemble_failed (
        if ltb allow_stream_min_item_size size
        then signer.create_and_sign_item_stream bytes tags
        else signer.create_and_sign_item bytes tags)

    unfoldable pub native_item_of : NativeRequest → sql.Db → Result (BundleItem × ℕ)
    native_item_of req wdb = bind_result (known_key req.api_key wdb) λ v.
        bind_result (has_content_type (lookup (codes "Content-Type") req.query)) λ v.
          bind_result (uploaded (codes "can not submit null native data") req.body req.create_temp)
            λ up. bind_result (signed_item up.0 up.1 (tags_of req.query)) λ item. ok (item, up.1)

    -- The fee is taken from the key whatever the mode of the node.
    unfoldable pub charge_and_submit_native : NativeRequest → BundleItem → ℕ → Eff Site Order
    charge_and_submit_native req item size =
        at_wdb (process_apikey_spend_bal per_fees req.currency req.api_key (pos size))
        >> process_submit_item per_fees (native_submission req size) node.reading item

    abbrev pub submit_signed : NativeRequest → Result (BundleItem × ℕ) → Eff Site Order
    submit_signed req (ok (item, size)) = charge_and_submit_native req item size
    submit_signed req (err e) = throw e

    unfoldable pub submit_native_data : NativeRequest → Site → Site × Reply RespItemId
    submit_native_data req s =
        reply_with resp_item_id_of (submit_signed req (native_item_of req s.wdb) s)
