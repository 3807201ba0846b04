-- ===== src/Api/Stored.antt =====
-- api.go: from `submitItem` to `getItemField` and `dataRoute`.
use arseeding.Prelude.{
  ℕ, Text, Bytes, codes, text_eq, ◌≡◌, refl, sym, ap, subst, ◌∙◌, Bool, true, false, ◌&&◌, inl, inr,
  none, some, [], ◌∷◌, ◌++◌,
}
use arseeding.Prelude.Int.{pos}
use arseeding.Prelude.Maps.{Dict}
use arseeding.Effect.{Result, ok, err, >>=-cases, pure}
use arseeding.Rawdb.Interface.{KeyValueDb}
use arseeding.Goar.Types.{Goar}
use arseeding.Fees.Types.{Decimals, Fee}
use arseeding.Bundle.Types.{BundleItem, BundleUtils, ManifestTable}
use arseeding.Bundle.Items.{
  binary_of, save_item, is_exist_item_binary, load_item_binary, load_item_meta,
}
use arseeding.Bundle.ItemLaws.{Saved, save_item-Saved}
use arseeding.Bundle.Parse.{get_tag_value, content_type, manifest_type}
use arseeding.Orders.Types.{Order, SqlDb, BigInts}
use arseeding.Orders.ApiKeys.{process_apikey_spend_bal}
use arseeding.Orders.Chain.{Bundler}
use arseeding.Orders.Expiry.{Site}
use arseeding.Orders.Submit.{Signers, at_wdb, process_submit_item}
use arseeding.Orders.Submitted.{Submitted, process_submit_item-Submitted}
use arseeding.Manifest.Items.{parse_bundle_item}
use arseeding.Api.Replies.{json, RespOrder, resp_order_of}
use arseeding.Api.Range.{FileReads}
use arseeding.Api.Files.{TmpFiles, data_content, data_response, gen_tmp_file_name, exist_tmp_file}
use arseeding.Api.Submit.{
  ItemRequest, Settings, charge, submission, charge_and_submit, reply_with, item_of, submit_item,
}
use arseeding.Api.Items.{
  ItemReply, data_reply, DataRequest, FileCalls, is_data_field, load_bundle_item_data,
  load_ar_tx_or_item_data, get_item_field,
}
use arseeding.Api.Data.{data_route}

module _ ⦃dec : Decimals⦄ ⦃big : BigInts⦄ ⦃k : Signers⦄ ⦃sql : SqlDb⦄ ⦃kv : KeyValueDb⦄
    ⦃m : ManifestTable⦄ ⦃u : BundleUtils⦄ ⦃b : Bundler⦄ (per_fees : Dict Fee) (node : Settings)
    (req : ItemRequest) where
  charge-node :
      (currency apikey : Text) (size : ℕ) (s : Site)
      → (charge per_fees node currency apikey size s).0.node ≡ s.node
  unfolding charge
  charge-node currency [] size s = refl
  charge-node currency (c ∷ apikey) size s =
      let spend = process_apikey_spend_bal per_fees currency (c ∷ apikey) (pos size) in
      elim (>>=-cases (at_wdb spend) (λ v. pure true) s) [
        | inl (v, done, out) ↦ rw out refl
        | inr (e, failed, out) ↦ rw out refl
      ]

  Submitted-saved :
      (item : BundleItem) (size : ℕ) (has_apikey : Bool) (ord : Order) (s : Site)
      (out : Site × Result Order)
      → Submitted per_fees (submission per_fees node req size has_apikey) node.reading item s out
      → out.1 ≡ ok ord
      → save_item item s.node.db ≡ (out.0.node.db, ok tt)
  Submitted-saved item size has_apikey ord s (s', ok o) (verified, saved, of_item, added) h = saved
  Submitted-saved item size has_apikey ord s (s', err e) same h = absurd cc

  charge_and_submit-saved :
      (item : BundleItem) (size : ℕ) (ord : Order) (s : Site)
      → (charge_and_submit per_fees node req item size s).1 ≡ ok ord
      → save_item item s.node.db
        ≡ ((charge_and_submit per_fees node req item size s).0.node.db, ok tt)
  unfolding charge_and_submit
  charge_and_submit-saved item size ord s h =
      let charged = charge per_fees node req.currency req.api_key size in
      let submit = λ (has_apikey : Bool).
        process_submit_item per_fees (submission per_fees node req size has_apikey) node.reading
          item in
      elim (>>=-cases charged submit s) [
        | inl (has_apikey, done, out) ↦
            ap (λ n. save_item item n.db) (sym (charge-node req.currency req.api_key size s))
            ∙ Submitted-saved item size has_apikey ord (charged s).0
                (submit has_apikey (charged s).0)
                (process_submit_item-Submitted per_fees
                  (submission per_fees node req size has_apikey) node.reading item (charged s).0)
                (sym (ap (λ r. r.1) out) ∙ h)
            ∙ ap (λ r. (r.0.node.db, ok tt)) (sym out)
        | inr (e, failed, out) ↦ let f = sym (ap (λ r. r.1) out) ∙ h in absurd cc
      ]

  answered-ok :
      (resp : RespOrder) (out : Site × Result Order)
      → (reply_with (resp_order_of node.bundler) out).1 ≡ json resp
      → (ord : Order) × (out.1 ≡ ok ord)
  answered-ok resp (s, ok ord) h = (ord, refl)
  answered-ok resp (s, err e) h = absurd cc

  submit_item-saved :
      (item : BundleItem) (size : ℕ) (resp : RespOrder) (s : Site)
      → item_of per_fees node req ≡ ok (item, size)
      → (submit_item per_fees node req s).1 ≡ json resp
      → save_item item s.node.db ≡ ((submit_item per_fees node req s).0.node.db, ok tt)
  unfolding submit_item
  submit_item-saved item size resp s decoded answer =
      let run : submit_item per_fees node req s
          ≡ reply_with (resp_order_of node.bundler)
              (charge_and_submit per_fees node req item size s) =
        rw decoded refl in
      let (ord, done) =
        answered-ok resp (charge_and_submit per_fees node req item size s)
          (sym (ap (λ r. r.1) run) ∙ answer) in
      charge_and_submit-saved item size ord s done ∙ ap (λ r. (r.0.node.db, ok tt)) (sym run)

-- the bytes with their content type
abbrev pub content_reply : BundleItem → Bytes → ItemReply
content_reply item bytes =
    data_reply
      (data_content (get_tag_value item.tags content_type ++ codes "; charset=utf-8") bytes)

module _ ⦃kv : KeyValueDb⦄ ⦃g : Goar⦄ ⦃u : BundleUtils⦄ ⦃b : Bundler⦄ where
  saved_binary :
      (item : BundleItem)
      → item.data_reader ≡ none
      → binary_of item.data_reader item ≡ ok item.item_binary
  unfolding binary_of
  saved_binary item h = rw h refl

  -- what the data handlers load of an item that is saved
  IsLoaded : BundleItem → Bytes → kv.Db → Type 0
  IsLoaded item bytes db =
      ((meta : BundleItem) × (load_item_meta item.id db ≡ ok meta))
      × (load_bundle_item_data item.id db ≡ ok (item.tags, none, bytes))

  Saved-IsLoaded :
      (item : BundleItem) (bytes : Bytes) (before after : kv.Db)
      → kv.is_s3 ≡ false
      → u.decode_bundle_item item.item_binary ≡ ok item
      → g.base64_decode item.data_text ≡ ok bytes
      → Saved item item.item_binary before (after, ok tt)
      → IsLoaded item bytes after
  unfolding load_bundle_item_data load_item_binary parse_bundle_item IsLoaded
  Saved-IsLoaded item bytes before after local decodes reads (binary, meta) =
      ((_, meta), rw (local, binary, decodes) (rw reads refl))

  module _ ⦃f : FileReads⦄ ⦃m : ManifestTable⦄ (fuel : ℕ) (calls : FileCalls) (dr : DataRequest)
      (enable_manifest : Bool) where
    get_item_field-IsLoaded :
        (item : BundleItem) (bytes : Bytes) (field : Text) (db : kv.Db) (t : TmpFiles)
        → IsLoaded item bytes db
        → is_data_field field ≡ true
        → get_item_field fuel calls dr item.id field db t ≡ some (t, content_reply item bytes)
    unfolding get_item_field data_response IsLoaded
    get_item_field-IsLoaded item bytes field db t ((meta, known), loaded) data_field =
        rw (known, loaded, data_field) refl

    data_route-IsLoaded :
        (item : BundleItem) (bytes : Bytes) (db : kv.Db) (rows : m.Table) (t : TmpFiles)
        → IsLoaded item bytes db
        → exist_tmp_file (gen_tmp_file_name dr.client_ip item.id) t ≡ false
        → (enable_manifest && text_eq (get_tag_value item.tags content_type) manifest_type) ≡ false
        → data_route fuel calls dr enable_manifest item.id db rows t
          ≡ some (rows, t, content_reply item bytes)
    unfolding data_route load_ar_tx_or_item_data data_response IsLoaded
    data_route-IsLoaded item bytes db rows t ((meta, known), loaded) no_file no_manifest =
        rw (no_file, known, loaded, no_manifest) refl

-- On a database other than S3, an upload that decodes to an item that was not in the store, is not in a
-- file, and is what its binary decodes to: where `submit_item` answers with an order, `get_item_field`
-- answers a data field of the item, and `data_route` its id, with exactly the data of the item and its
-- content type, from the store that `submit_item` left. No file of an earlier request for the item is
-- there, and it is not a manifest or manifests are off.
pub submit_item-get_item_field :
    ⦃dec : Decimals⦄ ⦃big : BigInts⦄ ⦃k : Signers⦄ ⦃sql : SqlDb⦄ ⦃kv : KeyValueDb⦄ ⦃g : Goar⦄
    ⦃m : ManifestTable⦄ ⦃u : BundleUtils⦄ ⦃b : Bundler⦄ ⦃f : FileReads⦄ (per_fees : Dict Fee)
    (node : Settings) (req : ItemRequest) (item : BundleItem) (size : ℕ) (bytes : Bytes)
    (resp : RespOrder) (s : Site)
    → kv.is_s3 ≡ false
    → item_of per_fees node req ≡ ok (item, size)
    → item.data_reader ≡ none
    → u.decode_bundle_item item.item_binary ≡ ok item
    → g.base64_decode item.data_text ≡ ok bytes
    → is_exist_item_binary item.id s.node.db ≡ false
    → (submit_item per_fees node req s).1 ≡ json resp
    → (fuel : ℕ) (calls : FileCalls) (dr : DataRequest) (enable_manifest : Bool) (rows : m.Table)
      (t : TmpFiles) (field : Text)
    → is_data_field field ≡ true
    → exist_tmp_file (gen_tmp_file_name dr.client_ip item.id) t ≡ false
    → (enable_manifest && text_eq (get_tag_value item.tags content_type) manifest_type) ≡ false
    → (get_item_field fuel calls dr item.id field (submit_item per_fees node req s).0.node.db t
        ≡ some (t, content_reply item bytes))
      × (data_route fuel calls dr enable_manifest item.id
            (submit_item per_fees node req s).0.node.db
            rows
            t
          ≡ some (rows, t, content_reply item bytes))
submit_item-get_item_field per_fees node req item size bytes resp s local decoded whole decodes
      reads absent answer fuel calls dr enable_manifest rows t field data_field no_file
      no_manifest =
    let after = (submit_item per_fees node req s).0.node.db in
    let saved = submit_item-saved per_fees node req item size resp s decoded answer in
    let loaded = Saved-IsLoaded item bytes s.node.db after local decodes reads (
      subst (Saved item item.item_binary s.node.db) saved
        (save_item-Saved item item.item_binary s.node.db (saved_binary item whole) absent)) in
    (
      get_item_field-IsLoaded fuel calls dr enable_manifest item bytes field after t loaded
          data_field,
      data_route-IsLoaded fuel calls dr enable_manifest item bytes after rows t loaded no_file
          no_manifest,
    )
