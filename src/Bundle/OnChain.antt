-- ===== src/Bundle/OnChain.antt =====
-- jobs.go: `getOnChainBundle`, which puts the items of a bundle together.
use arseeding.Prelude.{
  Text, Bytes, codes, Bool, true, false, Option, none, some, List, [], ◌∷◌, ◌++◌, if◌then◌else◌,
}
use arseeding.Effect.{Result, ok, err, other, bind_result}
use arseeding.Rawdb.Interface.{KeyValueDb}
use arseeding.Bundle.Types.{BundleItem, BundleUtils}
use arseeding.Bundle.Items.{LoadedBinary, binary_reader, item_bytes, load_item_binary}

abbrev pub nil_text : Text → Bool
nil_text [] = true
nil_text (c ∷ t) = false

-- the data of the last item
abbrev pub end_data : BundleItem → List BundleItem → Text
end_data item [] = item.data_text
end_data item (i ∷ items) = end_data i items

-- The first item that has data, and the others in their order.
unfoldable pub take_with_data : List BundleItem → Option (BundleItem × List BundleItem)
take_with_data [] = none
take_with_data (i ∷ items) =
    let rest = take_with_data items in
    elim i.data_text [
      | [] ↦ elim rest [ none ↦ none | some (found, others) ↦ some (found, i ∷ others) ]
      | _ ∷ _ ↦ some (i, items)
    ]

-- The item found, at the end of the others.
abbrev pub moved : Option (BundleItem × List BundleItem) → Result (List BundleItem)
moved none = err (other (codes "all bundle items data are null"))
moved (some (found, others)) = ok (others ++ (found ∷ []))

unfoldable pub arrange : List BundleItem → Result (List BundleItem)
arrange [] = err (other (codes "onChainItems is null"))
arrange (i ∷ items) =
    if nil_text (end_data i items) then moved (take_with_data (i ∷ items)) else ok (i ∷ items)

module _ ⦃kv : KeyValueDb⦄ ⦃u : BundleUtils⦄ where
  -- The code decodes the second result of `LoadItemBinary`, which is empty beside a file.
  abbrev pub bytes_of : LoadedBinary → Bytes
  bytes_of (binary_reader b) = []
  bytes_of (item_bytes b) = b

  unfoldable pub load_item : Text → kv.Db → Result BundleItem
  load_item item_id db =
      bind_result (load_item_binary item_id db) (λ b. u.decode_bundle_item (bytes_of b))

  abbrev pub add_loaded : Result BundleItem → List BundleItem → List BundleItem
  add_loaded (ok item) items = item ∷ items
  add_loaded (err e) items = items

  -- An item that cannot be loaded or decoded is passed over.
  unfoldable pub load_items : List Text → kv.Db → List BundleItem
  load_items [] db = []
  load_items (id ∷ ids) db = add_loaded (load_item id db) (load_items ids db)

  unfoldable pub get_on_chain_bundle : List Text → kv.Db → Result (List BundleItem)
  get_on_chain_bundle item_ids db = arrange (load_items item_ids db)
