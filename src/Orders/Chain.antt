-- ===== src/Orders/Chain.antt =====
-- jobs.go: paid orders go on chain in a bundle (`onChainOrds`, `onChainBundleTx`, `updateOnChainInfo`,
-- `onChainBundleItems`, `onChainItemsBySeq`, `arTxWatcher`).
use arseeding.Prelude.{
  ℕ, zero, suc, ◌+◌, ◌^◌, Text, Bytes, codes, Bool, true, false, ltb, ◌&&◌, none, some, List, [],
  ◌∷◌, map, length, if◌then◌else◌,
}
use arseeding.Effect.{Result, ok, err, other, bind_result}
use arseeding.Rawdb.Interface.{KeyValueDb}
use arseeding.Bundle.Types.{BundleItem, BundleUtils}
use arseeding.Bundle.Items.{load_item_binary, LoadedBinary, binary_reader, item_bytes}
use arseeding.Bundle.OnChain.{load_items, get_on_chain_bundle, add_loaded}
use arseeding.Orders.Types.{
  Order, OnChainTx, SqlDb, max_per_on_chain_size, pending_on_chain, succ_on_chain,
}
use arseeding.Orders.Wdb.{
  exist_processed_order_item, update_ord_on_chain_status, insert_ar_tx, get_need_on_chain_orders,
  get_need_on_chain_orders_sorted,
}

-- `totalSize+ord.Size > schema.MaxPerOnChainSize`: from 2^63 on the sum of two int64 is negative.
unfoldable pub too_big : ℕ → ℕ → Bool
too_big total size = let sum = total + size in ltb max_per_on_chain_size sum && ltb sum (2 ^ 63)

module _ ⦃sql : SqlDb⦄ where
  -- The loop of `onChainOrds`, from the total size on: the orders whose items go into the bundle. What
  -- the update returns is logged.
  unfoldable pub choose_orders : ℕ → List Order → sql.Db → sql.Db × List Order
  choose_orders total [] db = (db, [])
  choose_orders total (ord ∷ ords) db = elim (too_big total ord.size) [
    | true ↦ choose_orders total ords db
    | false ↦ elim (exist_processed_order_item ord.item_id db) [
      | some od ↦
          choose_orders total ords (update_ord_on_chain_status od.item_id od.on_chain_status db).0
      | none ↦ let (db', chosen) = choose_orders (total + ord.size) ords db in (db', ord ∷ chosen)
    ]
  ]

  -- the status of the orders of each item, an error is logged
  unfoldable pub set_on_chain_status : List Text → Text → sql.Db → sql.Db
  set_on_chain_status [] status db = db
  set_on_chain_status (id ∷ ids) status db =
      set_on_chain_status ids status (update_ord_on_chain_status id status db).0

-- the transaction that `SendBundleTxSpeedUp` returns, as far as it is recorded
pub record SentTx : Type 0 where
  pub id : Text
  pub data_size : Text
  pub reward : Text

-- goar's functions on bundles, and the answer of the network to a bundle
pub record Bundler : Type 0 where
  -- `utils.NewBundle` and, with the content of the file, `utils.NewBundleStream`
  pub new_bundle : List BundleItem → Result Bytes
  pub new_bundle_stream : List BundleItem → Result Bytes
  -- `utils.DecodeBundleItemStream`, `utils.DecodeBundleStream`, `utils.VerifyBundleItem`
  pub decode_bundle_item_stream : Bytes → Result BundleItem
  pub decode_bundle_stream : Bytes → Result (List BundleItem)
  pub verify_bundle_item : BundleItem → Result (Unit {0})
  pub send_bundle_tx_speed_up : Bytes → Result SentTx

module _ ⦃b : Bundler⦄ where
  unfoldable pub verify_items : List BundleItem → Result (Unit {0})
  verify_items [] = ok tt
  verify_items (item ∷ items) =
      let rest = verify_items items in
      elim (b.verify_bundle_item item) [
        | ok u ↦ rest
        | err e ↦ err (other (codes "utils.VerifyBundleItem(item) failed"))
      ]

  -- Nothing is sent of no bytes.
  unfoldable pub send_bytes : Bytes → Result SentTx
  send_bytes [] = err (other (codes "bundle.BundleDataReader is null"))
  send_bytes (c ∷ bytes) = b.send_bundle_tx_speed_up (c ∷ bytes)

  unfoldable pub send_bundle : List BundleItem → Bytes → Result (SentTx × List Text)
  send_bundle items bytes = bind_result (send_bytes bytes) (λ tx. ok (tx, map (λ i. i.id) items))

module _ ⦃kv : KeyValueDb⦄ ⦃u : BundleUtils⦄ ⦃b : Bundler⦄ where
  -- the file that `LoadItemBinary` returns, none beside bytes
  abbrev pub file_of : LoadedBinary → Bytes
  file_of (binary_reader file) = file
  file_of (item_bytes bytes) = []

  unfoldable pub load_item_stream : Text → kv.Db → Result BundleItem
  load_item_stream item_id db =
      bind_result (load_item_binary item_id db)
        λ loaded. b.decode_bundle_item_stream (file_of loaded)

  -- An item that cannot be loaded or decoded is passed over.
  unfoldable pub load_items_stream : List Text → kv.Db → List BundleItem
  load_items_stream [] db = []
  load_items_stream (id ∷ ids) db = add_loaded (load_item_stream id db) (load_items_stream ids db)

  abbrev pub not_null : List BundleItem → Result (List BundleItem)
  not_null [] = err (other (codes "onChainItems is null"))
  not_null (i ∷ items) = ok (i ∷ items)

  unfoldable pub get_on_chain_bundle_stream : List Text → kv.Db → Result (List BundleItem)
  get_on_chain_bundle_stream item_ids db = not_null (load_items_stream item_ids db)

  -- What `getOnChainBundle` returns is used beside an error too: with "all bundle items data are null"
  -- these are all the items that were loaded, and with "onChainItems is null" there are none.
  unfoldable pub on_chain_items : List Text → kv.Db → List BundleItem
  on_chain_items item_ids db = elim (get_on_chain_bundle item_ids db) [
    | ok items ↦ items
    | err e ↦ load_items item_ids db
  ]

  unfoldable pub bundle_binary : List BundleItem → Result (SentTx × List Text)
  bundle_binary items = bind_result (b.new_bundle items) λ bytes. elim (u.decode_bundle bytes) [
    | ok v ↦ send_bundle items bytes
    | err e ↦ err (other (codes "Verify bundle failed"))
  ]

  unfoldable pub bundle_stream : List BundleItem → Result (SentTx × List Text)
  bundle_stream items = bind_result (b.new_bundle_stream items) λ bytes.
      elim (b.decode_bundle_stream bytes) [
        | ok parsed ↦ bind_result (verify_items parsed) (λ v. send_bundle items bytes)
        | err e ↦ err (other (codes "Verify bundle failed"))
      ]

  unfoldable pub on_chain_bundle_tx : List Text → kv.Db → Result (SentTx × List Text)
  on_chain_bundle_tx item_ids db =
      if kv.is_s3
      then bind_result (get_on_chain_bundle_stream item_ids db) bundle_stream
      else bundle_binary (on_chain_items item_ids db)

-- `arTxWatcher`: the status of the transaction is asked for at most 21 times. The answer to question
-- `i` is a number of confirmations, or an error.
unfoldable pub watch_rounds : ℕ → ℕ → (ℕ → Result ℕ) → Bool
watch_rounds zero i answer = false
watch_rounds (suc n) i answer =
    let rest = watch_rounds n (suc i) answer in
    elim (answer i) [ ok confirmations ↦ if ltb confirmations 3 then rest else true | err e ↦ rest ]

unfoldable pub ar_tx_watcher : (ℕ → Result ℕ) → Bool
ar_tx_watcher answer = watch_rounds 21 1 answer

module _ ⦃sql : SqlDb⦄ ⦃u : BundleUtils⦄ where
  -- `height` is that of the network
  unfoldable pub update_on_chain_info : ℕ → List Text → SentTx → Text → sql.Db → sql.Db
  update_on_chain_info height ids tx status db =
      let row : OnChainTx = record {
        id = 0;
        ar_id = tx.id;
        cur_height = height;
        block_id = [];
        block_height = 0;
        data_size = tx.data_size;
        reward = tx.reward;
        status = pending_on_chain;
        item_ids = u.marshal_ids ids;
        item_num = length ids;
        kafka = false;
      } in
      let (db', r) = insert_ar_tx row db in
      let marked = set_on_chain_status ids status db' in elim r [ ok v ↦ marked | err e ↦ db' ]

module _ ⦃sql : SqlDb⦄ ⦃kv : KeyValueDb⦄ ⦃u : BundleUtils⦄ ⦃b : Bundler⦄ where
  unfoldable pub on_chain_ords : List Order → kv.Db → sql.Db → sql.Db × Result (SentTx × List Text)
  on_chain_ords ords store db =
      let (db', chosen) = choose_orders 0 ords db in
      (db', on_chain_bundle_tx (map (λ o. o.item_id) chosen) store)

  -- An error is logged.
  abbrev pub on_chain_recorded : ℕ → Text → Bool → sql.Db × Result (SentTx × List Text) → sql.Db
  on_chain_recorded height status seen (db, ok (tx, ids)) =
      if seen then update_on_chain_info height ids tx status db else db
  on_chain_recorded height status seen (db, err e) = db

  unfoldable pub on_chain_found : ℕ → Text → Bool → kv.Db → Result (List Order) → sql.Db → sql.Db
  on_chain_found height status seen store (err e) db = db
  on_chain_found height status seen store (ok []) db = db
  on_chain_found height status seen store (ok (o ∷ ords)) db =
      on_chain_recorded height status seen (on_chain_ords (o ∷ ords) store db)

  unfoldable pub on_chain_bundle_items : ℕ → kv.Db → sql.Db → sql.Db
  on_chain_bundle_items height store db =
      on_chain_found height pending_on_chain true store (get_need_on_chain_orders db) db

  -- `answer` is what the watcher is told
  unfoldable pub on_chain_items_by_seq : ℕ → (ℕ → Result ℕ) → kv.Db → sql.Db → sql.Db
  on_chain_items_by_seq height answer store db =
      on_chain_found height succ_on_chain (ar_tx_watcher answer) store
        (get_need_on_chain_orders_sorted db) db
