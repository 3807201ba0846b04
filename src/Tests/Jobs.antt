-- ===== src/Tests/Jobs.antt =====
-- The jobs on orders at small inputs: an expired order beside a paid one, a transaction that is sent,
-- recorded and watched.
use mathlib.Core.List.{Memᴰ}
use mathlib.Core.List.Memᴰ
use arseeding.Prelude.{
  false, ℕ, ◌≡◌, ◌≢◌, ◌⊎◌, refl, inl, codes, text_eq, ltb, if◌then◌else◌, [], ◌∷◌, ◌+◌, ◌≤◌, true,
  arith,
}
use arseeding.Effect.{Result, ok, err, not_exist}
use arseeding.Rawdb.Interface.{bundle_item_binary}
use arseeding.Rawdb.Memory.{memory}
use arseeding.Bundle.Plain.{plain_utils, manifest_rows}
use arseeding.Orders.Types.{
  Order, OnChainTx, select, change, un_payment, succ_payment, pending_on_chain,
  max_per_on_chain_size,
}
use arseeding.Orders.Wdb.{
  exist_processed_order_item, update_ord_on_chain_status, insert_ar_tx, found, first_row,
}
use arseeding.Orders.Plain.{plain_sql}
use arseeding.Orders.Expiry.{Site, process_expired_ord}
use arseeding.Orders.Expired.{process_expired_ord-keeps}
use arseeding.Orders.Chain.{
  choose_orders, too_big, update_on_chain_info, set_on_chain_status, SentTx, ar_tx_watcher,
  watch_rounds,
}
use arseeding.Orders.Chosen.{choose_orders-size, total_size}
use arseeding.Orders.Chosen.{AskFails}
use arseeding.Orders.Once.{RecordFails, update_on_chain_info-once}
use arseeding.Orders.Watch.{in_block, watch_tx}
use arseeding.Orders.Watched.{Watched, watch_tx-Watched}
use arseeding.Tests.Orders.{order, tables}

-- an order that expires at 10, and a paid one of the same item
abbrev expired_order : Order
expired_order = order un_payment []

abbrev paid_order : Order
paid_order = record (order succ_payment (codes "hash")) { id = 2 }

abbrev two_orders : plain_sql.Db
unfolding plain_sql
two_orders = tables (expired_order ∷ paid_order ∷ []) []

abbrev stored : memory.Db
unfolding memory
stored = (memory.put bundle_item_binary (codes "item") (codes "ab") []).0

abbrev site : Site ⦃sql = plain_sql⦄ ⦃kv = memory⦄ ⦃m = manifest_rows⦄
unfolding plain_sql manifest_rows
site = record { wdb = two_orders; node = record { db = stored; manifests = [] } }

paid_key : (o : Order) → Memᴰ o (expired_order ∷ paid_order ∷ []) → o.id ≡ 2 → o ≡ paid_order
paid_key o (Memᴰ.head e) same = absurd cc
paid_key o (Memᴰ.tail (Memᴰ.head e)) same = e
paid_key o (Memᴰ.tail (Memᴰ.tail m)) same = absurd (Memᴰ.not-nil m)

process_expired_ord-keeps_example :
    memory.get bundle_item_binary
      (codes "item")
      (process_expired_ord ⦃sql = plain_sql⦄ ⦃kv = memory⦄ ⦃m = manifest_rows⦄ 100 site).node.db
    ≡ memory.get bundle_item_binary (codes "item") stored
unfolding plain_sql site two_orders
process_expired_ord-keeps_example =
    process_expired_ord-keeps ⦃sql = plain_sql⦄ ⦃kv = memory⦄ ⦃m = manifest_rows⦄ 100 paid_order
      bundle_item_binary site (Memᴰ.tail (Memᴰ.head refl)) (inl refl) paid_key

-- two orders of 5 bytes
choose_orders-size_example :
    0
      + total_size
          (choose_orders ⦃sql = plain_sql⦄ 0 (expired_order ∷ paid_order ∷ []) two_orders).1
    ≤ max_per_on_chain_size
choose_orders-size_example =
    choose_orders-size ⦃sql = plain_sql⦄ 0 (expired_order ∷ paid_order ∷ []) two_orders
      (omega arith) (omega arith, (omega arith, tt))

abbrev sent : SentTx
sent = record { id = codes "tx"; data_size = codes "5"; reward = codes "1" }

abbrev recorded : plain_sql.Db
recorded =
    update_on_chain_info ⦃sql = plain_sql⦄ ⦃u = plain_utils⦄ 7 (codes "item" ∷ []) sent
      pending_on_chain two_orders

-- an order of another item
abbrev other_order : Order
other_order = record (order succ_payment (codes "hash")) { id = 3; item_id = codes "other" }

other_chosen :
    Memᴰ other_order (choose_orders ⦃sql = plain_sql⦄ 0 (paid_order ∷ other_order ∷ []) recorded).1
unfolding two_orders plain_sql choose_orders update_on_chain_info set_on_chain_status
    exist_processed_order_item update_ord_on_chain_status insert_ar_tx found first_row too_big
    select change text_eq
other_chosen = Memᴰ.head refl

update_on_chain_info-once_example :
    (codes "other" ≢ codes "item")
    ⊎ (RecordFails ⦃sql = plain_sql⦄ ⦃u = plain_utils⦄ 7
          (codes "item" ∷ [])
          sent
          pending_on_chain
          (codes "item")
          two_orders
        ⊎ AskFails ⦃sql = plain_sql⦄ (codes "item") 0 (paid_order ∷ other_order ∷ []) recorded)
unfolding two_orders plain_sql
update_on_chain_info-once_example =
    update_on_chain_info-once ⦃sql = plain_sql⦄ ⦃u = plain_utils⦄ 7 (codes "item" ∷ []) sent
      pending_on_chain (codes "item") two_orders (paid_order ∷ other_order ∷ []) other_order
      (inl refl) (Memᴰ.head refl) (expired_order, Memᴰ.head refl, refl) other_chosen

abbrev sent_row : OnChainTx
unfolding plain_utils
sent_row = record {
  id = 1;
  ar_id = codes "tx";
  cur_height = 7;
  block_id = [];
  block_height = 0;
  data_size = codes "5";
  reward = codes "1";
  status = pending_on_chain;
  item_ids = plain_utils.marshal_ids (codes "item" ∷ []);
  item_num = 1;
  kafka = false;
}

watch_tx-Watched_example :
    Watched ⦃sql = plain_sql⦄ ⦃u = plain_utils⦄ 20 sent_row
      (in_block 4 (codes "block") 9)
      two_orders
      (watch_tx ⦃sql = plain_sql⦄ ⦃u = plain_utils⦄ 20 sent_row
        (in_block 4 (codes "block") 9)
        two_orders)
watch_tx-Watched_example =
    watch_tx-Watched ⦃sql = plain_sql⦄ ⦃u = plain_utils⦄ 20 sent_row (in_block 4 (codes "block") 9)
      two_orders

-- The third answer has three confirmations.
abbrev third : ℕ → Result ℕ
third n = if ltb n 3 then err not_exist else ok 3

watched : ar_tx_watcher third ≡ true
unfolding ar_tx_watcher watch_rounds
watched = refl
