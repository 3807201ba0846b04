-- ===== src/Orders/Once.antt =====
-- jobs.go: an item that `updateOnChainInfo` has recorded is not sent again.
use mathlib.Core.List.{Memᴰ}
use arseeding.Prelude.{
  false, ℕ, Text, text_eq, text_eq_iff, ◌≡◌, ◌≢◌, sym, subst, ◌⊎◌, inl, inr, List, [], length,
  Bool-cases,
}
use arseeding.Effect.{Error, err, Result-cases}
use arseeding.Bundle.Types.{BundleUtils}
use arseeding.Orders.Types.{Order, OnChainTx, SqlDb, pending_on_chain}
use arseeding.Orders.Wdb.{insert_ar_tx}
use arseeding.Orders.Chain.{choose_orders, SentTx, update_on_chain_info}
use arseeding.Orders.Processed.{OnChain, Ordered, Processed}
use arseeding.Orders.Chosen.{
  MarkFails, AskFails, choose_orders-Processed, set_on_chain_status-Processed, insert_ar_tx-orders,
}

-- the row of a transaction that was sent
abbrev pub sent_row : ⦃u : BundleUtils⦄ → ℕ → List Text → SentTx → OnChainTx
sent_row ⦃u⦄ height ids tx = record {
  id = 0;
  ar_id = tx.id;
  cur_height = height;
  block_id = [];
  block_height = 0;
  data_size = tx.data_size;
  reward = tx.reward;
  status = pending_on_chain;
  item_ids = u.marshal_ids ids;
  item_num = length ids;
  kafka = false;
}

-- While a transaction is recorded, its row cannot be inserted, or the update of an item's orders fails.
abbrev pub RecordFails :
    ⦃sql : SqlDb⦄ ⦃u : BundleUtils⦄ → ℕ → List Text → SentTx → Text → Text → sql.Db → Type 0
RecordFails height ids tx status id db =
    let (db', r) = insert_ar_tx (sent_row height ids tx) db in
    ((e : Error) × (r ≡ err e)) ⊎ MarkFails id status ids db'

module _ ⦃sql : SqlDb⦄ ⦃u : BundleUtils⦄ where
  update_on_chain_info-Processed :
      (height : ℕ) (ids : List Text) (tx : SentTx) (status id : Text) (db : sql.Db)
      → OnChain status
      → Memᴰ id ids
      → Ordered id db
      → Processed id (update_on_chain_info height ids tx status db)
        ⊎ RecordFails height ids tx status id db
  unfolding update_on_chain_info
  update_on_chain_info-Processed height ids tx status id db good m has =
      let row = sent_row height ids tx in
      elim (Result-cases (insert_ar_tx row db).1) [
        | inl (v, done) ↦
            let has' : Ordered id (insert_ar_tx row db).0 =
              (has.0, subst (λ l. Memᴰ has.0 l) (sym (insert_ar_tx-orders row db)) has.1, has.2) in
            elim (set_on_chain_status-Processed id status ids (insert_ar_tx row db).0 good m has') [
              | inl p ↦ inl (rw (update_on_chain_info, done) p)
              | inr fails ↦ inr (inr fails)
            ]
        | inr (e, failed) ↦ inr (inl (e, failed))
      ]

-- An item that has an order and whose transaction is recorded, as pending or as on chain, is not among
-- the orders that the next run chooses to send; unless, in these two runs, the row of the transaction
-- could not be inserted, or the update of this item's orders failed, or the query for a processed order
-- of this item failed.
pub update_on_chain_info-once :
    ⦃sql : SqlDb⦄ ⦃u : BundleUtils⦄ (height : ℕ) (ids : List Text) (tx : SentTx) (status id : Text)
    (db : sql.Db) (ords : List Order) (o : Order)
    → OnChain status
    → Memᴰ id ids
    → Ordered id db
    → Memᴰ o (choose_orders 0 ords (update_on_chain_info height ids tx status db)).1
    → (o.item_id ≢ id)
      ⊎ (RecordFails height ids tx status id db
          ⊎ AskFails id 0 ords (update_on_chain_info height ids tx status db))
update_on_chain_info-once height ids tx status id db ords o good m has chosen =
    elim (update_on_chain_info-Processed height ids tx status id db good m has) [
      | inl p ↦ elim (Bool-cases (text_eq o.item_id id)) [
        | inl same ↦ inr (
            inr (
              choose_orders-Processed id 0 ords (update_on_chain_info height ids tx status db) o p
                chosen ((text_eq_iff o.item_id id).0 same)))
        | inr other ↦ inl (λ e. let t = (text_eq_iff o.item_id id).1 e in absurd cc)
      ]
      | inr fails ↦ inr (inl fails)
    ]
