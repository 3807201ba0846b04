-- ===== src/Orders/Watch.antt =====
-- jobs.go: the transactions sent are watched, and sent again where they have failed (`watchArTx`,
-- `retryOnChainArTx`).
use arseeding.Prelude.{ℕ, ◌+◌, Text, ltb, Option, none, some, List, [], ◌∷◌, if◌then◌else◌}
use arseeding.Effect.{ok, err}
use arseeding.Rawdb.Interface.{KeyValueDb}
use arseeding.Bundle.Types.{BundleUtils}
use arseeding.Orders.Types.{OnChainTx, SqlDb, pending_on_chain, succ_on_chain, failed_on_chain}
use arseeding.Orders.Wdb.{
  get_ar_tx_by_status, update_ar_tx_status, update_ar_tx, update_ord_on_chain_status,
}
use arseeding.Orders.Chain.{SentTx, Bundler, on_chain_bundle_tx}

-- what `GetTransactionStatus` returns: `ErrPendingTx`, another error, or the number of confirmations
-- with the id and the height of the block
pub data TxStatus : Type 0 where
  pending_tx status_err : TxStatus
  in_block : ℕ → Text → ℕ → TxStatus

module _ ⦃sql : SqlDb⦄ where
  -- The loop over the items on the transaction's copy. After a rollback every further update fails, and
  -- so does the commit, whose error is not looked at: `none`.
  unfoldable pub confirm_items : List Text → sql.Db → Option sql.Db
  confirm_items [] t = some t
  confirm_items (id ∷ ids) t =
      let (t', r) = update_ord_on_chain_status id succ_on_chain t in
      let rest = confirm_items ids t' in elim r [ ok u ↦ rest | err e ↦ none ]

  unfoldable pub commit_items : Option sql.Db → sql.Db → sql.Db
  commit_items none db = db
  commit_items (some t) db = (sql.commit t db).0

  module _ ⦃u : BundleUtils⦄ where
    unfoldable pub confirm : OnChainTx → Text → ℕ → sql.Db → sql.Db
    confirm tx block_id block_height db =
        let (t, r) =
          update_ar_tx_status tx.ar_id succ_on_chain (some (block_id, block_height)) db in
        elim r [
          | ok v ↦ elim (u.unmarshal_ids tx.item_ids) [
            | ok ids ↦ commit_items (confirm_items ids t) db
            | err e ↦ db
          ]
          | err e ↦ db
        ]

    -- `height` is that of the network; an error is logged
    unfoldable pub watch_tx : ℕ → OnChainTx → TxStatus → sql.Db → sql.Db
    watch_tx height tx pending_tx db = db
    watch_tx height tx status_err db =
        let failed = (update_ar_tx_status tx.ar_id failed_on_chain none db).0 in
        if ltb (tx.cur_height + 50) height then failed else db
    watch_tx height tx (in_block confirmations block_id block_height) db =
        let confirmed = confirm tx block_id block_height db in
        if ltb 3 confirmations then confirmed else db

    unfoldable pub watch_txs : ℕ → (Text → TxStatus) → List OnChainTx → sql.Db → sql.Db
    watch_txs height status [] db = db
    watch_txs height status (tx ∷ txs) db =
        watch_txs height status txs (watch_tx height tx (status tx.ar_id) db)

    unfoldable pub watch_ar_tx : ℕ → (Text → TxStatus) → sql.Db → sql.Db
    watch_ar_tx height status db = elim (get_ar_tx_by_status pending_on_chain db) [
      | ok txs ↦ watch_txs height status txs db
      | err e ↦ db
    ]

module _ ⦃sql : SqlDb⦄ ⦃kv : KeyValueDb⦄ ⦃u : BundleUtils⦄ ⦃b : Bundler⦄ where
  unfoldable pub sent_again : ℕ → OnChainTx → SentTx → sql.Db → sql.Db
  sent_again height tx sent db =
      (update_ar_tx tx.id sent.id height sent.data_size sent.reward pending_on_chain db).0

  -- The first transaction whose bundle is not sent ends the loop.
  unfoldable pub retry_txs : ℕ → kv.Db → List OnChainTx → sql.Db → sql.Db
  retry_txs height store [] db = db
  retry_txs height store (tx ∷ txs) db = elim (u.unmarshal_ids tx.item_ids) [
    | ok ids ↦ elim (on_chain_bundle_tx ids store) [
      | ok (sent, sent_ids) ↦ retry_txs height store txs (sent_again height tx sent db)
      | err e ↦ db
    ]
    | err e ↦ db
  ]

  unfoldable pub retry_on_chain_ar_tx : ℕ → kv.Db → sql.Db → sql.Db
  retry_on_chain_ar_tx height store db = elim (get_ar_tx_by_status failed_on_chain db) [
    | ok txs ↦ retry_txs height store txs db
    | err e ↦ db
  ]
