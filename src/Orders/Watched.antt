-- ===== src/Orders/Watched.antt =====
-- jobs.go: `watchArTx` changes a transaction and the orders of its items together or not at all.
use arseeding.Prelude.{
  ℕ, ◌+◌, ◌<◌, Text, text_eq, ◌≡◌, ◌≢◌, refl, subst, sym, ap, ◌∙◌, ◌⊎◌, inl, inr, ltb, ltb→lt,
  Option, none, some, List, [], ◌∷◌, Bool-cases,
}
use arseeding.Effect.{Error, ok, err, Result-cases}
use arseeding.Bundle.Types.{BundleUtils}
use arseeding.Orders.Types.{
  Order, OnChainTx, order_table, on_chain_tx_table, SqlDb, orders, change, succ_on_chain,
  failed_on_chain,
}
use arseeding.Orders.Wdb.{at_block, update_ar_tx_status, update_ord_on_chain_status}
use arseeding.Orders.Watch.{
  TxStatus, pending_tx, status_err, in_block, confirm_items, commit_items, confirm, watch_tx,
}

-- the rows once the orders of every item are on chain
unfoldable pub on_chain_rows : List Text → List Order → List Order
on_chain_rows [] rows = rows
on_chain_rows (id ∷ ids) rows =
    on_chain_rows ids
      (change (λ o. text_eq o.item_id id) (λ o. record o { on_chain_status = succ_on_chain }) rows)

-- the rows once the status of a transaction is written
abbrev pub tx_rows : Text → Text → Option (Text × ℕ) → List OnChainTx → List OnChainTx
tx_rows ar_id status block rows =
    change (λ tx. text_eq tx.ar_id ar_id) (λ tx. at_block block (record tx { status = status }))
      rows

order_not_tx : order_table ≢ on_chain_tx_table
order_not_tx h = absurd cc

tx_not_order : on_chain_tx_table ≢ order_table
tx_not_order h = absurd cc

module _ ⦃sql : SqlDb⦄ where
  abbrev pub txs : sql.Db → List OnChainTx
  txs db = sql.rows on_chain_tx_table db

  update_ar_tx_status-rows :
      (ar_id status : Text) (block : Option (Text × ℕ)) (db : sql.Db)
      → (update_ar_tx_status ar_id status block db).1 ≡ ok tt
      → (orders (update_ar_tx_status ar_id status block db).0 ≡ orders db)
        × (txs (update_ar_tx_status ar_id status block db).0 ≡ tx_rows ar_id status block (txs db))
  unfolding update_ar_tx_status
  update_ar_tx_status-rows ar_id status block db done =
      let p = λ (tx : OnChainTx). text_eq tx.ar_id ar_id in
      let f = λ (tx : OnChainTx). at_block block (record tx { status = status }) in
      (
        sql.update_other on_chain_tx_table p f db order_table order_not_tx,
        sql.update_ok on_chain_tx_table p f db done,
      )

  update_ar_tx_status-err :
      (ar_id status : Text) (block : Option (Text × ℕ)) (db : sql.Db) {e : Error}
      → (update_ar_tx_status ar_id status block db).1 ≡ err e
      → (update_ar_tx_status ar_id status block db).0 ≡ db
  unfolding update_ar_tx_status
  update_ar_tx_status-err ar_id status block db failed =
      sql.update_err on_chain_tx_table (λ tx. text_eq tx.ar_id ar_id)
        (λ tx. at_block block (record tx { status = status })) db failed

  confirm_items-rows :
      (ids : List Text) (t t' : sql.Db)
      → confirm_items ids t ≡ some t'
      → (orders t' ≡ on_chain_rows ids (orders t)) × (txs t' ≡ txs t)
  unfolding confirm_items on_chain_rows update_ord_on_chain_status
  confirm_items-rows [] t t' h =
      let same : t ≡ t' = cc h in (ap (λ d. orders d) (sym same), ap (λ d. txs d) (sym same))
  confirm_items-rows (id ∷ ids) t t' h =
      let p = λ (o : Order). text_eq o.item_id id in
      let f = λ (o : Order). record o { on_chain_status = succ_on_chain } in
      elim (Result-cases (sql.update order_table p f t).1) [
        | inl (u, done) ↦
            let rest =
              confirm_items-rows ids (sql.update order_table p f t).0 t'
                (rw (confirm_items, done) at h) in
            (
              rest.0 ∙ ap (on_chain_rows ids) (sql.update_ok order_table p f t done),
              rest.1 ∙ sql.update_other order_table p f t on_chain_tx_table tx_not_order,
            )
        | inr (e, failed) ↦ let k = rw (confirm_items, failed) at h in absurd cc
      ]

module _ ⦃sql : SqlDb⦄ ⦃u : BundleUtils⦄ where
  -- The transaction and the orders of all its items are on chain.
  abbrev pub Confirmed : OnChainTx → Text → ℕ → sql.Db → sql.Db → Type 0
  Confirmed tx block_id block_height db db' =
      (ids : List Text) × (u.unmarshal_ids tx.item_ids ≡ ok ids)
      × (orders db' ≡ on_chain_rows ids (orders db))
      × (txs db' ≡ tx_rows tx.ar_id succ_on_chain (some (block_id, block_height)) (txs db))

  -- what the answer of the network allows
  abbrev pub Watched : ℕ → OnChainTx → TxStatus → sql.Db → sql.Db → Type 0
  Watched height tx pending_tx db db' = db' ≡ db
  Watched height tx status_err db db' =
      (db' ≡ db)
      ⊎ ((tx.cur_height + 50 < height)
          × (orders db' ≡ orders db)
          × (txs db' ≡ tx_rows tx.ar_id failed_on_chain none (txs db)))
  Watched height tx (in_block confirmations block_id block_height) db db' =
      (db' ≡ db) ⊎ ((3 < confirmations) × Confirmed tx block_id block_height db db')

  module _ (tx : OnChainTx) (block_id : Text) (block_height : ℕ) (ids : List Text) (db t : sql.Db)
      (known : u.unmarshal_ids tx.item_ids ≡ ok ids) (same : orders t ≡ orders db)
      (written : txs t
        ≡ tx_rows tx.ar_id succ_on_chain (some (block_id, block_height)) (txs db)) where
    commit_items-Confirmed :
        (out : Option sql.Db)
        → confirm_items ids t ≡ out
        → (commit_items out db ≡ db) ⊎ Confirmed tx block_id block_height db (commit_items out db)
    unfolding commit_items
    commit_items-Confirmed none h = inl refl
    commit_items-Confirmed (some t') h = elim (Result-cases (sql.commit t' db).1) [
      | inl (v, done) ↦
          let e = sql.commit_ok t' db done in
          let rows = confirm_items-rows ids t t' h in
          inr (
            ids,
            known,
            ap (λ d. orders d) e ∙ rows.0 ∙ ap (on_chain_rows ids) same,
            ap (λ d. txs d) e ∙ rows.1 ∙ written,
          )
      | inr (e, failed) ↦ inl (sql.commit_err t' db failed)
    ]

  confirm-Confirmed :
      (tx : OnChainTx) (block_id : Text) (block_height : ℕ) (db : sql.Db)
      → (confirm tx block_id block_height db ≡ db)
        ⊎ Confirmed tx block_id block_height db (confirm tx block_id block_height db)
  unfolding confirm
  confirm-Confirmed tx block_id block_height db =
      let block : Option (Text × ℕ) = some (block_id, block_height) in
      elim (Result-cases (update_ar_tx_status tx.ar_id succ_on_chain block db).1) [
        | inl (v, done) ↦ elim (Result-cases (u.unmarshal_ids tx.item_ids)) [
          | inl (ids, known) ↦
              let t = (update_ar_tx_status tx.ar_id succ_on_chain block db).0 in
              let rows = update_ar_tx_status-rows tx.ar_id succ_on_chain block db done in
              let out : confirm tx block_id block_height db
                  ≡ commit_items (confirm_items ids t) db =
                rw (confirm, done, known) refl in
              subst (λ d. (d ≡ db) ⊎ Confirmed tx block_id block_height db d) (sym out)
                (commit_items-Confirmed tx block_id block_height ids db t known rows.0 rows.1
                  (confirm_items ids t) refl)
          | inr (e, bad) ↦ inl (rw (confirm, done, bad) refl)
        ]
        | inr (e, failed) ↦ inl (rw (confirm, failed) refl)
      ]

  -- One step of the watcher leaves the database as it is, or changes it as the answer of the network
  -- allows: after an error other than "pending", and more than 50 blocks after the transaction was
  -- sent, the transaction alone is marked as failed; with more than 3 confirmations the transaction and
  -- the orders of all its items are marked as on chain together.
  pub watch_tx-Watched :
      (height : ℕ) (tx : OnChainTx) (answer : TxStatus) (db : sql.Db)
      → Watched height tx answer db (watch_tx height tx answer db)
  unfolding watch_tx
  watch_tx-Watched height tx pending_tx db = refl
  watch_tx-Watched height tx status_err db = elim (Bool-cases (ltb (tx.cur_height + 50) height)) [
    | inl old ↦ elim (Result-cases (update_ar_tx_status tx.ar_id failed_on_chain none db).1) [
      | inl (v, done) ↦ rw old (
          inr (
            ltb→lt _ _ old,
            (update_ar_tx_status-rows tx.ar_id failed_on_chain none db done).0,
            (update_ar_tx_status-rows tx.ar_id failed_on_chain none db done).1,
          ))
      | inr (e, failed) ↦
          rw old (inl (update_ar_tx_status-err tx.ar_id failed_on_chain none db failed))
    ]
    | inr young ↦ rw young (inl refl)
  ]
  watch_tx-Watched height tx (in_block confirmations block_id block_height) db =
      elim (Bool-cases (ltb 3 confirmations)) [
        | inl enough ↦ rw enough (elim (confirm-Confirmed tx block_id block_height db) [
          | inl same ↦ inl same
          | inr done ↦ inr (ltb→lt _ _ enough, done)
        ])
        | inr few ↦ rw few (inl refl)
      ]
