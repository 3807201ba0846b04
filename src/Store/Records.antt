-- ===== src/Store/Records.antt =====
-- store.go: transaction headers, the bundle items with their two buckets, and the list of
-- transactions whose bundles wait to be parsed.
use arseeding.Prelude.{Text, codes, Bool}
use arseeding.Effect.{Result, bind_result, exists_unless, Eff}
use arseeding.Rawdb.Interface.{
  KeyValueDb, tx_meta_bucket, bundle_wait_parse_ar_id_bucket, task_id_pending_pool_bucket,
  task_bucket,
}
use arseeding.Goar.Types.{Goar, Transaction, Task}

module _ ⦃kv : KeyValueDb⦄ ⦃g : Goar⦄ where
  -- only the header is stored, not the data
  unfoldable pub save_tx_meta : Transaction → Eff kv.Db (Unit {0})
  save_tx_meta ar_tx =
      kv.put tx_meta_bucket ar_tx.id (g.marshal_tx (record ar_tx { data_text = codes "" }))

  unfoldable pub load_tx_meta : Text → kv.Db → Result Transaction
  load_tx_meta ar_id db = bind_result (kv.get tx_meta_bucket ar_id db) g.unmarshal_tx

  unfoldable pub is_exist_tx_meta : Text → kv.Db → Result Bool
  is_exist_tx_meta ar_id db = exists_unless (load_tx_meta ar_id db)

  unfoldable pub save_wait_parse_bundle_ar_id : Text → Eff kv.Db (Unit {0})
  save_wait_parse_bundle_ar_id ar_id = kv.put bundle_wait_parse_ar_id_bucket ar_id (codes "0x01")

  unfoldable pub put_task_pending_pool : Text → Eff kv.Db (Unit {0})
  put_task_pending_pool task_id = kv.put task_id_pending_pool_bucket task_id (codes "0x01")

  unfoldable pub del_pending_pool_task_id : Text → Eff kv.Db (Unit {0})
  del_pending_pool_task_id task_id = kv.delete task_id_pending_pool_bucket task_id

  unfoldable pub save_task : Text → Task → Eff kv.Db (Unit {0})
  save_task task_id tk = kv.put task_bucket task_id (g.marshal_task tk)

  unfoldable pub load_task : Text → kv.Db → Result Task
  load_task task_id db = bind_result (kv.get task_bucket task_id db) g.unmarshal_task
