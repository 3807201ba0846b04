-- ===== src/Submit/Transactions.antt =====
-- submit.go: `SaveSubmitTx` and `isBundleTx`.
use arseeding.Prelude.{
  ℕ, ◌+◌, ◌==◌, Text, codes, text_eq, Bool, not, ◌&&◌, List, [], ◌∷◌, if◌then◌else◌,
}
use arseeding.Effect.{exist_tx, Eff, pure, throw, lift, reads, ◌>>=◌, ◌>>◌}
use arseeding.Rawdb.Interface.{KeyValueDb}
use arseeding.Goar.Types.{Goar, Tag, Transaction}
use arseeding.Store.Offsets.{is_exist_tx_data_end_offset}
use arseeding.Store.Records.{save_tx_meta, is_exist_tx_meta, save_wait_parse_bundle_ar_id}
use arseeding.Submit.Chunks.{sync_add_tx_data_end_offset, set_tx_data_chunks}

-- the loop of `isBundleTx`, for one of its two counters
unfoldable pub count_tags : Text → Text → List Tag → ℕ
count_tags name value [] = 0
count_tags name value (t ∷ tags) =
    let rest = count_tags name value tags in
    if text_eq t.name name && text_eq t.value value then rest + 1 else rest

unfoldable pub is_bundle_tx : ⦃g : Goar⦄ → List Tag → Bool
is_bundle_tx ⦃g⦄ tx_tags =
    let tags = (g.tags_decode tx_tags).0 in
    not (count_tags (codes "Bundle-Format") (codes "binary") tags == 0)
    && not (count_tags (codes "Bundle-Version") (codes "2.0.0") tags == 0)

module _ ⦃kv : KeyValueDb⦄ ⦃g : Goar⦄ where
  -- step 5 of `SaveSubmitTx`, by the data of the transaction
  unfoldable pub save_data_chunks : Text → Transaction → Eff kv.Db (Unit {0})
  save_data_chunks [] ar_tx = pure tt
  save_data_chunks (c ∷ t) ar_tx =
      lift (g.base64_decode (c ∷ t)) >>= λ data_by. set_tx_data_chunks ar_tx data_by

  unfoldable pub save_when_bundle : Transaction → Eff kv.Db (Unit {0})
  save_when_bundle ar_tx =
      if is_bundle_tx ar_tx.tags then save_wait_parse_bundle_ar_id ar_tx.id else pure tt

  -- the part of `SaveSubmitTx` behind the early return for a known end offset
  unfoldable pub save_submit_data : Transaction → Eff kv.Db (Unit {0})
  save_submit_data ar_tx = do
    sync_add_tx_data_end_offset ar_tx.data_root ar_tx.data_size
    save_data_chunks ar_tx.data_text ar_tx
    save_when_bundle ar_tx

  unfoldable pub save_new_tx : Transaction → Eff kv.Db (Unit {0})
  save_new_tx ar_tx = do
    save_tx_meta ar_tx
    known ← reads (is_exist_tx_data_end_offset ar_tx.data_root ar_tx.data_size)
    if known then pure tt else save_submit_data ar_tx

  unfoldable pub save_submit_tx : Transaction → Eff kv.Db (Unit {0})
  save_submit_tx ar_tx = do
    lift (g.verify_transaction ar_tx)
    known ← reads (is_exist_tx_meta ar_tx.id)
    if known then throw exist_tx else save_new_tx ar_tx
