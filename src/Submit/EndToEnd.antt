-- ===== src/Submit/EndToEnd.antt =====
-- A transaction with its data, from `SaveSubmitTx` (submit.go) to `getArTxData` (api.go).
use arseeding.Prelude.{
  ℕ, ◌+◌, ◌<◌, Text, Bytes, text_eq_refl, ◌≡◌, ◌≢◌, refl, sym, ap, ◌∙◌, false, some, List, [], ◌∷◌,
  length, arith, inl, inr, Bool-cases, if◌then◌else◌,
}
use arseeding.Effect.{Result, ok, err, not_exist, >>=-ok, pure, reads, ◌>>=◌, ◌>>◌}
use arseeding.Rawdb.Interface.{KeyValueDb, tx_meta_bucket, bundle_wait_parse_ar_id_bucket}
use arseeding.Goar.Types.{Goar, Transaction, GetChunk}
use arseeding.Store.Numbers.{u64_mod, parse_uint}
use arseeding.Store.Offsets.{
  generate_offset_key, load_tx_data_end_offset, is_exist_tx_data_end_offset,
}
use arseeding.Store.Records.{save_tx_meta, is_exist_tx_meta, save_wait_parse_bundle_ar_id}
use arseeding.Submit.Chunks.{sync_add_tx_data_end_offset, generate_chunks, set_tx_data_chunks}
use arseeding.Submit.Transactions.{
  is_bundle_tx, save_data_chunks, save_when_bundle, save_submit_data, save_new_tx, save_submit_tx,
}
use arseeding.Submit.Read.{get_ar_tx_data}
use arseeding.Submit.Alloc.{IsAllocated, Ends, sync_add-Ends}
use arseeding.Submit.RoundTrip.{IsCut}
use arseeding.Submit.ReadBack.{set_tx_data_chunks-read}
use arseeding.Submit.Kept.{load_tx-put, IsAllocated-put, chunk_bytes-put, get_ar_tx_data-same}

module _ ⦃kv : KeyValueDb⦄ ⦃g : Goar⦄ where
  -- The transaction is new, verifies, and its data is cut into chunks.
  pub record IsFresh (all : ℕ) (tx : Transaction) (bytes : Bytes) (cs : List GetChunk) (db : kv.Db)
      : Type 0 where
    pub verified : g.verify_transaction tx ≡ ok tt
    pub no_meta : is_exist_tx_meta tx.id db ≡ ok false
    pub no_end : load_tx_data_end_offset tx.data_root tx.data_size db ≡ err not_exist
    pub has_text : tx.data_text ≢ []
    pub decodes : g.base64_decode tx.data_text ≡ ok bytes
    pub sized : parse_uint tx.data_size ≡ ok (length bytes)
    pub some_data : 0 < length bytes
    pub made : generate_chunks tx bytes ≡ ok cs
    pub cut : IsCut tx.data_root tx.data_size 0 cs bytes
    pub allocated : IsAllocated all db
    pub room : all + length bytes + 1 < u64_mod

  module _ (all : ℕ) (tx : Transaction) (bytes : Bytes) (cs : List GetChunk) where
    save_data_chunks-eq :
        (t : Text) (db : kv.Db)
        → t ≢ []
        → g.base64_decode t ≡ ok bytes
        → save_data_chunks t tx db ≡ set_tx_data_chunks tx bytes db
    unfolding save_data_chunks
    save_data_chunks-eq [] db some_text decodes = absurd (some_text refl)
    save_data_chunks-eq (c ∷ t) db some_text decodes = rw decodes refl

    save_new_tx-meta : (db : kv.Db) → (save_new_tx tx db).1 ≡ ok tt → (save_tx_meta tx db).1 ≡ ok tt
    unfolding save_new_tx
    save_new_tx-meta db done =
        let (u, saved, _) =
          >>=-ok (save_tx_meta tx)
            (λ _. reads (is_exist_tx_data_end_offset tx.data_root tx.data_size) >>= λ known.
              if known then pure tt else save_submit_data tx)
            db done in
        saved

    abbrev synced_db : kv.Db → kv.Db
    synced_db db = (sync_add_tx_data_end_offset tx.data_root tx.data_size db).0

    abbrev chunks_db : kv.Db → kv.Db
    chunks_db db = (save_data_chunks tx.data_text tx (synced_db db)).0

    -- the three parts of `save_submit_data`, where it reports success
    pub record Parts (db : kv.Db) : Type 0 where
      pub synced : (sync_add_tx_data_end_offset tx.data_root tx.data_size db).1 ≡ ok tt
      pub stored : (save_data_chunks tx.data_text tx (synced_db db)).1 ≡ ok tt
      pub last : save_submit_data tx db ≡ save_when_bundle tx (chunks_db db)

    save_submit_data-Parts : (db : kv.Db) → (save_submit_data tx db).1 ≡ ok tt → Parts db
    unfolding save_submit_data
    save_submit_data-Parts db done =
        let (u, synced, e) =
          >>=-ok (sync_add_tx_data_end_offset tx.data_root tx.data_size)
            (λ _. save_data_chunks tx.data_text tx >> save_when_bundle tx) db done in
        let (v, stored, e') =
          >>=-ok (save_data_chunks tx.data_text tx) (λ _. save_when_bundle tx) (synced_db db)
            (ap (λ r. r.1) (sym e) ∙ done) in
        record { synced = synced; stored = stored; last = e ∙ e' }

    save_new_tx-eq :
        (db : kv.Db)
        → (save_tx_meta tx db).1 ≡ ok tt
        → load_tx_data_end_offset tx.data_root tx.data_size (save_tx_meta tx db).0 ≡ err not_exist
        → save_new_tx tx db ≡ save_submit_data tx (save_tx_meta tx db).0
    unfolding save_new_tx is_exist_tx_data_end_offset
    save_new_tx-eq db saved no_end = rw (saved, no_end) refl

    pub save_submit_tx-eq :
        (db : kv.Db) → IsFresh all tx bytes cs db → save_submit_tx tx db ≡ save_new_tx tx db
    unfolding save_submit_tx
    save_submit_tx-eq db h = rw (h.verified, h.no_meta) refl

    -- The waiting list has no bearing on the data.
    read-save_when_bundle :
        (fuel : ℕ) (db : kv.Db)
        → (save_when_bundle tx db).1 ≡ ok tt
        → get_ar_tx_data fuel tx.data_root tx.data_size (save_when_bundle tx db).0
          ≡ get_ar_tx_data fuel tx.data_root tx.data_size db
    unfolding save_when_bundle save_wait_parse_bundle_ar_id
    read-save_when_bundle fuel db saved = elim (Bool-cases (is_bundle_tx tx.tags)) [
      | inl bundle ↦
          let put = rw bundle at saved in
          rw bundle (
            get_ar_tx_data-same fuel tx.data_root tx.data_size db _
              (chunk_bytes-put bundle_wait_parse_ar_id_bucket _ _ db put refl)
              (load_tx-put bundle_wait_parse_ar_id_bucket _ _ db put refl tx.data_root
                tx.data_size))
      | inr other ↦ rw other refl
    ]

    -- what the allocation leaves for the chunks
    end-sync_add :
        (db : kv.Db)
        → Ends all
            (length bytes)
            tx.data_root
            tx.data_size
            db
            (sync_add_tx_data_end_offset tx.data_root tx.data_size db)
        → (sync_add_tx_data_end_offset tx.data_root tx.data_size db).1 ≡ ok tt
        → load_tx_data_end_offset tx.data_root tx.data_size
            (sync_add_tx_data_end_offset tx.data_root tx.data_size db).0
          ≡ ok (all + length bytes)
    end-sync_add db ends done =
        by_result (sync_add_tx_data_end_offset tx.data_root tx.data_size db) ends done
      where
        by_result :
            (r : kv.Db × Result (Unit {0}))
            → Ends all (length bytes) tx.data_root tx.data_size db r
            → r.1 ≡ ok tt
            → load_tx_data_end_offset tx.data_root tx.data_size r.0 ≡ ok (all + length bytes)
        by_result (db', ok u) grows h =
            rw
              (
                grows.loads tx.data_root tx.data_size,
                text_eq_refl (generate_offset_key tx.data_root tx.data_size),
              )
              refl
        by_result (db', err e) leaves h = absurd cc

module _ ⦃kv : KeyValueDb⦄ ⦃g : Goar⦄ where
  -- behind the write of the meta data, which leaves `db1`
  save_submit_data-read :
      (all fuel : ℕ) (tx : Transaction) (bytes : Bytes) (cs : List GetChunk) (db : kv.Db)
      → IsFresh all tx bytes cs db
      → length bytes < fuel
      → (db1 : kv.Db) → IsAllocated all db1
      → load_tx_data_end_offset tx.data_root tx.data_size db1 ≡ err not_exist
      → (r : kv.Db × Result (Unit {0})) → r ≡ save_submit_data tx db1
      → r.1 ≡ ok tt
      → get_ar_tx_data fuel tx.data_root tx.data_size r.0 ≡ some (ok bytes)
  save_submit_data-read all fuel tx bytes cs db h enough db1 a no_end r step done =
      let parts = save_submit_data-Parts all tx bytes cs db1 (ap (λ q. q.1) (sym step) ∙ done) in
      let chunks =
        save_data_chunks-eq all tx bytes cs tx.data_text (synced_db all tx bytes cs db1) h.has_text
          h.decodes in
      let ends =
        sync_add-Ends all (length bytes) tx.data_root tx.data_size db1 a (omega (arith, h.room))
          h.sized no_end in
      ap (λ q. get_ar_tx_data fuel tx.data_root tx.data_size q.0) (step ∙ parts.last)
      ∙ read-save_when_bundle all tx bytes cs fuel (chunks_db all tx bytes cs db1)
          (ap (λ q. q.1) (sym (step ∙ parts.last)) ∙ done)
      ∙ ap (λ q. get_ar_tx_data fuel tx.data_root tx.data_size q.0) chunks
      ∙ set_tx_data_chunks-read tx bytes cs (all + length bytes) fuel
          (synced_db all tx bytes cs db1) h.some_data enough h.sized
          (end-sync_add all tx bytes cs db1 ends parts.synced) (omega arith) (omega (arith, h.room))
          h.made h.cut (ap (λ q. q.1) (sym chunks) ∙ parts.stored)

-- Take a transaction that verifies, that the store has neither meta data nor an end offset of, and whose
-- data is cut into chunks of two bytes or more; and a store with offsets handed out up to `all`, with
-- room for the data. If `save_submit_tx` reports success, `get_ar_tx_data` returns exactly the data of
-- the transaction from the store that it left, within as many rounds as the data has bytes.
pub save_submit_tx-read :
    ⦃kv : KeyValueDb⦄ ⦃g : Goar⦄ (all fuel : ℕ) (tx : Transaction) (bytes : Bytes)
    (cs : List GetChunk) (db : kv.Db)
    → IsFresh all tx bytes cs db
    → length bytes < fuel
    → (save_submit_tx tx db).1 ≡ ok tt
    → get_ar_tx_data fuel tx.data_root tx.data_size (save_submit_tx tx db).0 ≡ some (ok bytes)
unfolding save_tx_meta
save_submit_tx-read ⦃kv⦄ all fuel tx bytes cs db h enough done =
    let root = tx.data_root in
    let size = tx.data_size in
    let n = length bytes in
    let new : save_submit_tx tx db ≡ save_new_tx tx db = save_submit_tx-eq all tx bytes cs db h in
    let saved : (save_tx_meta tx db).1 ≡ ok tt =
      save_new_tx-meta all tx bytes cs db (ap (λ r. r.1) (sym new) ∙ done) in
    let db1 = (save_tx_meta tx db).0 in
    save_submit_data-read all fuel tx bytes cs db h enough db1
      (IsAllocated-put tx_meta_bucket _ _ db saved all refl refl h.allocated)
      (load_tx-put tx_meta_bucket _ _ db saved refl root size ∙ h.no_end) (save_submit_tx tx db)
      (new
        ∙ save_new_tx-eq all tx bytes cs db saved
            (load_tx-put tx_meta_bucket _ _ db saved refl root size ∙ h.no_end))
      done
