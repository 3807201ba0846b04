-- ===== src/Api/RoundTrip.antt =====
-- api.go: from `submitTx` to `getTxField`.
use arseeding.Prelude.{
  ℕ, ◌<◌, ◌≤◌, le→ltb, Text, Bytes, codes, text_eq, text_eq_refl, ◌≡◌, refl, sym, ap, ◌∙◌, some,
  List, [], ◌∷◌, length, inl, inr, if◌then◌else◌,
}
use arseeding.Effect.{Result, ok, err, Result-cases, >>=-ok, Eff, pure, reads, ◌>>=◌, ◌>>◌}
use arseeding.Rawdb.Interface.{
  KeyValueDb, tx_meta_bucket, task_id_pending_pool_bucket, bundle_wait_parse_ar_id_bucket,
}
use arseeding.Goar.Types.{Goar, Transaction, GetChunk}
use arseeding.Store.Frame.{
  Untouched, >>=-Untouched, reads-Untouched, lift-Untouched, if-Untouched, put-Untouched,
}
use arseeding.Store.Numbers.{parse_uint}
use arseeding.Store.Offsets.{is_exist_tx_data_end_offset}
use arseeding.Store.Records.{
  save_tx_meta, load_tx_meta, save_wait_parse_bundle_ar_id, put_task_pending_pool,
}
use arseeding.Submit.Chunks.{sync_add_tx_data_end_offset, set_tx_data_chunks}
use arseeding.Submit.Transactions.{
  is_bundle_tx, save_data_chunks, save_when_bundle, save_submit_data, save_new_tx, save_submit_tx,
}
use arseeding.Submit.Frame.{sync_add-Untouched, set_tx_data_chunks-Untouched}
use arseeding.Submit.Read.{allow_max_resp_data_size, get_ar_tx_data, tx_data_by_meta}
use arseeding.Submit.EndToEnd.{IsFresh, save_submit_tx-eq, save_submit_tx-read}
use arseeding.Submit.Kept.{load_tx-put, chunk_bytes-put, get_ar_tx_data-same}
use arseeding.Tasks.Id.{task_type_broadcast_meta, assemble_task_id}
use arseeding.Tasks.Service.{Service, on_db, put_to_tk_chan, register_task}
use arseeding.Api.Replies.{json, html}
use arseeding.Api.Tx.{answered, save_and_register, submit_tx, get_tx_field}

module _ ⦃kv : KeyValueDb⦄ ⦃g : Goar⦄ (tx : Transaction) where
  abbrev Meta {ℓ} : {A : Type ℓ} → Eff kv.Db A → Type 0
  Meta m = Untouched (λ (db : kv.Db). db) tx_meta_bucket m

  save_data_chunks-Untouched : (t : Text) → Meta (save_data_chunks t tx)
  unfolding save_data_chunks
  save_data_chunks-Untouched [] k db = refl
  save_data_chunks-Untouched (c ∷ t) k db =
      lift-Untouched (λ db. db) tx_meta_bucket (g.base64_decode (c ∷ t)) (set_tx_data_chunks tx)
        (λ bytes. set_tx_data_chunks-Untouched tx_meta_bucket (refl, refl, refl) tx bytes) k db

  save_when_bundle-Untouched : Meta (save_when_bundle tx)
  unfolding save_when_bundle save_wait_parse_bundle_ar_id
  save_when_bundle-Untouched =
      if-Untouched (λ db. db) tx_meta_bucket (is_bundle_tx tx.tags)
        (save_wait_parse_bundle_ar_id tx.id) (pure tt)
        (put-Untouched tx_meta_bucket bundle_wait_parse_ar_id_bucket _ _ refl) (λ k db. refl)

  save_submit_data-Untouched : Meta (save_submit_data tx)
  unfolding save_submit_data
  save_submit_data-Untouched =
      >>=-Untouched (λ db. db) tx_meta_bucket
        (sync_add_tx_data_end_offset tx.data_root tx.data_size)
        (λ u. save_data_chunks tx.data_text tx >> save_when_bundle tx)
        (sync_add-Untouched tx_meta_bucket (refl, refl, refl) tx.data_root tx.data_size)
        (λ u.
          >>=-Untouched (λ db. db) tx_meta_bucket (save_data_chunks tx.data_text tx)
            (λ u. save_when_bundle tx) (save_data_chunks-Untouched tx.data_text)
            (λ u. save_when_bundle-Untouched))

  abbrev behind_meta : Eff kv.Db (Unit {0})
  behind_meta = reads (is_exist_tx_data_end_offset tx.data_root tx.data_size) >>= λ known.
      if known then pure tt else save_submit_data tx

  behind_meta-Untouched : Meta behind_meta
  behind_meta-Untouched =
      reads-Untouched (λ db. db) tx_meta_bucket
        (is_exist_tx_data_end_offset tx.data_root tx.data_size)
        (λ known. if known then pure tt else save_submit_data tx)
        (λ known.
          if-Untouched (λ db. db) tx_meta_bucket known (pure tt) (save_submit_data tx)
            (λ k db. refl) save_submit_data-Untouched)

  -- the header that a save leaves
  abbrev pub header : Transaction
  header = record tx { data_text = [] }

  pub load_tx_meta-save_new_tx :
      (db : kv.Db)
      → (save_new_tx tx db).1 ≡ ok tt
      → load_tx_meta tx.id (save_new_tx tx db).0 ≡ ok header
  unfolding save_new_tx load_tx_meta save_tx_meta
  load_tx_meta-save_new_tx db done =
      let (u, saved, out) = >>=-ok (save_tx_meta tx) (λ _. behind_meta) db done in
      let kept : kv.get tx_meta_bucket tx.id (save_new_tx tx db).0 ≡ ok (g.marshal_tx header) =
        ap (λ r. kv.get tx_meta_bucket tx.id r.0) out
        ∙ behind_meta-Untouched tx.id (save_tx_meta tx db).0
        ∙ rw
            (
              kv.get-put tx_meta_bucket tx.id (g.marshal_tx header) db tx_meta_bucket tx.id saved,
              text_eq_refl tx.id,
            )
            refl in
      rw (kept, g.unmarshal-marshal_tx header) refl

module _ ⦃kv : KeyValueDb⦄ ⦃g : Goar⦄ where
  abbrev pool_put : Text → Text → Eff kv.Db (Unit {0})
  pool_put ar_id tktype = put_task_pending_pool (assemble_task_id ar_id tktype)

  register_task-db :
      (ar_id tktype : Text) (s : Service)
      → (register_task ar_id tktype s).1 ≡ ok tt
      → ((pool_put ar_id tktype s.db).1 ≡ ok tt)
        × ((register_task ar_id tktype s).0.db ≡ (pool_put ar_id tktype s.db).0)
  unfolding register_task put_task_pending_pool put_to_tk_chan on_db
  register_task-db ar_id tktype s done = elim (Result-cases (pool_put ar_id tktype s.db).1) [
    | inl (u, saved) ↦ rw saved (refl, refl)
    | inr (e, failed) ↦ let h = rw failed at done in absurd cc
  ]

  tx_data_by_meta-header :
      (fuel : ℕ) (tx : Transaction) (bytes : Bytes) (db : kv.Db)
      → parse_uint tx.data_size ≡ ok (length bytes)
      → length bytes ≤ allow_max_resp_data_size
      → get_ar_tx_data fuel tx.data_root tx.data_size db ≡ some (ok bytes)
      → tx_data_by_meta fuel (header tx) db ≡ some (ok bytes)
  unfolding tx_data_by_meta
  tx_data_by_meta-header fuel tx bytes db sized small content =
      rw (sized, le→ltb allow_max_resp_data_size (length bytes) small, content) refl

  -- the header and the data from a store with one task more in the pool
  get_tx_field-put :
      (fuel : ℕ) (tx : Transaction) (bytes : Bytes) (id v : Bytes) (db : kv.Db)
      → (kv.put task_id_pending_pool_bucket id v db).1 ≡ ok tt
      → load_tx_meta tx.id db ≡ ok (header tx)
      → parse_uint tx.data_size ≡ ok (length bytes)
      → length bytes ≤ allow_max_resp_data_size
      → get_ar_tx_data fuel tx.data_root tx.data_size db ≡ some (ok bytes)
      → get_tx_field fuel tx.id (codes "data") (kv.put task_id_pending_pool_bucket id v db).0
        ≡ some (html (g.base64_encode bytes))
  unfolding get_tx_field load_tx_meta text_eq
  get_tx_field-put fuel tx bytes id v db saved meta sized small content =
      let db' = (kv.put task_id_pending_pool_bucket id v db).0 in
      let pool = task_id_pending_pool_bucket in
      let meta' : load_tx_meta tx.id db' ≡ ok (header tx) =
        rw (kv.get-put pool id v db tx_meta_bucket tx.id saved) meta in
      let content' : get_ar_tx_data fuel tx.data_root tx.data_size db' ≡ some (ok bytes) =
        get_ar_tx_data-same fuel tx.data_root tx.data_size db db'
          (chunk_bytes-put pool id v db saved refl)
          (load_tx-put pool id v db saved refl tx.data_root tx.data_size)
        ∙ content in
      rw (meta', tx_data_by_meta-header fuel tx bytes db' sized small content') refl

  accepted : {S : Type 0} (r : S × Result (Unit {0})) → (answered r).1 ≡ json tt → r.1 ≡ ok tt
  accepted (s, ok u) h = refl
  accepted (s, err e) h = absurd cc

-- Take a request with the JSON of a transaction that is new to the store, verifies, and whose data is at
-- most 50 MB and is cut into chunks of two bytes or more, with room left for its offsets. If `submit_tx`
-- accepts it, then `get_tx_field` answers the field "data" of its id with the base64 of exactly its
-- data, from the store that `submit_tx` left, within as many rounds as the data has bytes.
pub submit_tx-get_tx_field :
    ⦃kv : KeyValueDb⦄ ⦃g : Goar⦄ (all fuel : ℕ) (raw : Bytes) (tx : Transaction) (bytes : Bytes)
    (cs : List GetChunk) (s : Service)
    → g.unmarshal_tx raw ≡ ok tx
    → IsFresh all tx bytes cs s.db
    → length bytes ≤ allow_max_resp_data_size
    → length bytes < fuel
    → (submit_tx (some (ok raw)) s).1 ≡ json tt
    → get_tx_field fuel tx.id (codes "data") (submit_tx (some (ok raw)) s).0.db
      ≡ some (html (g.base64_encode bytes))
unfolding submit_tx put_task_pending_pool on_db
submit_tx-get_tx_field ⦃kv⦄ ⦃g⦄ all fuel raw tx bytes cs s parsed fresh small enough answer =
    let run : submit_tx (some (ok raw)) s ≡ answered (save_and_register tx s) = rw parsed refl in
    let both = accepted (save_and_register tx s) (ap (λ r. r.1) (sym run) ∙ answer) in
    let (u, saved, out) =
      >>=-ok (on_db (save_submit_tx tx)) (λ _. register_task tx.id task_type_broadcast_meta) s
        both in
    let s1 = (on_db (save_submit_tx tx) s).0 in
    let (pooled, left) =
      register_task-db tx.id task_type_broadcast_meta s1 (ap (λ r. r.1) (sym out) ∙ both) in
    let new = save_submit_tx-eq all tx bytes cs s.db fresh in
    let meta : load_tx_meta tx.id s1.db ≡ ok (header tx) =
      ap (λ r. load_tx_meta tx.id r.0) new
      ∙ load_tx_meta-save_new_tx tx s.db (ap (λ r. r.1) (sym new) ∙ saved) in
    ap (λ r. get_tx_field fuel tx.id (codes "data") r.0.db) run
    ∙ ap (λ r. get_tx_field fuel tx.id (codes "data") r.0.db) out
    ∙ ap (get_tx_field fuel tx.id (codes "data")) left
    ∙ get_tx_field-put fuel tx bytes (assemble_task_id tx.id task_type_broadcast_meta)
        (codes "0x01") s1.db pooled meta fresh.sized small
        (save_submit_tx-read all fuel tx bytes cs s.db fresh enough saved)
