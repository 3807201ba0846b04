-- ===== src/Store/Laws.antt =====
-- What the loads of the offsets and chunks return after each save.
use arseeding.Prelude.{
  ℕ, ◌<◌, Text, text_eq, text_eq_refl, text_eq_ne, [], ◌∷◌, ◌∙◌, ◌≡◌, ◌≢◌, refl, ap, sym,
  Bool-cases, inl, inr, if◌then◌else◌,
}
use arseeding.Effect.{Error, ok, err, Result-cases}
use arseeding.Rawdb.Interface.{
  KeyValueDb, constants_bucket, tx_data_end_offset_bucket, chunk_bucket,
}
use arseeding.Goar.Types.{Goar, GetChunk}
use arseeding.Store.Numbers.{itob, btoi, btoi-itob, u64_mod}
use arseeding.Store.Offsets.{
  save_all_data_end_offset, load_all_data_end_offset, or_zero, all_data_end_offset_key,
  generate_offset_key, save_tx_data_end_offset, load_tx_data_end_offset, save_chunk, load_chunk,
}

module _ ⦃g : Goar⦄ where
  itob_injective : (a b : ℕ) → a < u64_mod → b < u64_mod → itob a ≡ itob b → a ≡ b
  itob_injective a b ha hb e = cc (btoi-itob a ha, btoi-itob b hb, ap (λ t. btoi t) e)

  itob-cons : (v : ℕ) (t : Text) → t ≡ itob v → t ≢ []
  unfolding itob
  itob-cons v t e n = cc (g.encode-nil _ (sym e ∙ n))

  or_zero-itob : (v : ℕ) (t : Text) → t ≡ itob v → v < u64_mod → or_zero (ok t) ≡ ok v
  or_zero-itob v [] e h = absurd (itob-cons v [] e refl)
  or_zero-itob v (c ∷ t) e h = rw e (btoi-itob v h)

module _ ⦃kv : KeyValueDb⦄ ⦃g : Goar⦄ where
  -- `save_chunk` and the three loads
  module _ (k : ℕ) (c : GetChunk) (db : kv.Db) (saved : (save_chunk k c db).1 ≡ ok tt) where
    pub load_chunk-save_chunk_self : load_chunk k (save_chunk k c db).0 ≡ ok c
    unfolding load_chunk save_chunk
    load_chunk-save_chunk_self =
        rw (kv.get-put chunk_bucket (itob k) (g.marshal_chunk c) db chunk_bucket (itob k) saved)
          (rw (text_eq_refl (itob k)) (g.unmarshal-marshal_chunk c))

    pub load_chunk-save_chunk_ne :
        (j : ℕ)
        → k < u64_mod
        → j < u64_mod
        → k ≢ j
        → load_chunk j (save_chunk k c db).0 ≡ load_chunk j db
    unfolding load_chunk save_chunk
    load_chunk-save_chunk_ne j hk hj ne =
        rw (kv.get-put chunk_bucket (itob k) (g.marshal_chunk c) db chunk_bucket (itob j) saved)
          (rw (text_eq_ne (itob k) (itob j) (λ e. ne (itob_injective k j hk hj e))))

    pub load_tx_data_end_offset-save_chunk :
        (r s : Text)
        → load_tx_data_end_offset r s (save_chunk k c db).0 ≡ load_tx_data_end_offset r s db
    unfolding load_tx_data_end_offset save_chunk
    load_tx_data_end_offset-save_chunk r s = rw (
        kv.get-put chunk_bucket (itob k) (g.marshal_chunk c) db tx_data_end_offset_bucket
          (generate_offset_key r s) saved)

  -- the end offset of all data
  module _ (v : ℕ) (db : kv.Db) where
    pub load_all-save_all :
        v < u64_mod
        → (save_all_data_end_offset v db).1 ≡ ok tt
        → load_all_data_end_offset (save_all_data_end_offset v db).0 ≡ ok v
    unfolding load_all_data_end_offset save_all_data_end_offset
    load_all-save_all h saved =
        rw
          (kv.get-put constants_bucket all_data_end_offset_key (itob v) db constants_bucket
            all_data_end_offset_key saved)
          (rw (text_eq_refl all_data_end_offset_key) (or_zero-itob v (itob v) refl h))

    pub load_all-save_all_err :
        {e : Error}
        → (save_all_data_end_offset v db).1 ≡ err e
        → load_all_data_end_offset (save_all_data_end_offset v db).0 ≡ load_all_data_end_offset db
    unfolding load_all_data_end_offset save_all_data_end_offset
    load_all-save_all_err h = rw (
        kv.get-put_err constants_bucket all_data_end_offset_key (itob v) db constants_bucket
          all_data_end_offset_key h)

    pub load_tx-save_all :
        (r s : Text)
        → load_tx_data_end_offset r s (save_all_data_end_offset v db).0
          ≡ load_tx_data_end_offset r s db
    unfolding load_tx_data_end_offset save_all_data_end_offset
    load_tx-save_all r s =
        elim (Result-cases (kv.put constants_bucket all_data_end_offset_key (itob v) db).1) [
          | inl (u, saved) ↦ rw (
              kv.get-put constants_bucket all_data_end_offset_key (itob v) db
                tx_data_end_offset_bucket (generate_offset_key r s) saved)
          | inr (e, failed) ↦ rw (
              kv.get-put_err constants_bucket all_data_end_offset_key (itob v) db
                tx_data_end_offset_bucket (generate_offset_key r s) failed)
        ]

  -- the end offset of one transaction
  module _ (r s : Text) (v : ℕ) (db : kv.Db) where
    pub load_tx-save_tx :
        v < u64_mod
        → (save_tx_data_end_offset r s v db).1 ≡ ok tt
        → (r' s' : Text)
        → load_tx_data_end_offset r' s' (save_tx_data_end_offset r s v db).0 ≡ (
            if text_eq (generate_offset_key r s) (generate_offset_key r' s')
            then ok v
            else load_tx_data_end_offset r' s' db)
    unfolding load_tx_data_end_offset save_tx_data_end_offset
    load_tx-save_tx h saved r' s' =
        rw
          (kv.get-put tx_data_end_offset_bucket (generate_offset_key r s) (itob v) db
            tx_data_end_offset_bucket (generate_offset_key r' s') saved)
          (elim (Bool-cases (text_eq (generate_offset_key r s) (generate_offset_key r' s'))) [
            | inl same ↦ rw (same) (btoi-itob v h)
            | inr apart ↦ rw (apart)
          ])

    pub load_tx-save_tx_err :
        {e : Error}
        → (save_tx_data_end_offset r s v db).1 ≡ err e
        → (r' s' : Text)
        → load_tx_data_end_offset r' s' (save_tx_data_end_offset r s v db).0
          ≡ load_tx_data_end_offset r' s' db
    unfolding load_tx_data_end_offset save_tx_data_end_offset
    load_tx-save_tx_err h r' s' = rw (
        kv.get-put_err tx_data_end_offset_bucket (generate_offset_key r s) (itob v) db
          tx_data_end_offset_bucket (generate_offset_key r' s') h)

    pub load_all-save_tx :
        load_all_data_end_offset (save_tx_data_end_offset r s v db).0 ≡ load_all_data_end_offset db
    unfolding load_all_data_end_offset save_tx_data_end_offset
    load_all-save_tx =
        elim (Result-cases
          (kv.put tx_data_end_offset_bucket (generate_offset_key r s) (itob v) db).1) [
            | inl (u, saved) ↦ rw (
                kv.get-put tx_data_end_offset_bucket (generate_offset_key r s) (itob v) db
                  constants_bucket all_data_end_offset_key saved)
            | inr (e, failed) ↦ rw (
                kv.get-put_err tx_data_end_offset_bucket (generate_offset_key r s) (itob v) db
                  constants_bucket all_data_end_offset_key failed)
          ]
