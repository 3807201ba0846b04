-- ===== src/Submit/Alloc.antt =====
-- How `sync_add_tx_data_end_offset` hands out ranges of offsets: the range of a transaction with
-- end offset `e` and `n` bytes is `e - n + 1 … e`.
use arseeding.Prelude.{
  ℕ, ◌+◌, ◌≤◌, ◌<◌, Text, text_eq, ◌≡◌, refl, sym, ◌∙◌, inl, inr, arith, if◌then◌else◌,
}
use arseeding.Effect.{Error, Result, ok, err, not_exist, Result-cases, on_error}
use arseeding.Rawdb.Interface.{KeyValueDb}
use arseeding.Goar.Types.{Goar}
use arseeding.Store.Numbers.{add64, u64_mod, parse_uint}
use arseeding.Store.Offsets.{
  save_all_data_end_offset, rollback_all_data_end_offset, load_all_data_end_offset,
  generate_offset_key, save_tx_data_end_offset, load_tx_data_end_offset,
  is_exist_tx_data_end_offset, atomic_sync_data_end_offset,
}
use arseeding.Store.Laws.{
  load_all-save_all, load_all-save_all_err, load_tx-save_all, load_tx-save_tx, load_tx-save_tx_err,
  load_all-save_tx,
}
use arseeding.Submit.Chunks.{sync_add_tx_data_end_offset}

module _ ⦃kv : KeyValueDb⦄ ⦃g : Goar⦄ where
  -- Offsets up to `all` are handed out, and no others.
  pub record IsAllocated (all : ℕ) (db : kv.Db) : Type 0 where
    pub fits : all < u64_mod
    pub loads : load_all_data_end_offset db ≡ ok all
    pub bounded : (r s : Text) (e : ℕ) → load_tx_data_end_offset r s db ≡ ok e → e ≤ all

  -- what an allocation may do to the store: nothing to the transactions known before; at most `n`
  -- offsets are lost where it fails
  pub record Leaves (all n : ℕ) (db db' : kv.Db) : Type 0 where
    pub top : ℕ
    pub top_le : top ≤ all + n
    pub allocated : IsAllocated top db'
    pub same : (r s : Text) → load_tx_data_end_offset r s db' ≡ load_tx_data_end_offset r s db

  -- a new range of `n` offsets for one transaction, the others as they were
  pub record Grows (all n : ℕ) (r s : Text) (db db' : kv.Db) : Type 0 where
    pub allocated : IsAllocated (all + n) db'
    pub loads :
        (r' s' : Text)
        → load_tx_data_end_offset r' s' db' ≡ (
            if text_eq (generate_offset_key r s) (generate_offset_key r' s')
            then ok (all + n)
            else load_tx_data_end_offset r' s' db)

  abbrev pub Ends : ℕ → ℕ → Text → Text → kv.Db → kv.Db × Result (Unit {0}) → Type 0
  Ends all n r s db (db', ok u) = Grows all n r s db db'
  Ends all n r s db (db', err e) = Leaves all n db db'

  rollback-eq : (v : ℕ) → rollback_all_data_end_offset v ≡ save_all_data_end_offset v
  unfolding rollback_all_data_end_offset save_all_data_end_offset
  rollback-eq v = refl

  -- the end offset of all data moves up, or a write fails and nothing moves
  save_all-IsAllocated :
      (v all : ℕ) (db : kv.Db)
      → (save_all_data_end_offset v db).1 ≡ ok tt
      → v < u64_mod
      → ((r s : Text) (e : ℕ) → load_tx_data_end_offset r s db ≡ ok e → e ≤ v)
      → IsAllocated v (save_all_data_end_offset v db).0
  save_all-IsAllocated v all db saved lt above = record {
    fits = lt;
    loads = load_all-save_all v db lt saved;
    bounded = λ r s e h. above r s e (sym (load_tx-save_all v db r s) ∙ h);
  }

  save_all_err-IsAllocated :
      (v all : ℕ) (db : kv.Db) {e : Error}
      → (save_all_data_end_offset v db).1 ≡ err e
      → IsAllocated all db
      → IsAllocated all (save_all_data_end_offset v db).0
  save_all_err-IsAllocated v all db failed a = record {
    fits = a.fits;
    loads = load_all-save_all_err v db failed ∙ a.loads;
    bounded = λ r s e h. a.bounded r s e (sym (load_tx-save_all v db r s) ∙ h);
  }

  module _ (all n : ℕ) (r s : Text) (room : all + n < u64_mod) where
    save_tx-Grows :
        (db db1 : kv.Db)
        → IsAllocated (all + n) db1
        → ((r' s' : Text) → load_tx_data_end_offset r' s' db1 ≡ load_tx_data_end_offset r' s' db)
        → (save_tx_data_end_offset r s (all + n) db1).1 ≡ ok tt
        → Grows all n r s db (save_tx_data_end_offset r s (all + n) db1).0
    save_tx-Grows db db1 a same saved = record {
      allocated = record {
        fits = room;
        loads = load_all-save_tx r s (all + n) db1 ∙ a.loads;
        bounded = λ r' s' e h.
            ground (arith, load_tx-save_tx r s (all + n) db1 room saved r' s', a.bounded r' s' e);
      };
      loads =
          λ r' s'. ground (arith, load_tx-save_tx r s (all + n) db1 room saved r' s', same r' s');
    }

    -- `db1` has the new end offset of all data, and the write of the transaction's failed
    rolled_back :
        (db db1 : kv.Db) {e : Error}
        → IsAllocated all db
        → IsAllocated (all + n) db1
        → ((r' s' : Text) → load_tx_data_end_offset r' s' db1 ≡ load_tx_data_end_offset r' s' db)
        → (save_tx_data_end_offset r s (all + n) db1).1 ≡ err e
        → Leaves all n db
            (rollback_all_data_end_offset all (save_tx_data_end_offset r s (all + n) db1).0).0
    rolled_back db db1 a a1 same failed =
        rw rollback-eq (elim (Result-cases (save_all_data_end_offset all db2).1) [
          | inl (u, saved) ↦ record {
            top = all;
            top_le = omega arith;
            allocated =
                save_all-IsAllocated all all db2 saved a.fits
                  (λ r' s' e h. a.bounded r' s' e (sym (same2 r' s') ∙ h));
            same = same3;
          }
          | inr (x, undone) ↦ record {
            top = all + n;
            top_le = omega arith;
            allocated = save_all_err-IsAllocated all (all + n) db2 undone (record {
              fits = room;
              loads = load_all-save_tx r s (all + n) db1 ∙ a1.loads;
              bounded = λ r' s' e h.
                  a1.bounded r' s' e (sym (load_tx-save_tx_err r s (all + n) db1 failed r' s') ∙ h);
            });
            same = same3;
          }
        ])
      where
        db2 : kv.Db
        db2 = (save_tx_data_end_offset r s (all + n) db1).0

        same2 :
            (r' s' : Text) → load_tx_data_end_offset r' s' db2 ≡ load_tx_data_end_offset r' s' db
        same2 r' s' = load_tx-save_tx_err r s (all + n) db1 failed r' s' ∙ same r' s'

        same3 :
            (r' s' : Text)
            → load_tx_data_end_offset r' s' (save_all_data_end_offset all db2).0
              ≡ load_tx_data_end_offset r' s' db
        same3 r' s' = load_tx-save_all all db2 r' s' ∙ same2 r' s'

    atomic-Ends :
        (db : kv.Db)
        → IsAllocated all db
        → Ends all n r s db (atomic_sync_data_end_offset all (all + n) r s db)
    unfolding atomic_sync_data_end_offset
    atomic-Ends db a = elim (Result-cases (save_all_data_end_offset (all + n) db).1) [
      | inl (u, saved) ↦ rw saved (
          transaction (
            save_all-IsAllocated (all + n) all db saved room
              (λ r' s' e h. omega (arith, a.bounded r' s' e h))))
      | inr (e, failed) ↦ rw failed (record {
        top = all;
        top_le = omega arith;
        allocated = save_all_err-IsAllocated (all + n) all db failed a;
        same = load_tx-save_all (all + n) db;
      })
    ]
      where
        transaction :
            (a1 : IsAllocated (all + n) (save_all_data_end_offset (all + n) db).0)
            → Ends all n r s db (
                on_error
                  (save_tx_data_end_offset r s (all + n))
                  (rollback_all_data_end_offset all)
                  (save_all_data_end_offset (all + n) db).0)
        transaction a1 =
            elim (Result-cases
              (save_tx_data_end_offset r s (all + n) (save_all_data_end_offset (all + n) db).0).1) [
                | inl (v, saved2) ↦ rw saved2 (
                    save_tx-Grows db (save_all_data_end_offset (all + n) db).0 a1
                      (load_tx-save_all (all + n) db) saved2)
                | inr (e, failed) ↦ rw failed (
                    rolled_back db (save_all_data_end_offset (all + n) db).0 a a1
                      (load_tx-save_all (all + n) db) failed)
              ]

  -- Let the offsets up to `all` be handed out, and let a transaction of `n` bytes be new to the store
  -- and fit behind them. Where `sync_add_tx_data_end_offset` reports success, its end offset is
  -- `all + n`, the offsets up to there are handed out, and the other transactions are as before.
  -- Where it reports an error, all transactions are as before, and at most the `n` offsets are lost.
  pub sync_add-Ends :
      (all n : ℕ) (r s : Text) (db : kv.Db)
      → IsAllocated all db
      → all + n < u64_mod
      → parse_uint s ≡ ok n
      → load_tx_data_end_offset r s db ≡ err not_exist
      → Ends all n r s db (sync_add_tx_data_end_offset r s db)
  unfolding sync_add_tx_data_end_offset is_exist_tx_data_end_offset
  sync_add-Ends all n r s db a room size fresh =
      rw (fresh, size, a.loads, wraps) (atomic-Ends all n r s room db a)
    where
      wraps : add64 all n ≡ all + n
      wraps = omega arith
