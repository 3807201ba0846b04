-- ===== src/Submit/RoundTrip.antt =====
-- What the loop of `set_tx_data_chunks` leaves in the store, for the loop of `get_ar_tx_data`.
use mathlib.Core.List.{append-nil, append_assoc}
use arseeding.Prelude.{
  ℕ, zero, suc, ◌+◌, ◌-◌, ◌≤◌, ◌<◌, Text, Bytes, text_eq_iff, ◌≡◌, refl, ap, ◌∙◌, inl, inr, true,
  false, some, List, [], ◌∷◌, ◌++◌, length, length-append, arith, ltb, le→ltb, lt→ltb,
}
use arseeding.Effect.{ok, >>=-cases, ◌>>◌}
use arseeding.Rawdb.Interface.{KeyValueDb}
use arseeding.Goar.Types.{Goar, GetChunk}
use arseeding.Store.Numbers.{add64, sub64, u64_mod, parse_uint}
use arseeding.Store.Offsets.{load_tx_data_end_offset, save_chunk, load_chunk}
use arseeding.Store.Laws.{
  load_chunk-save_chunk_self, load_chunk-save_chunk_ne, load_tx_data_end_offset-save_chunk,
}
use arseeding.Submit.Chunks.{store_chunk, store_chunks}
use arseeding.Submit.Read.{chunk_bytes, read_chunks}

module _ ⦃g : Goar⦄ (root size : Text) where
  -- One chunk of a transaction: its bytes, which begin at `at` in the data. `Offset` is that of
  -- its last byte.
  pub record IsPiece (at : ℕ) (c : GetChunk) (d : Bytes) : Type 0 where
    pub decodes : g.base64_decode c.chunk ≡ ok d
    pub of_root : c.data_root ≡ root
    pub of_size : c.data_size ≡ size
    pub long : 2 ≤ length d
    pub ends_at : parse_uint c.offset ≡ ok (at + length d - 1)

  -- `utils.PrepareChunks` and `utils.GetChunk` document such a cut: the pieces follow one another
  -- and make up the data.
  pub data IsCut : ℕ → List GetChunk → Bytes → Type 0 where
    done : {at : ℕ} → IsCut at [] []
    piece :
        {at : ℕ} (c : GetChunk) (d : Bytes) {cs : List GetChunk} {rest : Bytes}
        → IsPiece at c d
        → IsCut (at + length d) cs rest
        → IsCut at (c ∷ cs) (d ++ rest)

module _ ⦃kv : KeyValueDb⦄ ⦃g : Goar⦄ where
  -- where `store_chunk` puts a piece
  store_chunk-eq :
      (root size : Text) (n end at : ℕ) (c : GetChunk) (d : Bytes) (db : kv.Db)
      → parse_uint size ≡ ok n
      → load_tx_data_end_offset root size db ≡ ok end
      → n ≤ end
      → end + 1 < u64_mod
      → at + length d ≤ n
      → IsPiece root size at c d
      → store_chunk c db ≡ save_chunk (end - n + 1 + at) c db
  unfolding store_chunk
  store_chunk-eq root size n end at c d db sized loaded le fits inside p =
      simp (p.of_root, p.of_size, loaded, sized, p.ends_at, p.decodes)
        (ap (λ k. save_chunk k c db) place)
    where
      place :
          add64 (sub64 (add64 (add64 (sub64 end n) 1) (at + length d - 1)) (length d)) 1
          ≡ end - n + 1 + at
      place = omega (arith, p.long)

  -- one round of the read loop, and its end
  pub read_chunks-step :
      (fuel start end i : ℕ) (acc d : Bytes) (db : kv.Db)
      → ltb (add64 i start) end ≡ true
      → chunk_bytes (add64 start i) db ≡ ok d
      → read_chunks (suc fuel) start end i acc db
        ≡ read_chunks fuel start end (i + length d) (acc ++ d) db
  unfolding read_chunks
  read_chunks-step fuel start end i acc d db more loaded = rw (more, loaded)

  pub read_chunks-end :
      (fuel start end i : ℕ) (acc : Bytes) (db : kv.Db)
      → 0 < fuel
      → ltb (add64 i start) end ≡ false
      → read_chunks fuel start end i acc db ≡ some (ok acc)
  unfolding read_chunks
  read_chunks-end zero start end i acc db h over = absurd (omega arith)
  read_chunks-end (suc fuel) start end i acc db h over = rw over

  -- Where the loop stores the pieces of `d` from `at` on, it leaves what is stored before `at`.
  module _ (root size : Text) (n end : ℕ) (sized : parse_uint size ≡ ok n) (le : n ≤ end)
      (fits : end + 1 < u64_mod) where
    -- what holds of the store after the loop
    pub record IsStored (at : ℕ) (d : Bytes) (db db' : kv.Db) : Type 0 where
      pub end_kept : load_tx_data_end_offset root size db' ≡ load_tx_data_end_offset root size db
      pub before_kept :
          (j : ℕ) → j < at → load_chunk (end - n + 1 + j) db' ≡ load_chunk (end - n + 1 + j) db
      pub read_back :
          (fuel : ℕ) (acc : Bytes)
          → length d < fuel
          → read_chunks fuel (end - n + 1) end at acc db' ≡ some (ok (acc ++ d))

    IsStored-done : (at : ℕ) (db : kv.Db) → at ≡ n → IsStored at [] db db
    IsStored-done at db e = record {
      end_kept = refl;
      before_kept = λ j h. refl;
      read_back = λ fuel acc h.
          read_chunks-end fuel (end - n + 1) end at acc db h
            (le→ltb (add64 at (end - n + 1)) end (omega arith))
          ∙ rw append-nil;
    }

    module _ (at : ℕ) (c : GetChunk) (d rest : Bytes) (db db' : kv.Db)
        (p : IsPiece root size at c d) (total : at + length d + length rest ≡ n)
        (saved : (save_chunk (end - n + 1 + at) c db).1 ≡ ok tt)
        (h : IsStored (at + length d) rest (save_chunk (end - n + 1 + at) c db).0 db') where
      piece_read : chunk_bytes (add64 (end - n + 1) at) db' ≡ ok d
      unfolding chunk_bytes
      piece_read =
          let at_place : add64 (end - n + 1) at ≡ end - n + 1 + at = omega (arith, p.long) in
          rw
            (
              at_place,
              h.before_kept at (omega (arith, p.long)),
              load_chunk-save_chunk_self (end - n + 1 + at) c db saved,
            )
            p.decodes

      piece_back :
          (fuel : ℕ) (acc : Bytes)
          → length (d ++ rest) < fuel
          → read_chunks fuel (end - n + 1) end at acc db' ≡ some (ok (acc ++ (d ++ rest)))
      piece_back zero acc lt = absurd (omega arith)
      piece_back (suc fuel) acc lt =
          read_chunks-step fuel (end - n + 1) end at acc d db'
            (lt→ltb (add64 at (end - n + 1)) end (omega (arith, p.long))) piece_read
          ∙ h.read_back fuel (acc ++ d) (omega (arith, length-append d rest, p.long))
          ∙ rw append_assoc

      IsStored-piece : IsStored at (d ++ rest) db db'
      IsStored-piece = record {
        end_kept =
            h.end_kept ∙ load_tx_data_end_offset-save_chunk (end - n + 1 + at) c db saved root size;
        before_kept = λ j lt.
            h.before_kept j (omega arith)
            ∙ load_chunk-save_chunk_ne (end - n + 1 + at) c db saved (end - n + 1 + j)
                (omega (arith, p.long)) (omega (arith, p.long)) (λ e. omega arith);
        read_back = piece_back;
      }

    store_chunks-piece :
        (at : ℕ) (c : GetChunk) (cs : List GetChunk) (d : Bytes) (db : kv.Db)
        → IsPiece root size at c d
        → at + length d ≤ n
        → load_tx_data_end_offset root size db ≡ ok end
        → store_chunks root (c ∷ cs) db
          ≡ (save_chunk (end - n + 1 + at) c >> store_chunks root cs) db
    unfolding store_chunks
    store_chunks-piece at c cs d db p inside loaded = rw (
      (text_eq_iff c.data_root root).1 p.of_root,
      store_chunk-eq root size n end at c d db sized loaded le fits inside p,
    )

    -- the first write of the loop succeeded, and what follows is the rest of the loop
    first_saved :
        (k : ℕ) (c : GetChunk) (cs : List GetChunk) (db : kv.Db)
        → ((save_chunk k c >> store_chunks root cs) db).1 ≡ ok tt
        → ((save_chunk k c db).1 ≡ ok tt)
          × ((save_chunk k c >> store_chunks root cs) db
              ≡ store_chunks root cs (save_chunk k c db).0)
    first_saved k c cs db stored =
        elim (>>=-cases (save_chunk k c) (λ u. store_chunks root cs) db) [
          | inl (u, saved, e) ↦ (saved, e)
          | inr (x, failed, e) ↦ absurd (cc (ap (λ r. r.1) e, stored))
        ]

    pub store_chunks-IsStored :
        {at : ℕ} (cs : List GetChunk) {d : Bytes} (db : kv.Db)
        → IsCut root size at cs d
        → at + length d ≡ n
        → load_tx_data_end_offset root size db ≡ ok end
        → (store_chunks root cs db).1 ≡ ok tt
        → IsStored at d db (store_chunks root cs db).0
    store_chunks-IsStored {at} cs db done total loaded stored =
        unfold store_chunks in IsStored-done at db (omega arith)
    store_chunks-IsStored {at} cs db (piece c d {cs = cs'} {rest = rest} p cut) total loaded
          stored =
        let k : ℕ = end - n + 1 + at in
        let len : at + length d + length rest ≡ n = omega (arith, length-append d rest) in
        let e : store_chunks root (c ∷ cs') db ≡ (save_chunk k c >> store_chunks root cs') db =
          store_chunks-piece at c cs' d db p (omega arith) loaded in
        let (saved, e') = first_saved k c cs' db (rw e at stored) in
        rw (e ∙ e') (
          IsStored-piece at c d rest db (store_chunks root cs' (save_chunk k c db).0).0 p len saved
            (store_chunks-IsStored cs' (save_chunk k c db).0 cut len
              (load_tx_data_end_offset-save_chunk k c db saved root size ∙ loaded)
              (rw (e ∙ e') at stored)))
