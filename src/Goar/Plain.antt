-- ===== src/Goar/Plain.antt =====
-- A value of the interface for the tests: base64 that leaves the bytes alone, records written as
-- their fields, each behind its length, and data of ten bytes or fewer, which make up one chunk.
use arseeding.Prelude.{
  ℕ, zero, suc, ◌+◌, Text, Bytes, Bool, true, false, ◌≡◌, refl, List, [], ◌∷◌, ◌++◌, length,
}
use arseeding.Effect.{Result, ok}
use arseeding.Goar.Types.{Tag, Transaction, GetChunk, Task, Goar}

-- One field behind its length, and the rest.
unfoldable pub write : Text → Bytes → Bytes
write t rest = length t ∷ (t ++ rest)

unfoldable pub cut : ℕ → Bytes → Text × Bytes
cut zero b = ([], b)
cut (suc n) [] = ([], [])
cut (suc n) (c ∷ b) = let (t, rest) = cut n b in (c ∷ t, rest)

cut-append : (t rest : Text) → cut (length t) (t ++ rest) ≡ (t, rest)
unfolding cut
cut-append [] rest = refl
cut-append (c ∷ t) rest = rw (cut-append t rest)

unfoldable pub scan : Bytes → Text × Bytes
scan [] = ([], [])
scan (n ∷ b) = cut n b

pub scan-write : (t rest : Text) → scan (write t rest) ≡ (t, rest)
unfolding scan write
scan-write t rest = cut-append t rest

unfoldable pub number : Bytes → ℕ × Bytes
number [] = (0, [])
number (n ∷ b) = (n, b)

unfoldable pub write_tags : List Tag → Bytes
write_tags [] = []
write_tags (t ∷ ts) = write t.name (write t.value (write_tags ts))

unfoldable pub scan_tags : ℕ → Bytes → List Tag
scan_tags zero b = []
scan_tags (suc n) b =
    let (name, b1) = scan b in
    let (value, b2) = scan b1 in record { name = name; value = value } ∷ scan_tags n b2

pub scan_tags-write_tags : (ts : List Tag) → scan_tags (length ts) (write_tags ts) ≡ ts
unfolding scan_tags write_tags
scan_tags-write_tags [] = refl
scan_tags-write_tags (t ∷ ts) = simp (scan-write, scan_tags-write_tags ts)

-- the fields that are stored and read only
write_fields : Transaction → Bytes → Bytes
write_fields t rest =
    write t.last_tx
      (write t.owner (write t.target (write t.quantity (write t.reward (write t.signature rest)))))

write_tx : Transaction → Bytes
write_tx t = write t.id (
    write t.data_root
      (write t.data_size (write t.data_text (write_fields t (length t.tags ∷ write_tags t.tags)))))

scan_tx : Bytes → Result Transaction
scan_tx b =
    let (id, b1) = scan b in
    let (data_root, b2) = scan b1 in
    let (data_size, b3) = scan b2 in
    let (data_text, b4) = scan b3 in
    let (last_tx, b5) = scan b4 in
    let (owner, b6) = scan b5 in
    let (target, b7) = scan b6 in
    let (quantity, b8) = scan b7 in
    let (reward, b9) = scan b8 in
    let (signature, b10) = scan b9 in
    let (n, b11) = number b10 in
    ok (record {
      id = id;
      last_tx = last_tx;
      owner = owner;
      target = target;
      quantity = quantity;
      reward = reward;
      signature = signature;
      data_root = data_root;
      data_size = data_size;
      data_text = data_text;
      tags = scan_tags n b11;
    })

scan_tx-write_tx : (t : Transaction) → scan_tx (write_tx t) ≡ ok t
unfolding scan_tx write_tx write_fields number
scan_tx-write_tx t = simp (scan-write, scan_tags-write_tags)

write_chunk : GetChunk → Bytes
write_chunk c =
    write c.data_root (write c.data_size (write c.data_path (write c.offset (write c.chunk []))))

scan_chunk : Bytes → Result GetChunk
scan_chunk b =
    let (data_root, b1) = scan b in
    let (data_size, b2) = scan b1 in
    let (data_path, b3) = scan b2 in
    let (offset, b4) = scan b3 in
    let (chunk, b5) = scan b4 in
    ok (record {
      data_root = data_root;
      data_size = data_size;
      data_path = data_path;
      offset = offset;
      chunk = chunk;
    })

scan_chunk-write_chunk : (c : GetChunk) → scan_chunk (write_chunk c) ≡ ok c
unfolding scan_chunk write_chunk
scan_chunk-write_chunk c = simp scan-write

flag : Bool → ℕ
flag true = 1
flag false = 0

unflag : ℕ → Bool
unflag zero = false
unflag (suc n) = true

unflag-flag : (b : Bool) → unflag (flag b) ≡ b
unfolding flag unflag
unflag-flag true = refl
unflag-flag false = refl

write_task : Task → Bytes
write_task t = write t.ar_id (
    write t.task_type
      (t.count_successed ∷ t.count_failed ∷ t.total_peer ∷ t.timestamp ∷ flag t.close ∷ []))

scan_task : Bytes → Result Task
scan_task b =
    let (ar_id, b1) = scan b in
    let (task_type, b2) = scan b1 in
    let (count_successed, b3) = number b2 in
    let (count_failed, b4) = number b3 in
    let (total_peer, b5) = number b4 in
    let (timestamp, b6) = number b5 in
    let (close, b7) = number b6 in
    ok (record {
      ar_id = ar_id;
      task_type = task_type;
      count_successed = count_successed;
      count_failed = count_failed;
      total_peer = total_peer;
      timestamp = timestamp;
      close = unflag close;
    })

scan_task-write_task : (t : Task) → scan_task (write_task t) ≡ ok t
unfolding scan_task write_task number
scan_task-write_task t = simp (scan-write, unflag-flag)

unfoldable pub plain : Goar
unfolding scan_tx write_tx write_fields scan_chunk write_chunk scan_task write_task scan write
    number cut scan_tags write_tags flag unflag scan_tx-write_tx scan_chunk-write_chunk
    scan_task-write_task scan-write scan_tags-write_tags unflag-flag cut-append
plain = record {
  base64_encode = λ b. b;
  base64_decode = λ t. ok t;
  decode-encode = λ b. refl;
  encode-nil = λ b h. h;
  sum256 = λ b. b;
  marshal_tx = write_tx;
  unmarshal_tx = scan_tx;
  unmarshal-marshal_tx = scan_tx-write_tx;
  marshal_chunk = write_chunk;
  unmarshal_chunk = scan_chunk;
  unmarshal-marshal_chunk = scan_chunk-write_chunk;
  marshal_task = write_task;
  unmarshal_task = scan_task;
  unmarshal-marshal_task = scan_task-write_task;
  verify_transaction = λ t. ok tt;
  validate_path = λ root offset start size path. true;
  tags_decode = λ ts. (ts, ok tt);
  chunk_count = λ t b. 1;
  get_chunk = λ t i b. ok (record {
    data_root = t.data_root;
    data_size = t.data_size;
    data_path = [];
    offset = (length b + 47) ∷ [];
    chunk = b;
  });
}
