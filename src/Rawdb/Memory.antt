-- ===== src/Rawdb/Memory.antt =====
-- A value of the interface: an association list whose calls all succeed. The tests run on it.
use arseeding.Prelude.{
  ℕ, Text, Bytes, text_eq, text_eq_iff, false, ◌≡◌, refl, List, [], ◌∷◌, arith, ◌==◌, if◌then◌else◌,
}
use arseeding.Effect.{Result, ok, err, not_exist, not_implement, is_ok}
use arseeding.Rawdb.Interface.{bucket_number, place_eq, KeyValueDb}

-- A cell is the number of its bucket, its key and its value.
abbrev Cells : Type 0
Cells = List (ℕ × Text × Bytes)

read : ℕ → Text → Cells → Result Bytes
read b k [] = err not_exist
read b k ((c, j, v) ∷ cells) = if place_eq c j b k then ok v else read b k cells

remove : ℕ → Text → Cells → Cells
remove b k [] = []
remove b k ((c, j, v) ∷ cells) =
    let rest = remove b k cells in if place_eq b k c j then rest else (c, j, v) ∷ rest

keys : ℕ → Cells → List Text
keys b [] = []
keys b ((c, j, v) ∷ cells) = let rest = keys b cells in if c == b then j ∷ rest else rest

read-remove :
    (b : ℕ) (k : Text) (cells : Cells) (b' : ℕ) (k' : Text)
    → read b' k' (remove b k cells)
      ≡ (if place_eq b k b' k' then err not_exist else read b' k' cells)
unfolding read remove
read-remove b k [] b' k' = ground arith
read-remove b k ((c, j, v) ∷ cells) b' k' =
    ground (arith, read-remove b k cells b' k', text_eq_iff k j, text_eq_iff j k', text_eq_iff k k')

read-put :
    (b : ℕ) (k : Text) (v : Bytes) (cells : Cells) (b' : ℕ) (k' : Text)
    → read b' k' ((b, k, v) ∷ remove b k cells)
      ≡ (if place_eq b k b' k' then ok v else read b' k' cells)
unfolding read
read-put b k v cells b' k' = ground (arith, read-remove b k cells b' k')

unfoldable pub memory : KeyValueDb
unfolding read remove keys read-put read-remove text_eq
memory = record {
  Db = Cells;
  put = λ b k v cells. ((bucket_number b, k, v) ∷ remove (bucket_number b) k cells, ok tt);
  get = λ b k cells. read (bucket_number b) k cells;
  missing = not_exist;
  get_all_key = λ b cells. ok (keys (bucket_number b) cells);
  delete = λ b k cells. (remove (bucket_number b) k cells, ok tt);
  exist = λ b k cells. is_ok (read (bucket_number b) k cells);
  is_s3 = false;
  get_stream = λ b k cells. err not_implement;
  get_stream-get = λ b k cells h. cc;
  get-put = λ b k v cells b' k' _. read-put (bucket_number b) k v cells (bucket_number b') k';
  get-put_err = λ b k v cells b' k' h. cc;
  get-delete = λ b k cells b' k' _. read-remove (bucket_number b) k cells (bucket_number b') k';
  get-delete_err = λ b k cells b' k' h. cc;
  exist_lem = λ b k cells. refl;
}
