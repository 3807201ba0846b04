-- ===== src/Bundle/Plain.antt =====
-- Values of the interfaces for the tests: an item is its bytes, a bundle has one item of one byte for
-- each of its bytes, and the table of manifests is an association list.
use arseeding.Prelude.{
  ℕ, zero, suc, arith, Text, Bytes, text_eq, text_eq_iff, ◌≡◌, ◌≢◌, refl, none, List, [], ◌∷◌,
  length, ap, if◌then◌else◌,
}
use arseeding.Effect.{Result, ok, err, record_not_found}
use arseeding.Goar.Plain.{
  write, scan, number, write_tags, scan_tags, scan-write, scan_tags-write_tags,
}
use arseeding.Goar.Types.{Tag}
use arseeding.Bundle.Types.{BundleItem, BundleUtils, map_tags, in_json, ManifestTable}

-- the fields that are stored and read only
write_fields : BundleItem → Bytes → Bytes
write_fields item rest =
    write item.anchor
      (write item.owner (write item.target (write item.signature (item.signature_type ∷ rest))))

write_item : BundleItem → Bytes
write_item item =
    write item.id
      (write item.data_text (write_fields item (length item.tags ∷ write_tags item.tags)))

scan_item : Bytes → Result BundleItem
scan_item b =
    let (id, b1) = scan b in
    let (data_text, b2) = scan b1 in
    let (anchor, b3) = scan b2 in
    let (owner, b4) = scan b3 in
    let (target, b5) = scan b4 in
    let (signature, b6) = scan b5 in
    let (signature_type, b7) = number b6 in
    let (n, b8) = number b7 in
    ok (record {
      id = id;
      data_text = data_text;
      data_reader = none;
      item_binary = [];
      tags = scan_tags n b8;
      anchor = anchor;
      owner = owner;
      target = target;
      signature = signature;
      signature_type = signature_type;
    })

map_tags_same : (ts : List Tag) → map_tags (λ t. t) ts ≡ ts
map_tags_same [] = refl
map_tags_same (t ∷ ts) = ap (λ l. t ∷ l) (map_tags_same ts)

scan_item-write_item :
    (item : BundleItem) → scan_item (write_item item) ≡ ok (in_json (λ t. t) item)
unfolding scan_item write_item write_fields number
scan_item-write_item item = simp (scan-write, scan_tags-write_tags, map_tags_same)

write_ids : List Text → Bytes
write_ids [] = []
write_ids (id ∷ ids) = write id (write_ids ids)

scan_from : ℕ → Bytes → List Text
scan_from zero b = []
scan_from (suc n) b = let (id, b1) = scan b in id ∷ scan_from n b1

scan_from-write_ids : (ids : List Text) → scan_from (length ids) (write_ids ids) ≡ ids
unfolding scan_from write_ids
scan_from-write_ids [] = refl
scan_from-write_ids (id ∷ ids) = simp (scan-write, scan_from-write_ids ids)

scan_ids : Bytes → Result (List Text)
scan_ids [] = ok []
scan_ids (n ∷ b) = ok (scan_from n b)

scan_ids-write_ids : (ids : List Text) → scan_ids (length ids ∷ write_ids ids) ≡ ok ids
unfolding scan_ids
scan_ids-write_ids ids = ap ok (scan_from-write_ids ids)

plain_item : Bytes → BundleItem
plain_item b = record {
  id = b;
  data_text = b;
  data_reader = none;
  item_binary = b;
  tags = [];
  anchor = [];
  owner = [];
  target = [];
  signature = [];
  signature_type = 1;
}

one_each : Bytes → List BundleItem
one_each [] = []
one_each (c ∷ b) = plain_item (c ∷ []) ∷ one_each b

unfoldable pub plain_utils : BundleUtils
unfolding plain_item one_each scan_item write_item write_fields scan_ids write_ids scan_from
    scan_item-write_item map_tags_same scan_ids-write_ids scan_from-write_ids
plain_utils = record {
  generate_item_binary_stream = λ item. ok item.item_binary;
  decode_bundle_item = λ b. ok (plain_item b);
  decode_bundle = λ b. ok (one_each b);
  base64_bytes = λ t. t;
  base32_encode = λ b. b;
  marshal_item = write_item;
  to_valid_utf8 = λ t. t;
  unmarshal_item = scan_item;
  unmarshal-marshal_item = scan_item-write_item;
  marshal_ids = λ ids. length ids ∷ write_ids ids;
  unmarshal_ids = scan_ids;
  unmarshal-marshal_ids = scan_ids-write_ids;
}

abbrev Rows : Type 0
Rows = List (Text × Text)

unfoldable pub row : Text → Rows → Result Text
row url [] = err record_not_found
row url ((u, id) ∷ rows) = let rest = row url rows in if text_eq u url then ok id else rest

unfoldable pub without : Text → Rows → Rows
without id [] = []
without id ((u, i) ∷ rows) =
    let rest = without id rows in if text_eq i id then rest else (u, i) ∷ rest

pub row-without : (id : Text) (rows : Rows) (url : Text) → row url (without id rows) ≢ ok id
unfolding row without
row-without id [] url h = absurd cc
row-without id ((u, i) ∷ rows) url h = ground (arith, row-without id rows url, text_eq_iff i id)

unfoldable pub manifest_rows : ManifestTable
unfolding row without
manifest_rows = record {
  Table = Rows;
  last_id = row;
  create = λ url id rows. ((url, id) ∷ rows, ok tt);
  delete = λ id rows. (without id rows, ok tt);
  last_id-create = λ url id rows url' h. refl;
  last_id-delete = λ id rows url h. row-without id rows url;
}
