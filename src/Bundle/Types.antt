-- ===== src/Bundle/Types.antt =====
-- goar's `types.BundleItem`, and the interface of the functions on it that the code calls.
use arseeding.Prelude.{
  ℕ, Text, text_eq, Bytes, ◌∷◌, if◌then◌else◌, ◌≡◌, ◌≢◌, Option, none, List, [],
}
use arseeding.Effect.{Result, ok, Eff}
use arseeding.Goar.Types.{Tag}

-- `types.BundleItem`, the fields that the code reads; `data_reader` is the content of the file.
pub record BundleItem : Type 0 where
  pub id : Text
  pub data_text : Text  -- in base64
  pub data_reader : Option Bytes
  pub item_binary : Bytes
  pub tags : List Tag
  pub anchor : Text
  pub owner : Text
  pub target : Text
  pub signature : Text
  pub signature_type : ℕ

abbrev pub map_tags : (Text → Text) → List Tag → List Tag
map_tags f [] = []
map_tags f (t ∷ ts) = record { name = f t.name; value = f t.value } ∷ map_tags f ts

-- The fields that JSON keeps, each text as JSON writes it.
abbrev pub in_json : (Text → Text) → BundleItem → BundleItem
in_json f item = record {
  id = f item.id;
  data_text = f item.data_text;
  data_reader = none;
  item_binary = [];
  tags = map_tags f item.tags;
  anchor = f item.anchor;
  owner = f item.owner;
  target = f item.target;
  signature = f item.signature;
  signature_type = item.signature_type;
}

pub record BundleUtils : Type 0 where
  -- `utils.GenerateItemBinaryStream`, `utils.DecodeBundleItem` and, on the bytes that `getArTxData`
  -- returns, `utils.DecodeBundle`
  pub generate_item_binary_stream : BundleItem → Result Bytes
  pub decode_bundle_item : Bytes → Result BundleItem
  pub decode_bundle : Bytes → Result (List BundleItem)
  -- the bytes that `utils.Base64Decode` returns, beside an error too
  pub base64_bytes : Text → Bytes
  -- the encoding without padding that `expectedTxSandbox` takes from encoding/base32
  pub base32_encode : Bytes → Text
  -- `json.Marshal` and `json.Unmarshal` of an item and of a list of ids
  pub marshal_item : BundleItem → Bytes
  -- encoding/json writes a replacement character for bytes that are not UTF-8
  pub to_valid_utf8 : Text → Text
  pub unmarshal_item : Bytes → Result BundleItem
  pub unmarshal-marshal_item :
      (item : BundleItem) → unmarshal_item (marshal_item item) ≡ ok (in_json to_valid_utf8 item)
  pub marshal_ids : List Text → Bytes
  pub unmarshal_ids : Bytes → Result (List Text)
  pub unmarshal-marshal_ids : (ids : List Text) → unmarshal_ids (marshal_ids ids) ≡ ok ids

-- The table of manifests in the SQL database, as gorm reads and writes it: the last row with a
-- manifest url, or `ErrRecordNotFound`, a new row, and the removal of all rows with a manifest id.
pub record ManifestTable : Type 1 where
  pub Table : Type 0
  pub last_id : Text → Table → Result Text
  pub create : Text → Text → Eff Table (Unit {0})
  pub delete : Text → Eff Table (Unit {0})
  pub last_id-create :
      (url id : Text) (t : Table) (url' : Text)
      → (create url id t).1 ≡ ok tt
      → last_id url' (create url id t).0 ≡ (if text_eq url url' then ok id else last_id url' t)
  pub last_id-delete :
      (id : Text) (t : Table) (url : Text)
      → (delete id t).1 ≡ ok tt
      → last_id url (delete id t).0 ≢ ok id
