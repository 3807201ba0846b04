-- ===== src/Tests/Submit/Uploaded.antt =====
-- An item that is uploaded without a key, and read again.
use arseeding.Prelude.{true, codes, text_eq, ◌≡◌, refl, false, some, [], ◌∷◌}
use arseeding.Prelude.Maps.{lookup}
use arseeding.Effect.{ok}
use arseeding.Rawdb.Memory.{memory}
use arseeding.Fees.Price.{calc_item_fee, get_per_fee, fee_chunks}
use arseeding.Fees.Plain.{naturals}
use arseeding.Bundle.Items.{
  save_item, atomic_save_item, save_item_binary, save_item_meta, is_exist_item_binary, binary_of,
}
use arseeding.Bundle.Plain.{plain_utils, manifest_rows}
use arseeding.Orders.Wdb.{insert_order}
use arseeding.Orders.Plain.{plain_sql, unary}
use arseeding.Orders.Expiry.{Site}
use arseeding.Orders.Submit.{new_order, order_of, process_submit_item}
use arseeding.Tests.Manifest.{no_bundler, page_item}
use arseeding.Goar.Plain.{plain}
use arseeding.Api.Replies.{json, RespOrder, resp_order_of}
use arseeding.Api.Files.{TmpFiles, exist_tmp_file, gen_tmp_file_name}
use arseeding.Api.Submit.{
  ItemRequest, Settings, submit_item, item_of, uploaded, set_item_data, decode_item, charge,
  charge_and_submit, is_sort_items,
}
use arseeding.Api.Items.{FileCalls, DataRequest, is_data_field, get_item_field}
use arseeding.Api.Data.{data_route}
use arseeding.Api.Charged.{Answered, submit_item-Answered}
use arseeding.Api.Stored.{content_reply, submit_item-get_item_field}
use arseeding.Tests.Files.{all_at_once}
use arseeding.Tests.Submit.{signers, reading, prices, no_records, empty_site}

abbrev upload : ItemRequest
upload = record {
  header_type = codes "application/octet-stream";
  api_key = [];
  sort_upper = [];
  sort_lower = [];
  currency = codes "AR";
  body = some (record { bytes = codes "ab"; copy_n = ok tt; copy = ok tt; seek = ok tt });
  create_temp = ok tt;
}

abbrev settings : Settings
settings = record { no_fee = false; bundler = codes "bundler"; reading = reading }

submit_item-Answered_example :
    Answered ⦃dec = naturals⦄ ⦃big = unary⦄ ⦃k = signers⦄ ⦃sql = plain_sql⦄ ⦃kv = memory⦄
      ⦃m = manifest_rows⦄ ⦃u = plain_utils⦄ ⦃b = no_bundler⦄ prices settings upload empty_site
      (submit_item ⦃dec = naturals⦄ ⦃big = unary⦄ ⦃k = signers⦄ ⦃sql = plain_sql⦄ ⦃kv = memory⦄
        ⦃m = manifest_rows⦄ ⦃u = plain_utils⦄ ⦃b = no_bundler⦄ prices settings upload empty_site)
submit_item-Answered_example =
    submit_item-Answered ⦃dec = naturals⦄ ⦃big = unary⦄ ⦃k = signers⦄ ⦃sql = plain_sql⦄
      ⦃kv = memory⦄ ⦃m = manifest_rows⦄ ⦃u = plain_utils⦄ ⦃b = no_bundler⦄ prices settings upload
      empty_site

uploaded_item :
    item_of ⦃dec = naturals⦄ ⦃big = unary⦄ ⦃k = signers⦄ ⦃sql = plain_sql⦄ ⦃kv = memory⦄
      ⦃m = manifest_rows⦄ ⦃u = plain_utils⦄ ⦃b = no_bundler⦄ prices settings upload
    ≡ ok (page_item, 2)
unfolding item_of uploaded set_item_data decode_item plain_utils text_eq
uploaded_item = refl

absent : is_exist_item_binary ⦃kv = memory⦄ (codes "ab") empty_site.node.db ≡ false
unfolding is_exist_item_binary memory empty_site no_records
absent = refl

abbrev file_calls : FileCalls
file_calls = record {
  new_name = codes "new";
  open_tmp = ok tt;
  stat = ok tt;
  moves = record { rename = ok tt; reopen = ok tt };
}

abbrev data_request : DataRequest
data_request = record {
  client_ip = codes "ip";
  range_header = [];
  tls = false;
  host = codes "host";
}

abbrev no_files : TmpFiles
no_files = record { tmp_file_map = []; files = [] }

abbrev uploaded_site : Site ⦃sql = plain_sql⦄ ⦃kv = memory⦄ ⦃m = manifest_rows⦄
uploaded_site =
    (submit_item ⦃dec = naturals⦄ ⦃big = unary⦄ ⦃k = signers⦄ ⦃sql = plain_sql⦄ ⦃kv = memory⦄
      ⦃m = manifest_rows⦄ ⦃u = plain_utils⦄ ⦃b = no_bundler⦄ prices settings upload empty_site).0

abbrev receipt_of_upload : RespOrder
receipt_of_upload = record {
  item_id = codes "ab";
  size = 2;
  bundler = codes "bundler";
  currency = codes "AR";
  decimals = 12;
  fee = 5 ∷ [];
  payment_expired_time = 160;
  expected_block = 50;
}

answered :
    (submit_item ⦃dec = naturals⦄ ⦃big = unary⦄ ⦃k = signers⦄ ⦃sql = plain_sql⦄ ⦃kv = memory⦄
      ⦃m = manifest_rows⦄ ⦃u = plain_utils⦄ ⦃b = no_bundler⦄ prices settings upload empty_site).1
    ≡ json receipt_of_upload
unfolding empty_site no_records memory plain_sql unary naturals plain_utils manifest_rows prices
    process_submit_item save_item atomic_save_item save_item_binary save_item_meta
    is_exist_item_binary binary_of order_of new_order calc_item_fee get_per_fee lookup fee_chunks
    insert_order text_eq submit_item item_of uploaded set_item_data decode_item charge
    charge_and_submit is_sort_items resp_order_of
answered = refl

local : memory.is_s3 ≡ false
unfolding memory
local = refl

decodes : plain_utils.decode_bundle_item (codes "ab") ≡ ok page_item
unfolding plain_utils
decodes = refl

reads : plain.base64_decode (codes "ab") ≡ ok (codes "ab")
unfolding plain
reads = refl

is_data : is_data_field (codes "data") ≡ true
unfolding is_data_field text_eq
is_data = refl

no_file : exist_tmp_file (gen_tmp_file_name (codes "ip") (codes "ab")) no_files ≡ false
unfolding exist_tmp_file lookup
no_file = refl

submit_item-get_item_field_example :
    (get_item_field ⦃kv = memory⦄ ⦃g = plain⦄ ⦃u = plain_utils⦄ ⦃b = no_bundler⦄ ⦃f = all_at_once⦄ 0
        file_calls data_request
        (codes "ab")
        (codes "data")
        uploaded_site.node.db
        no_files
      ≡ some (no_files, content_reply page_item (codes "ab")))
    × (data_route ⦃kv = memory⦄ ⦃g = plain⦄ ⦃u = plain_utils⦄ ⦃b = no_bundler⦄ ⦃f = all_at_once⦄ 0
          file_calls data_request ⦃m = manifest_rows⦄ false
          (codes "ab")
          uploaded_site.node.db
          uploaded_site.node.manifests
          no_files
        ≡ some (uploaded_site.node.manifests, no_files, content_reply page_item (codes "ab")))
submit_item-get_item_field_example =
    submit_item-get_item_field ⦃dec = naturals⦄ ⦃big = unary⦄ ⦃k = signers⦄ ⦃sql = plain_sql⦄
      ⦃kv = memory⦄ ⦃g = plain⦄ ⦃m = manifest_rows⦄ ⦃u = plain_utils⦄ ⦃b = no_bundler⦄
      ⦃f = all_at_once⦄ prices settings upload page_item 2 (codes "ab") receipt_of_upload empty_site
      local uploaded_item refl decodes reads absent answered 0 file_calls data_request false
      uploaded_site.node.manifests no_files (codes "data") is_data no_file refl
