-- ===== src/Tests/Submit.antt =====
-- An item that is submitted to a node with no orders.
mod Uploaded
use arseeding.Prelude.{ℕ, codes, text_eq, ◌≡◌, refl, false, some, [], ◌∷◌}
use arseeding.Prelude.Maps.{Dict, lookup}
use arseeding.Effect.{Result, ok}
use arseeding.Rawdb.Memory.{memory}
use arseeding.Fees.Types.{Fee}
use arseeding.Fees.Price.{calc_item_fee, get_per_fee, fee_chunks}
use arseeding.Fees.Plain.{naturals}
use arseeding.Bundle.Items.{
  save_item, atomic_save_item, save_item_binary, save_item_meta, is_exist_item_binary, binary_of,
}
use arseeding.Bundle.Plain.{plain_utils, manifest_rows}
use arseeding.Orders.Types.{Order, select, un_payment, wait_on_chain}
use arseeding.Orders.Wdb.{get_un_paid_order, insert_order, last_row}
use arseeding.Orders.Plain.{plain_sql, unary}
use arseeding.Orders.Expiry.{Site}
use arseeding.Orders.Submit.{Signers, Submission, Reading, new_order, order_of, process_submit_item}
use arseeding.Orders.Submitted.{Submitted, process_submit_item-Submitted}
use arseeding.Orders.Payable.{get_un_paid_order-process_submit_item}
use arseeding.Tests.Orders.{tables}
use arseeding.Tests.Manifest.{no_bundler, page_item}

abbrev pub signers : Signers
signers = record {
  seek = λ file. ok tt;
  item_signer_addr = λ item. ok (codes "signer");
  id_check = λ addr. ok addr;
}

abbrev pub paying : Submission
paying = record {
  currency = codes "AR";
  is_no_fee_mode = false;
  api_key = [];
  is_sort = false;
  size = 5;
}

abbrev pub reading : Reading
reading = record { height = 40; expected_range = 10; payment_expired_range = 60; now = 100 }

abbrev pub no_records : memory.Db
unfolding memory
no_records = []

abbrev pub prices : Dict (Fee ⦃dec = naturals⦄)
unfolding naturals
prices =
    (codes "AR", record { currency = codes "AR"; decimals = 12; base = some 3; per_chunk = some 2 })
    ∷ []

abbrev pub empty_site : Site ⦃sql = plain_sql⦄ ⦃kv = memory⦄ ⦃m = manifest_rows⦄
unfolding plain_sql manifest_rows
empty_site = record { wdb = tables [] []; node = record { db = no_records; manifests = [] } }

abbrev submitted : Site ⦃sql = plain_sql⦄ ⦃kv = memory⦄ ⦃m = manifest_rows⦄ × Result Order
submitted =
    process_submit_item ⦃dec = naturals⦄ ⦃big = unary⦄ ⦃k = signers⦄ ⦃sql = plain_sql⦄ ⦃kv = memory⦄
      ⦃m = manifest_rows⦄ ⦃u = plain_utils⦄ ⦃b = no_bundler⦄ prices paying reading page_item
      empty_site

-- The base fee is 3, and the fee of a chunk 2.
abbrev page_order : Order
page_order = record {
  id = 0;
  item_id = codes "ab";
  signer = codes "signer";
  sign_type = 1;
  size = 5;
  currency = codes "AR";
  decimals = 12;
  fee = 5 ∷ [];
  payment_expired_time = 160;
  expected_block = 50;
  payment_status = un_payment;
  payment_id = [];
  on_chain_status = wait_on_chain;
  api_key = [];
  sort = false;
  kafka = false;
}

accepted : submitted.1 ≡ ok page_order
unfolding empty_site no_records memory plain_sql unary naturals plain_utils manifest_rows prices
    process_submit_item save_item atomic_save_item save_item_binary save_item_meta
    is_exist_item_binary binary_of order_of new_order calc_item_fee get_per_fee lookup fee_chunks
    insert_order text_eq
accepted = refl

queried : get_un_paid_order ⦃sql = plain_sql⦄ (codes "ab") submitted.0.wdb ≡ ok page_order
unfolding empty_site no_records memory plain_sql unary naturals plain_utils manifest_rows prices
    process_submit_item save_item atomic_save_item save_item_binary save_item_meta
    is_exist_item_binary binary_of order_of new_order calc_item_fee get_per_fee lookup fee_chunks
    insert_order text_eq get_un_paid_order last_row select
queried = refl

process_submit_item-Submitted_example :
    Submitted ⦃dec = naturals⦄ ⦃big = unary⦄ ⦃k = signers⦄ ⦃sql = plain_sql⦄ ⦃kv = memory⦄
      ⦃m = manifest_rows⦄ ⦃u = plain_utils⦄ ⦃b = no_bundler⦄ prices paying reading page_item
      empty_site submitted
process_submit_item-Submitted_example =
    process_submit_item-Submitted ⦃dec = naturals⦄ ⦃big = unary⦄ ⦃k = signers⦄ ⦃sql = plain_sql⦄
      ⦃kv = memory⦄ ⦃m = manifest_rows⦄ ⦃u = plain_utils⦄ ⦃b = no_bundler⦄ prices paying reading
      page_item empty_site

get_un_paid_order-process_submit_item_example :
    (id : ℕ) × (page_order ≡ record page_order { id = id })
get_un_paid_order-process_submit_item_example =
    get_un_paid_order-process_submit_item ⦃dec = naturals⦄ ⦃big = unary⦄ ⦃k = signers⦄
      ⦃sql = plain_sql⦄ ⦃kv = memory⦄ ⦃m = manifest_rows⦄ ⦃u = plain_utils⦄ ⦃b = no_bundler⦄ prices
      paying reading page_item empty_site page_order page_order refl accepted queried
