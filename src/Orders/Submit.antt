-- ===== src/Orders/Submit.antt =====
-- bundle.go: an item that is submitted is saved, and an order for it is recorded (`ProcessSubmitItem`).
use arseeding.Prelude.{
  false, ℕ, ◌+◌, ◌%◌, ◌^◌, Text, Bytes, Bool, Option, none, some, [], if◌then◌else◌,
}
use arseeding.Prelude.Int.{pos}
use arseeding.Prelude.Maps.{Dict}
use arseeding.Effect.{Result, ok, err, bind_result, Eff, pure, lift, ◌>>◌}
use arseeding.Rawdb.Interface.{KeyValueDb}
use arseeding.Fees.Types.{Decimals, Fee, RespFee}
use arseeding.Fees.Price.{calc_item_fee}
use arseeding.Bundle.Types.{BundleItem, BundleUtils, ManifestTable}
use arseeding.Bundle.Items.{save_item}
use arseeding.Bundle.Parse.{at_db}
use arseeding.Orders.Types.{Order, SqlDb, BigInts, wait_on_chain, un_payment, succ_payment}
use arseeding.Orders.Wdb.{insert_order}
use arseeding.Orders.Chain.{Bundler}
use arseeding.Orders.Expiry.{Site, at_node}

-- `DataReader.Seek`, `utils.ItemSignerAddr` and `account.IDCheck`
pub record Signers : Type 0 where
  pub seek : Bytes → Result (Unit {0})
  pub item_signer_addr : BundleItem → Result Text
  pub id_check : Text → Result Text

-- the arguments beside the item; a size is an int64, and never negative
pub record Submission : Type 0 where
  pub currency : Text
  pub is_no_fee_mode : Bool
  pub api_key : Text
  pub is_sort : Bool
  pub size : ℕ

-- what the call reads of the node: the cached height and fees, two settings and the time
pub record Reading : Type 0 where
  pub height : ℕ
  pub expected_range : ℕ
  pub payment_expired_range : ℕ
  pub now : ℕ

abbrev pub rewind : ⦃k : Signers⦄ → Option Bytes → Result (Unit {0})
rewind none = ok tt
rewind ⦃k⦄ (some file) = k.seek file

abbrev pub at_wdb {ℓ} :
    ⦃sql : SqlDb⦄ ⦃kv : KeyValueDb⦄ ⦃m : ManifestTable⦄ {A : Type ℓ} → Eff sql.Db A → Eff Site A
at_wdb f s = let (w, r) = f s.wdb in (record s { wdb = w }, r)

-- the order, with the zero values of the fields that are not set; the sums are the bits of the int64
unfoldable pub new_order : Text → Submission → Reading → Text → BundleItem → RespFee → Order
new_order acc_id sub node currency item fee = record {
  id = 0;
  item_id = item.id;
  signer = acc_id;
  sign_type = item.signature_type;
  size = sub.size;
  currency = currency;
  decimals = fee.decimals;
  fee = fee.final_fee;
  payment_expired_time =
      if sub.is_no_fee_mode then 0 else (node.now + node.payment_expired_range) % 2 ^ 64;
  expected_block = (node.height + node.expected_range) % 2 ^ 64;
  payment_status = if sub.is_no_fee_mode then succ_payment else un_payment;
  payment_id = [];
  on_chain_status = wait_on_chain;
  api_key = sub.api_key;
  sort = sub.is_sort;
  kafka = false;
}

module _ ⦃dec : Decimals⦄ ⦃big : BigInts⦄ ⦃k : Signers⦄ where
  abbrev pub order_for_account : Dict Fee → Submission → Reading → BundleItem → Text → Result Order
  order_for_account per_fees sub node item acc_id =
      bind_result (calc_item_fee big.to_upper per_fees sub.currency (pos sub.size))
        λ fee. ok (new_order acc_id sub node (big.to_upper sub.currency) item fee)

  abbrev pub order_for_signer : Dict Fee → Submission → Reading → BundleItem → Text → Result Order
  order_for_signer per_fees sub node item signer_addr =
      bind_result (k.id_check signer_addr) (order_for_account per_fees sub node item)

  unfoldable pub order_of : Dict Fee → Submission → Reading → BundleItem → Result Order
  order_of per_fees sub node item =
      bind_result (k.item_signer_addr item) (order_for_signer per_fees sub node item)

  module _ ⦃sql : SqlDb⦄ ⦃kv : KeyValueDb⦄ ⦃m : ManifestTable⦄ ⦃u : BundleUtils⦄ ⦃b : Bundler⦄ where
    -- `InsertOrder` takes a copy, so the order that is returned has no id.
    abbrev pub record_order : Result Order → Eff Site Order
    record_order (ok order) = at_wdb (insert_order order) >> pure order
    record_order (err e) = lift (err e)

    unfoldable pub process_submit_item :
        Dict Fee → Submission → Reading → BundleItem → Eff Site Order
    process_submit_item per_fees sub node item =
        lift (b.verify_bundle_item item)
        >> (lift (rewind item.data_reader)
            >> (at_node (at_db (save_item item)) >> record_order (order_of per_fees sub node item)))
