-- ===== src/Orders/KeyFrame.antt =====
-- api.go: `processApikeySpendBal` takes a fee from an API key, and touches no order.
use arseeding.Prelude.{ℕ, Text, ◌≡◌, ◌≢◌, refl, ◌∙◌, inl, inr}
use arseeding.Prelude.Int.{ℤ}
use arseeding.Prelude.Maps.{Dict}
use arseeding.Effect.{Result, ok, err, Eff, pure, lift, ◌>>◌, >>=-cases}
use arseeding.Fees.Types.{Decimals, Fee}
use arseeding.Rawdb.Interface.{KeyValueDb}
use arseeding.Bundle.Types.{BundleItem, BundleUtils, ManifestTable}
use arseeding.Bundle.Items.{save_item}
use arseeding.Bundle.Parse.{at_db}
use arseeding.Orders.Types.{
  Order, AutoApiKey, order_table, api_key_table, receipt_table, orders, receipts, SqlDb, BigInts,
}
use arseeding.Orders.Chain.{Bundler}
use arseeding.Orders.Expiry.{Site, at_node}
use arseeding.Orders.Submit.{
  Signers, Submission, Reading, rewind, order_of, at_wdb, record_order, process_submit_item,
}
use arseeding.Orders.Wdb.{insert_order, get_api_key_detail, update_apikey_token_bal}
use arseeding.Orders.ApiKeys.{process_apikey_spend_bal, spend_from, update_spent, spent_balance}
use arseeding.Orders.Spending.{api_keys, Spent, SpendEnds}

order_not_key : order_table ≢ api_key_table
order_not_key h = absurd cc

-- No order is touched by a fee that is taken.
module _ ⦃dec : Decimals⦄ ⦃big : BigInts⦄ ⦃sql : SqlDb⦄ where
  update_spent-orders :
      (ak : AutoApiKey) (r : Result (Dict Text)) (db : sql.Db)
      → orders (update_spent ak r db).0 ≡ orders db
  unfolding update_apikey_token_bal
  update_spent-orders ak (ok balance) db =
      sql.update_other api_key_table _ _ db order_table order_not_key
  update_spent-orders ak (err e) db = refl

  spend_from-orders :
      (per_fees : Dict Fee) (currency : Text) (size : ℤ) (r : Result AutoApiKey) (db : sql.Db)
      → orders (spend_from per_fees currency size r db).0 ≡ orders db
  spend_from-orders per_fees currency size (ok ak) db =
      update_spent-orders ak (spent_balance per_fees currency size ak) db
  spend_from-orders per_fees currency size (err e) db = refl

  pub process_apikey_spend_bal-orders :
      (per_fees : Dict Fee) (currency apikey : Text) (size : ℤ) (db : sql.Db)
      → orders (process_apikey_spend_bal per_fees currency apikey size db).0 ≡ orders db
  unfolding process_apikey_spend_bal
  process_apikey_spend_bal-orders per_fees currency apikey size db =
      spend_from-orders per_fees currency size (get_api_key_detail apikey db) db

  pub SpendEnds-ok :
      (per_fees : Dict Fee) (currency apikey : Text) (size : ℤ) (db : sql.Db)
      (out : sql.Db × Result (Unit {0}))
      → SpendEnds per_fees currency apikey size db out
      → out.1 ≡ ok tt
      → Spent per_fees currency apikey size db out.0
  SpendEnds-ok per_fees currency apikey size db (w, ok u) ends h = ends
  SpendEnds-ok per_fees currency apikey size db (w, err e) ends h = absurd cc

module _ ⦃sql : SqlDb⦄ where
  -- The keys and the receipts of two states are the same.
  abbrev pub SameKeys : sql.Db → sql.Db → Type 0
  SameKeys db db' = (api_keys db' ≡ api_keys db) × (receipts db' ≡ receipts db)

  pub Spent-SameKeys :
      ⦃dec : Decimals⦄ ⦃big : BigInts⦄ (per_fees : Dict Fee) (currency apikey : Text) (size : ℤ)
      (db db' db'' : sql.Db)
      → Spent per_fees currency apikey size db db'
      → SameKeys db' db''
      → Spent per_fees currency apikey size db db''
  Spent-SameKeys per_fees currency apikey size db db' db''
        (ak, balance, fee, left, found, had, cost, enough, rest, keys, kept) (same, same_receipts) =
      (ak, balance, fee, left, found, had, cost, enough, rest, same ∙ keys, same_receipts ∙ kept)

  insert_order-SameKeys : (order : Order) (db : sql.Db) → SameKeys db (insert_order order db).0
  unfolding insert_order
  insert_order-SameKeys order db =
      let row = λ (id : ℕ). record order { id = id } in
      (
        sql.create_other order_table row db api_key_table (λ h. absurd cc),
        sql.create_other order_table row db receipt_table (λ h. absurd cc),
      )

module _ ⦃dec : Decimals⦄ ⦃big : BigInts⦄ ⦃k : Signers⦄ ⦃sql : SqlDb⦄ ⦃kv : KeyValueDb⦄
    ⦃m : ManifestTable⦄ ⦃u : BundleUtils⦄ ⦃b : Bundler⦄ where
  record_order-SameKeys : (s : Site) (r : Result Order) → SameKeys s.wdb (record_order r s).0.wdb
  record_order-SameKeys s (err e) = (refl, refl)
  record_order-SameKeys s (ok order) =
      elim (>>=-cases (at_wdb (insert_order order)) (λ v. pure order) s) [
        | inl (v, done, out) ↦ rw out (insert_order-SameKeys order s.wdb)
        | inr (e, failed, out) ↦ rw out (insert_order-SameKeys order s.wdb)
      ]

  save_then-SameKeys :
      (item : BundleItem) (made : Result Order) (s : Site)
      → SameKeys s.wdb ((at_node (at_db (save_item item)) >> record_order made) s).0.wdb
  save_then-SameKeys item made s =
      elim (>>=-cases (at_node (at_db (save_item item))) (λ v. record_order made) s) [
        | inl (v, done, out) ↦
            rw out (record_order-SameKeys (at_node (at_db (save_item item)) s).0 made)
        | inr (e, failed, out) ↦ rw out (refl, refl)
      ]

  when_ok-SameKeys :
      (r : Result (Unit {0})) (f : Eff Site Order) (s : Site)
      → SameKeys s.wdb (f s).0.wdb
      → SameKeys s.wdb ((lift r >> f) s).0.wdb
  when_ok-SameKeys (ok v) f s h = h
  when_ok-SameKeys (err e) f s h = (refl, refl)

  -- A submission changes no key and no receipt.
  pub process_submit_item-SameKeys :
      (per_fees : Dict Fee) (sub : Submission) (node : Reading) (item : BundleItem) (s : Site)
      → SameKeys s.wdb (process_submit_item per_fees sub node item s).0.wdb
  unfolding process_submit_item
  process_submit_item-SameKeys per_fees sub node item s =
      let saved =
        at_node (at_db (save_item item)) >> record_order (order_of per_fees sub node item) in
      when_ok-SameKeys (b.verify_bundle_item item) (lift (rewind item.data_reader) >> saved) s (
        when_ok-SameKeys (rewind item.data_reader) saved s
          (save_then-SameKeys item (order_of per_fees sub node item) s))
