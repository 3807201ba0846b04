-- ===== src/Tests/Lists.antt =====
-- The orders of a signer page by page, payments that are received, and ids that are asked for.
use mathlib.Core.List.{Memᴰ}
use mathlib.Core.List.Memᴰ
use arseeding.Prelude.{
  ◌≤◌, ◌↔◌, length, ap, sym, ◌∙◌, inl, inr, some, ℕ, zero, suc, arith, ◌≡◌, ◌≢◌, refl, false, Text,
  codes, List, [], ◌∷◌,
}
use arseeding.Prelude.Slices.{take}
use arseeding.Effect.{ok, err, not_exist}
use arseeding.Orders.Types.{Order, orders, receipts, select, un_spent, un_payment}
use arseeding.Orders.Wdb.{limit}
use arseeding.Orders.Plain.{plain_sql}
use arseeding.Orders.Lists.{QueryLimit, order_by, id_desc, of_signer}
use arseeding.Orders.Pages.{all_pages, all_pages-order_by}
use arseeding.Orders.EverTxs.{EverTx, EverPay, watch_ever_receipt_txs}
use arseeding.Orders.Received.{Grown, watch_ever_receipt_txs-Grown}
use arseeding.Manifest.Sync.{TxNode, Gateway, query_batches}
use arseeding.Manifest.Batches.{IsAsked, FoundFor, AnswersPages, query_batches-FoundFor}
use arseeding.Tests.Orders.{order, receipt, tables}
use arseeding.Tests.Submit.{signers}
use arseeding.Tests.Manifest.{one_manifest}

abbrev limits : QueryLimit
limits = record { limited = λ n rows. limit n rows; limited-suc = λ n rows. refl }

abbrev other_order : Order
other_order = record (order un_payment []) { id = 2 }

abbrev two_orders : plain_sql.Db
unfolding plain_sql
two_orders = tables (order un_payment [] ∷ other_order ∷ []) (receipt un_spent ∷ [])

two_ids : other_order.id ≢ (order un_payment []).id
two_ids h = absurd cc

all_pages-order_by_example :
    all_pages ⦃sql = plain_sql⦄ ⦃lim = limits⦄ (codes "signer") 0 3 0 two_orders
    ≡ ok (
        order_by id_desc (
          select
            (of_signer ⦃sql = plain_sql⦄ ⦃lim = limits⦄ (codes "signer"))
            (orders ⦃sql = plain_sql⦄ two_orders)))
unfolding plain_sql two_orders
all_pages-order_by_example =
    all_pages-order_by ⦃sql = plain_sql⦄ ⦃lim = limits⦄ (codes "signer") 0 two_orders
      ((two_ids, tt), (tt, tt)) ((omega arith, omega arith), ((omega arith, omega arith), tt))
      (λ p. refl) 3 (omega arith)

-- a payment with the hash of the receipt, delivered again, and a new one
abbrev payment : Text → EverTx
payment hash = record {
  raw_id = 8;
  to = codes "bundler";
  from = codes "sender";
  json = [];
  ever_hash = hash;
  nonce = 1000;
  chain_type = [];
  token_symbol = codes "AR";
  token_id = [];
  amount = codes "1";
  sig = [];
}

abbrev two_payments : EverPay
two_payments = record {
  payment_meta = λ t. ok t;
  tag = λ a b c. b;
  subscribe_txs = λ cursor addr. payment (codes "hash") ∷ payment (codes "new") ∷ [];
}

watch_ever_receipt_txs-Grown_example : Grown (receipts ⦃sql = plain_sql⦄ two_orders) (
    receipts ⦃sql = plain_sql⦄
      (watch_ever_receipt_txs ⦃sql = plain_sql⦄ ⦃pay = two_payments⦄ ⦃k = signers⦄
        (codes "bundler")
        two_orders).0)
unfolding plain_sql two_orders
watch_ever_receipt_txs-Grown_example =
    watch_ever_receipt_txs-Grown ⦃sql = plain_sql⦄ ⦃pay = two_payments⦄ ⦃k = signers⦄
      (codes "bundler") two_orders (tt, tt)

-- Every transaction is known, in one bundle.
abbrev node_of : Text → TxNode
node_of id = record { id = id; bundled_in = codes "bundle" }

abbrev nodes : List Text → List TxNode
nodes [] = []
nodes (id ∷ ids) = node_of id ∷ nodes ids

-- A page ends behind the transactions that it has room for.
abbrev one_bundle : Gateway
one_bundle = record {
  get_raw_by_id = λ id. err not_exist;
  batch_get_items_bundle_in = λ batch first after. ok (nodes (take first batch));
  check_nest_bundle = λ id. ok false;
  get_bundle_items = λ id ids. err not_exist;
}

take_all : (n : ℕ) (ids : List Text) → length ids ≤ n → take n ids ≡ ids
unfolding take
take_all zero [] h = refl
take_all zero (i ∷ ids) h = absurd (omega arith)
take_all (suc n) [] h = refl
take_all (suc n) (i ∷ ids) h = ap (λ l. i ∷ l) (take_all n ids (omega arith))

nodes-IsAsked :
    (batch : List Text) (tx : TxNode)
    → Memᴰ tx (nodes batch) ↔ IsAsked (λ id. some (node_of id)) batch tx
nodes-IsAsked [] tx = (λ m. absurd (Memᴰ.not-nil m), λ q. absurd (Memᴰ.not-nil q.1))
nodes-IsAsked (id ∷ batch) tx = (
  λ m. elim (Memᴰ.cases_cons m) [
    | inl this ↦ (id, Memᴰ.head refl, ap (λ n. some n) (sym this))
    | inr later ↦
        let (i, asked, is_tx) = (nodes-IsAsked batch tx).0 later in (i, Memᴰ.tail asked, is_tx)
  ],
  λ q. elim (Memᴰ.cases_cons q.1) [
    | inl this ↦ let is_tx : node_of q.0 ≡ tx = cc q.2 in Memᴰ.head (sym is_tx ∙ ap node_of this)
    | inr later ↦ Memᴰ.tail ((nodes-IsAsked batch tx).1 (q.0, later, q.2))
  ],
)

one_bundle-AnswersPages : AnswersPages (λ id. some (node_of id)) ⦃gw = one_bundle⦄
one_bundle-AnswersPages batch first fits small =
    (nodes batch, ap (λ l. ok (nodes l)) (take_all first batch fits), nodes-IsAsked batch)

-- one id more than a batch has
abbrev ids : ℕ → List Text
ids zero = []
ids (suc n) = codes "id" ∷ ids n

query_batches-FoundFor_example :
    FoundFor
      (λ id. some (node_of id))
      (ids 91)
      (query_batches ⦃j = one_manifest⦄ ⦃gw = one_bundle⦄ 91 (ids 91))
query_batches-FoundFor_example =
    query_batches-FoundFor ⦃j = one_manifest⦄ ⦃gw = one_bundle⦄ (λ id. some (node_of id))
      one_bundle-AnswersPages 91 (ids 91) (omega arith)
