-- ===== src/Api/Charged.antt =====
-- api.go: an order that an upload makes is unpaid, or its fee was taken from the API key (`submitItem`).
use arseeding.Prelude.{
  ℕ, Text, Bool, true, false, ◌||◌, ◌≡◌, ◌≢◌, refl, ap, sym, subst, ◌∙◌, ◌⊎◌, inl, inr, Bool-cases,
  [], ◌∷◌, ◌++◌, if◌then◌else◌,
}
use arseeding.Prelude.Int.{pos}
use arseeding.Prelude.Maps.{Dict}
use arseeding.Effect.{Result, ok, err, pure, >>=-cases}
use arseeding.Rawdb.Interface.{KeyValueDb}
use arseeding.Fees.Types.{Decimals, Fee}
use arseeding.Bundle.Types.{BundleItem, BundleUtils, ManifestTable}
use arseeding.Orders.Types.{Order, orders, SqlDb, BigInts, succ_payment, un_payment}
use arseeding.Orders.ApiKeys.{process_apikey_spend_bal}
use arseeding.Orders.Spending.{api_keys, Spent, process_apikey_spend_bal-SpendEnds}
use arseeding.Orders.Chain.{Bundler}
use arseeding.Orders.Expiry.{Site}
use arseeding.Orders.Submit.{Signers, at_wdb, process_submit_item}
use arseeding.Orders.Submitted.{Submitted, process_submit_item-Submitted}
use arseeding.Api.Replies.{Reply, json, RespOrder, resp_order_of}
use arseeding.Api.Submit.{
  ItemRequest, Settings, charge, submission, charge_and_submit, submit_decoded, reply_with, item_of,
  submit_item,
}
use arseeding.Orders.KeyFrame.{
  SameKeys, Spent-SameKeys, process_submit_item-SameKeys, process_apikey_spend_bal-orders,
  SpendEnds-ok,
}

module _ ⦃dec : Decimals⦄ ⦃big : BigInts⦄ ⦃k : Signers⦄ ⦃sql : SqlDb⦄ ⦃kv : KeyValueDb⦄
    ⦃m : ManifestTable⦄ ⦃u : BundleUtils⦄ ⦃b : Bundler⦄ (per_fees : Dict Fee) (node : Settings)
    (req : ItemRequest) where
  -- Between two states, the fee of the upload was taken from the key of the request.
  abbrev pub KeyPays : ℕ → sql.Db → sql.Db → Type 0
  KeyPays size db db' = Spent per_fees req.currency req.api_key (pos size) db db'

  -- Without a key the order is unpaid, or paid where the node takes no fees, and no key changes; with one,
  -- the key pays and the order is paid.
  abbrev pub IsPaidFor : ℕ → sql.Db → sql.Db → Order → Type 0
  IsPaidFor size db db' ord =
      ((req.api_key ≡ [])
        × (api_keys db' ≡ api_keys db)
        × (((node.no_fee ≡ false) × (ord.payment_status ≡ un_payment))
            ⊎ ((node.no_fee ≡ true) × (ord.payment_status ≡ succ_payment))))
      ⊎ ((req.api_key ≢ []) × KeyPays size db db' × (ord.payment_status ≡ succ_payment))

  -- of an item and its size, beside an order and beside an error
  abbrev pub Accepted : BundleItem → ℕ → Site → Site × Result Order → Type 0
  Accepted item size s (s', ok ord) =
      (b.verify_bundle_item item ≡ ok tt)
      × IsPaidFor size s.wdb s'.wdb ord
      × ((id : ℕ) × (orders s'.wdb ≡ orders s.wdb ++ record ord { id = id } ∷ []))
  Accepted item size s (s', err e) = orders s'.wdb ≡ orders s.wdb

  -- how the fee is taken
  abbrev Taken : ℕ → sql.Db → sql.Db → Bool → Type 0
  Taken size db db' has_apikey =
      ((req.api_key ≡ []) × (has_apikey ≡ false) × (api_keys db' ≡ api_keys db))
      ⊎ ((req.api_key ≢ []) × (has_apikey ≡ true) × KeyPays size db db')

  abbrev Charged : ℕ → Site → Site × Result Bool → Type 0
  Charged size s (t, ok has_apikey) =
      Taken size s.wdb t.wdb has_apikey × (orders t.wdb ≡ orders s.wdb)
  Charged size s (t, err e) = orders t.wdb ≡ orders s.wdb

  unpaid_or :
      (size : ℕ) (db charged after : sql.Db) (has_apikey : Bool) (ord : Order)
      → Taken size db charged has_apikey
      → SameKeys charged after
      → ord.payment_status ≡ (if node.no_fee || has_apikey then succ_payment else un_payment)
      → IsPaidFor size db after ord
  unpaid_or size db charged after has_apikey ord (inr (keyed, has, paid)) same status = inr (
    keyed,
    Spent-SameKeys per_fees req.currency req.api_key (pos size) db charged after paid same,
    elim (Bool-cases node.no_fee) [
      | inl free ↦ rw free at status
      | inr fees ↦ rw (fees, has) at status
    ],
  )
  unpaid_or size db charged after has_apikey ord (inl (no_key, not_has, kept)) same status = inl (
    no_key,
    same.0 ∙ kept,
    elim (Bool-cases node.no_fee) [
      | inl free ↦ inr (free, rw free at status)
      | inr fees ↦ inl (fees, rw (fees, not_has) at status)
    ],
  )

  Submitted-Accepted :
      (item : BundleItem) (size : ℕ) (s t : Site) (has_apikey : Bool)
      → Taken size s.wdb t.wdb has_apikey
      → orders t.wdb ≡ orders s.wdb
      → (out : Site × Result Order) → SameKeys t.wdb out.0.wdb
      → Submitted per_fees (submission per_fees node req size has_apikey) node.reading item t out
      → Accepted item size s out
  Submitted-Accepted item size s t has_apikey paid same (s', err e) keys done =
      ap orders done ∙ same
  Submitted-Accepted item size s t has_apikey paid same (s', ok ord) keys
        (verified, saved, (of_item, waits, status, fee), (id, added)) =
      (
        verified,
        unpaid_or size s.wdb t.wdb s'.wdb has_apikey ord paid keys status,
        (id, added ∙ ap (λ l. l ++ record ord { id = id } ∷ []) same),
      )

  Charged-orders :
      (size : ℕ) (s : Site) (out : Site × Result Bool)
      → Charged size s out
      → orders out.0.wdb ≡ orders s.wdb
  Charged-orders size s (t, ok has_apikey) (paid, same) = same
  Charged-orders size s (t, err e) same = same

  Charged-paid :
      (size : ℕ) (s : Site) (out : Site × Result Bool) (has_apikey : Bool)
      → Charged size s out
      → out.1 ≡ ok has_apikey
      → Taken size s.wdb out.0.wdb has_apikey
  Charged-paid size s (t, ok has) has_apikey (paid, same) h =
      let e : has ≡ has_apikey = cc in subst (Taken size s.wdb t.wdb) e paid
  Charged-paid size s (t, err e) has_apikey same h = absurd cc

  charge-Charged :
      (apikey : Text) (size : ℕ) (s : Site)
      → req.api_key ≡ apikey
      → Charged size s (charge per_fees node req.currency apikey size s)
  unfolding charge
  charge-Charged [] size s key = (inl (key, refl, refl), refl)
  charge-Charged (c ∷ apikey) size s key =
      let spend = process_apikey_spend_bal per_fees req.currency (c ∷ apikey) (pos size) in
      let same =
        process_apikey_spend_bal-orders per_fees req.currency (c ∷ apikey) (pos size) s.wdb in
      elim (>>=-cases (at_wdb spend) (λ v. pure true) s) [
        | inl (v, done, out) ↦
            let paid =
              SpendEnds-ok per_fees req.currency (c ∷ apikey) (pos size) s.wdb (spend s.wdb)
                (process_apikey_spend_bal-SpendEnds per_fees req.currency (c ∷ apikey) (pos size)
                  s.wdb)
                done in
            rw out (
              inr (
                (λ none. let e : c ∷ apikey ≡ [] = sym key ∙ none in absurd cc),
                refl,
                subst (λ t. Spent per_fees req.currency t (pos size) s.wdb (spend s.wdb).0)
                    (sym key) paid,
              ),
              same,
            )
        | inr (e, failed, out) ↦ rw out same
      ]

  charge_and_submit-Accepted :
      (item : BundleItem) (size : ℕ) (s : Site)
      → Accepted item size s (charge_and_submit per_fees node req item size s)
  unfolding charge_and_submit
  charge_and_submit-Accepted item size s =
      let charged = charge per_fees node req.currency req.api_key size in
      let submit = λ (has_apikey : Bool).
        process_submit_item per_fees (submission per_fees node req size has_apikey) node.reading
          item in
      let taken = charge-Charged req.api_key size s refl in
      let same = Charged-orders size s (charged s) taken in
      elim (>>=-cases charged submit s) [
        | inl (has_apikey, done, out) ↦ rw out (
            submitted_after item size s (charged s).0 has_apikey
              (Charged-paid size s (charged s) has_apikey taken done) same)
        | inr (e, failed, out) ↦ rw out same
      ]
    where
      submitted_after :
          (item : BundleItem) (size : ℕ) (s t : Site) (has_apikey : Bool)
          → Taken size s.wdb t.wdb has_apikey
          → orders t.wdb ≡ orders s.wdb
          → Accepted item size s (
              process_submit_item per_fees
                (submission per_fees node req size has_apikey)
                node.reading
                item
                t)
      submitted_after item size s t has_apikey paid same =
          let sub = submission per_fees node req size has_apikey in
          Submitted-Accepted item size s t has_apikey paid same
            (process_submit_item per_fees sub node.reading item t)
            (process_submit_item-SameKeys per_fees sub node.reading item t)
            (process_submit_item-Submitted per_fees sub node.reading item t)

  -- what the handler leaves behind, beside the order in its answer and beside an error
  abbrev pub Answered : Site → Site × Reply RespOrder → Type 0
  Answered s (s', json resp) =
      (item : BundleItem) × (size : ℕ) × (ord : Order) × (item_of per_fees node req
        ≡ ok (item, size))
      × (resp ≡ resp_order_of node.bundler ord)
      × Accepted item size s (s', ok ord)
  Answered s (s', _) = orders s'.wdb ≡ orders s.wdb

  reply-Answered :
      (item : BundleItem) (size : ℕ) (s : Site) (out : Site × Result Order)
      → item_of per_fees node req ≡ ok (item, size)
      → Accepted item size s out
      → Answered s (reply_with (resp_order_of node.bundler) out)
  reply-Answered item size s (s', ok ord) decoded done = (item, size, ord, decoded, refl, done)
  reply-Answered item size s (s', err e) decoded same = same

  decoded-Answered :
      (s : Site) (r : Result (BundleItem × ℕ))
      → item_of per_fees node req ≡ r
      → Answered s (reply_with (resp_order_of node.bundler) (submit_decoded per_fees node req r s))
  decoded-Answered s (ok (item, size)) decoded =
      reply-Answered item size s (charge_and_submit per_fees node req item size s) decoded
        (charge_and_submit-Accepted item size s)
  decoded-Answered s (err e) failed = refl

-- Where `submit_item` answers with an order, the upload decodes to an item that is verified, one order
-- is added to the table of orders, and it is the one of the answer. Without a key in the request the
-- order is unpaid, or paid where the node takes no fees, and no key's balance changes. With a key the
-- order is paid, and the rows of the key's address now hold its balance less the fee of the upload,
-- which was not more than the balance. Beside every error the orders are as they were.
pub submit_item-Answered :
    ⦃dec : Decimals⦄ ⦃big : BigInts⦄ ⦃k : Signers⦄ ⦃sql : SqlDb⦄ ⦃kv : KeyValueDb⦄
    ⦃m : ManifestTable⦄ ⦃u : BundleUtils⦄ ⦃b : Bundler⦄ (per_fees : Dict Fee) (node : Settings)
    (req : ItemRequest) (s : Site)
    → Answered per_fees node req s (submit_item per_fees node req s)
unfolding submit_item
submit_item-Answered per_fees node req s =
    decoded-Answered per_fees node req s (item_of per_fees node req) refl
