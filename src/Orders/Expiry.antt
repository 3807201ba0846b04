-- ===== src/Orders/Expiry.antt =====
-- jobs.go: the orders whose payment time has passed, and the data of their items (`processExpiredOrd`).
use arseeding.Prelude.{ℕ, Text, not, List, [], ◌∷◌, if◌then◌else◌}
use arseeding.Effect.{Result, ok, err, Eff}
use arseeding.Rawdb.Interface.{KeyValueDb}
use arseeding.Bundle.Types.{ManifestTable}
use arseeding.Bundle.Items.{del_item}
use arseeding.Bundle.Parse.{Node, at_db, at_manifests}
use arseeding.Orders.Types.{Order, SqlDb}
use arseeding.Orders.Wdb.{
  get_expired_orders, exist_paid_ord, is_latest_unpaid_ord, update_ord_to_expired_status,
}

module _ ⦃sql : SqlDb⦄ ⦃kv : KeyValueDb⦄ ⦃m : ManifestTable⦄ where
  -- the tables of the SQL database, with that of the manifests, and the store
  pub record Site : Type 0 where
    pub wdb : sql.Db
    pub node : Node

  abbrev pub at_node {ℓ} : {A : Type ℓ} → Eff Node A → Eff Site A
  at_node f s = let (n, r) = f s.node in (record s { node = n }, r)

  unfoldable pub del_manifest : Text → Eff m.Table (Unit {0})
  del_manifest id = m.delete id

  -- what follows `DelItem`; an error is logged
  unfoldable pub manifest_of_deleted : Text → Site × Result (Unit {0}) → Site
  manifest_of_deleted item_id (s, ok u) = (at_node (at_manifests (del_manifest item_id)) s).0
  manifest_of_deleted item_id (s, err e) = s

  unfoldable pub del_expired_item : Text → Site → Site
  del_expired_item item_id s = manifest_of_deleted item_id (at_node (at_db (del_item item_id)) s)

  -- an order that is marked as expired by now, or not
  unfoldable pub expired_item : Order → Site × Result (Unit {0}) → Site
  expired_item ord (s, err e) = s
  expired_item ord (s, ok u) =
      let deleted = del_expired_item ord.item_id s in
      if exist_paid_ord ord.item_id s.wdb
      then s
      else if not (is_latest_unpaid_ord ord.item_id ord.payment_expired_time s.wdb)
      then s
      else deleted

  unfoldable pub expire_order : Order → Site → Site
  expire_order ord s =
      let (wdb', r) = update_ord_to_expired_status ord.id s.wdb in
      expired_item ord (record s { wdb = wdb' }, r)

  unfoldable pub expire_orders : List Order → Site → Site
  expire_orders [] s = s
  expire_orders (ord ∷ ords) s = expire_orders ords (expire_order ord s)

  unfoldable pub expire_found : Result (List Order) → Site → Site
  expire_found (ok ords) s = expire_orders ords s
  expire_found (err e) s = s

  -- `now` is the time of the query, in seconds
  unfoldable pub process_expired_ord : ℕ → Site → Site
  process_expired_ord now s = expire_found (get_expired_orders now s.wdb) s
