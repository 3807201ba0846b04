-- ===== src/Sync/Frame.antt =====
-- submit.go: what `FetchAndStoreTx` leaves as it is.
use arseeding.Prelude.{
  ℕ, Text, Bytes, ◌≡◌, refl, sym, ◌∙◌, ap, Bool, true, false, Option, none, some,
}
use arseeding.Prelude.Maps.{map_option}
use arseeding.Effect.{Result, ok, err}
use arseeding.Rawdb.Interface.{KeyValueDb, Bucket}
use arseeding.Goar.Types.{Goar, Transaction}
use arseeding.Submit.Read.{get_ar_tx_data}
use arseeding.Bundle.Types.{BundleUtils, ManifestTable}
use arseeding.Orders.Types.{BigInts}
use arseeding.Sync.Fetch.{
  Answers, Syncer, sync_meta, has_data, unless_local, when_sized, when_synced, fetch_and_store_tx,
}
use arseeding.Sync.Steps.{Foreign, store_of, sync_meta-Untouched, sync_data-Untouched}

module _ ⦃kv : KeyValueDb⦄ ⦃g : Goar⦄ ⦃m : ManifestTable⦄ ⦃u : BundleUtils⦄ ⦃big : BigInts⦄
    (b : Bucket) (apart : Foreign b) where
  unless_local-Untouched :
      (enable : Bool) (net : Answers) (ar_id : Text) (tx : Transaction) (s : Syncer)
      (r : Result Bytes) (k : Text)
      → kv.get b k (store_of (unless_local enable net ar_id tx s r).0) ≡ kv.get b k (store_of s)
  unless_local-Untouched enable net ar_id tx s (ok bytes) k = refl
  unless_local-Untouched enable net ar_id tx s (err e) k =
      sync_data-Untouched b apart enable net ar_id tx k s

  -- What holds of the state that a run ends with, where it does.
  abbrev Leaves : Text → Syncer → Option (Syncer × Result (Unit {0})) → Type 0
  Leaves k s none = Unit {0}
  Leaves k s (some (s', r)) = kv.get b k (store_of s') ≡ kv.get b k (store_of s)

  read-Leaves :
      (enable : Bool) (net : Answers) (ar_id : Text) (tx : Transaction) (s : Syncer) (k : Text)
      (read : Option (Result Bytes))
      → Leaves k s (map_option (unless_local enable net ar_id tx s) read)
  read-Leaves enable net ar_id tx s k none = tt
  read-Leaves enable net ar_id tx s k (some r) = unless_local-Untouched enable net ar_id tx s r k

  when_sized-Leaves :
      (fuel : ℕ) (enable : Bool) (net : Answers) (ar_id : Text) (tx : Transaction) (s : Syncer)
      (k : Text) (r : Result Bool)
      → Leaves k s (when_sized fuel enable net ar_id tx s r)
  when_sized-Leaves fuel enable net ar_id tx s k (err e) = refl
  when_sized-Leaves fuel enable net ar_id tx s k (ok false) = refl
  when_sized-Leaves fuel enable net ar_id tx s k (ok true) =
      read-Leaves enable net ar_id tx s k (get_ar_tx_data fuel tx.data_root tx.data_size s.node.db)

  Leaves-from :
      (k : Text) (s s' : Syncer) (out : Option (Syncer × Result (Unit {0})))
      → kv.get b k (store_of s') ≡ kv.get b k (store_of s)
      → Leaves k s' out
      → Leaves k s out
  Leaves-from k s s' none same h = tt
  Leaves-from k s s' (some (d, r)) same h = h ∙ same

  when_synced-Leaves :
      (fuel : ℕ) (enable : Bool) (net : Answers) (ar_id : Text) (s : Syncer) (k : Text)
      (out : Syncer × Result Transaction)
      → kv.get b k (store_of out.0) ≡ kv.get b k (store_of s)
      → Leaves k s (when_synced fuel enable net ar_id out)
  when_synced-Leaves fuel enable net ar_id s k (s', err e) same = same
  when_synced-Leaves fuel enable net ar_id s k (s', ok tx) same =
      let sized = has_data (big.set_string tx.data_size) in
      Leaves-from k s s' (when_sized fuel enable net ar_id tx s' sized) same
        (when_sized-Leaves fuel enable net ar_id tx s' k sized)

  ended-Leaves :
      (k : Text) (s : Syncer) (out : Option (Syncer × Result (Unit {0})))
      (end : Syncer × Result (Unit {0}))
      → out ≡ some end
      → Leaves k s out
      → kv.get b k (store_of end.0) ≡ kv.get b k (store_of s)
  ended-Leaves k s none end h leaves = absurd cc
  ended-Leaves k s (some (d, r)) end h leaves =
      let same : (d, r) ≡ end = cc h in ap (λ e. kv.get b k (store_of e.0)) (sym same) ∙ leaves

-- Whatever the network answers and however it ends, `fetch_and_store_tx` leaves every bucket as it is
-- but those of the headers, the offsets, the chunks and the bundles that wait to be parsed: it changes
-- neither bundle items nor the tasks that are stored.
pub fetch_and_store_tx-Foreign :
    ⦃kv : KeyValueDb⦄ ⦃g : Goar⦄ ⦃m : ManifestTable⦄ ⦃u : BundleUtils⦄ ⦃big : BigInts⦄ (b : Bucket)
    (k : Text) (fuel : ℕ) (enable_manifest : Bool) (net : Answers) (ar_id : Text) (s : Syncer)
    (end : Syncer × Result (Unit {0}))
    → Foreign b
    → fetch_and_store_tx fuel enable_manifest net ar_id s ≡ some end
    → kv.get b k end.0.node.db ≡ kv.get b k s.node.db
unfolding fetch_and_store_tx
fetch_and_store_tx-Foreign b k fuel enable_manifest net ar_id s end apart ended =
    ended-Leaves b apart k s (fetch_and_store_tx fuel enable_manifest net ar_id s) end ended (
      when_synced-Leaves b apart fuel enable_manifest net ar_id s k (sync_meta net ar_id s)
        (sync_meta-Untouched b apart net ar_id k s))
