-- ===== src/Lib.antt =====
-- Verification of arseeding, a light node of Arweave that stores transactions and their data, hands
-- them on to peers and bundles data items.
--
-- The parts and their files. Paths of Go files are from the root of the repository.
--   Prelude, Effect: shared names; Go's `error`; methods that change a state and may fail. What was
--     written before an error stays written.
--   Rawdb: the interface `KeyValueDB` of rawdb/database.go with the buckets of schema/store.go. Its laws
--     say that a write that succeeds is read back and touches nothing else, and that one that fails
--     changes nothing. `missing` is the error of a key that is not there, which the drivers choose. A read
--     of one state has one answer: one that fails now and works later is not modelled. Rawdb/Memory is a
--     value of the interface, for the tests.
--   Goar: the types of goar that the code handles, and the functions of goar, encoding/json and
--     crypto/sha256 that it calls, as an interface; schema/task.go.
--   Store: store.go, the end offsets, chunks, transaction headers and tasks. `itob` and `btoi` write
--     and read the 64-bit offsets; additions and subtractions wrap at 2 ^ 64.
--   Submit: submit.go from `SaveSubmitTx` and `SaveSubmitChunk` down, and the read loop `getArTxData` of
--     api.go. Alloc and Disjoint are about the allocation of offsets, RoundTrip, ReadBack, Kept and
--     EndToEnd about what is read of what was stored, Ending and Hang about the end of the read loop.
--   Tasks: taskmanager.go, task.go, the handlers of tasks in api.go, and `watcherAndCloseTasks` of
--     jobs.go. Lifecycle, Restart, Counts and Watcher have the theorems.
--   Bundle: the bundle items of store.go and bundle.go, `getOnChainBundle` and `parseAndSaveBundleTx` of
--     jobs.go, with the manifest table of wdb.go behind an interface.
--   Peers: `updatePeerMap` of jobs.go, the counts of the peers.
--   Fees: `calculatePrice` of api.go, `CalcItemFee` of bundle.go and `GetPerFee` of arseeding.go, with
--     shopspring/decimal behind an interface.
--   Orders: schema/db.go and wdb.go (Types, Wdb, Rows), with the SQL database behind an interface: an
--     update that fails changes nothing, and a transaction works on a copy that a commit puts in place.
--     The jobs of jobs.go on them: Pay and Paid (`processPayItems`), Expiry and Expired
--     (`processExpiredOrd`), Chain, Processed, Chosen and Once (`onChainOrds`, `onChainBundleTx`,
--     `updateOnChainInfo`), Watch and Watched (`watchArTx`, `retryOnChainArTx`), Receipts and Refunded
--     (`mergeReceiptEverTxs`, `refundReceipt`), ApiKeys, Spending and Credited (`processPayApikey`, and
--     `processApikeySpendBal` of api.go). Submit is `ProcessSubmitItem` of bundle.go, with Submitted and
--     Payable about the order that it records. Lists, Descending, Selecting and Pages are the queries for lists of
--     orders, EverTxs and Received `watchEverReceiptTxs`, KeyFrame what a fee taken from a key touches.
--   Sync: `FetchAndStoreTx` of submit.go (Fetch), the tasks of task.go that call it (Handlers), and what
--     it leaves as it is (Local, Steps, Frame, Again, with Store/Frame and Submit/Frame below them).
--   Manifest: manifest.go, the paths of a manifest (Resolve, Slashes), the data of what they name
--     (Items, Saved), and `syncManifestData` with its queries (Sync, Batches).
--   Http: `ManifestMiddleware` of middleware.go (Paths, Middleware), and where it redirects to (Named,
--     Redirect). The name service and the cache of names are inputs.
--   Api: the handlers of api.go as functions from the request and the stores to the reply. Tx has those on
--     transactions and chunks, Submit and Native the uploads, Items and Data those on items and manifests,
--     Orders and Keys those on orders and API keys, Files and Range the answers from files (`dataResponse`,
--     `dataRangeResponse`). RoundTrip, Charged, Stored, Counts and Served have the theorems.
--   Tests: the theorems at concrete inputs.
--
-- How the parts interact: a submission allocates a range of offsets (Submit) and writes through Store
-- to the database (Rawdb). Tasks keeps a map in memory beside the pending pool in the store. Bundle reads
-- the data of a transaction with the read loop of Submit and saves the items in the store.
--
-- A function on a store is named like the Go method, in the spelling of this library: `SaveChunk` is
-- `save_chunk`. Names of the models in the order of the calls: `save_submit_chunk`,
-- `sync_add_tx_data_end_offset`, `atomic_sync_data_end_offset`, `set_tx_data_chunks`, `get_ar_tx_data`;
-- `register_task`, `process_task`, `set_processed_task`, `init_task_mg`; `save_item`,
-- `parse_and_save_bundle_items`, `get_on_chain_bundle`.
--
-- Locks: `submitLocker` and the lock of the task manager make each method one step. Where another
-- goroutine may close a task during a broadcast, this is an input of the loop. The channel of tasks has no
-- buffer; the model lists the ids in the order in which their sends begin.
--
-- Fuel: the read loop of `getArTxData` and the send loop of `dataRangeResponse` run on fuel, with `none`
-- where that is used up. One round for each byte of the data and one more is enough: for the first where
-- every chunk has data, for the second always, since a read without an error moves on. The batches of
-- `syncManifestData` have a round for each id, which is always enough.
--
-- Not modelled: the drivers of the databases, the statistics of orders, the handlers that write one value,
-- the proxy and the table of routes, logging, the peers and the gateway (inputs), the memory that a read
-- asks for ahead, the Kafka jobs, the caches, the prices of tokens and the SDK. Of the replies the status,
-- the kind and the value are there; the text of an error is that of the Go error where the handler passes
-- it on. The tags and the speed fee of a bundle sent are part of the network's answer.
pub mod Prelude
pub mod Effect
pub mod Rawdb
pub mod Goar
pub mod Store
pub mod Submit
pub mod Tasks
pub mod Bundle
pub mod Peers
pub mod Fees
pub mod Orders
pub mod Sync
pub mod Manifest
pub mod Http
pub mod Api
mod Tests
