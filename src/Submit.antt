-- ===== src/Submit.antt =====
-- submit.go: how a submitted transaction and its chunks reach the store. The read of the data
-- back (api.go) is in `Submit.Read`.
pub mod Chunks
pub mod Transactions
pub mod Kept
pub mod EndToEnd
pub mod Read
pub mod Alloc
pub mod Disjoint
pub mod RoundTrip
pub mod ReadBack
pub mod Ending
pub mod Hang
pub mod Frame
