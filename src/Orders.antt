-- ===== src/Orders.antt =====
-- The orders for bundle items and their payment: schema/db.go, wdb.go and jobs.go.
pub mod Types
pub mod Wdb
pub mod Rows
pub mod Expiry
pub mod Expired
pub mod Chain
pub mod Processed
pub mod Chosen
pub mod Once
pub mod Watch
pub mod Watched
pub mod ApiKeys
pub mod Receipts
pub mod Refunded
pub mod Spending
pub mod KeyFrame
pub mod Credited
pub mod Pay
pub mod Paid
pub mod Submit
pub mod Submitted
pub mod Payable
pub mod Lists
pub mod Descending
pub mod Selecting
pub mod Pages
pub mod EverTxs
pub mod Received
pub mod Plain
