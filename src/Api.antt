-- ===== src/Api.antt =====
-- The handlers of api.go.
pub mod Replies
pub mod Range
pub mod Served
pub mod Files
pub mod Counts
pub mod Submit
pub mod Native
pub mod Charged
pub mod Tx
pub mod Items
pub mod Data
pub mod Orders
pub mod Keys
pub mod RoundTrip
pub mod Stored
