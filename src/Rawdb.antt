-- ===== src/Rawdb.antt =====
-- rawdb/database.go: the interface `KeyValueDB`, which the BoltDB, S3, Aliyun and MongoDB drivers
-- implement, and the bucket names of schema/store.go. The store and all above it take a value of
-- this interface. Its laws say what a key-value store documents: a write that succeeds is read
-- back at its key and disturbs no other, and a write that fails changes nothing that is read.
pub mod Interface
pub mod Memory
