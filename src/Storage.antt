-- ===== src/Storage.antt =====
-- crates/settled-storage: the log, the tree, the heads and the keys in RocksDB.
pub mod Types
pub mod Rows
pub mod Rocks
pub mod LogStore
pub mod TreeStore
pub mod HeadStore
pub mod Database
pub mod Examples
