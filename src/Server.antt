-- ===== src/Server.antt =====
-- crates/settled-server: appending, reading, proving, signing and watching over the storage.
pub mod RateLimit
pub mod Status
pub mod Messages
pub mod Deps
pub mod State
pub mod Appends
pub mod Reads
pub mod Proofs
pub mod Signing
pub mod Invariant
pub mod Admin
pub mod Access
pub mod Build
pub mod Watch
pub mod Examples
