-- ===== src/Core.antt =====
-- crates/settled-core: the Merkle tree, its proofs and their verification.
pub mod Hash
pub mod Split
pub mod Merkle
pub mod Proof
pub mod Ed25519
pub mod Sth
pub mod Examples
