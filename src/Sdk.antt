-- ===== src/Sdk.antt =====
-- sdks/rust: the client's verifier.
pub mod Verifier
pub mod Client
