-- ===== src/Lib.antt =====
-- Settled: an append-only audit log whose entries are leaves of an RFC 6962 Merkle tree, with
-- signed tree heads and proofs that clients check by themselves.
--
-- The parts and how they interact. crates/settled-core hashes entries and nodes, keeps the tree
-- incrementally, generates and verifies inclusion and consistency proofs, and signs tree heads.
-- crates/settled-storage keeps entries and tree nodes in RocksDB; crates/settled-server appends,
-- answers queries from both and signs heads; sdks/rust asks the server and checks what it answers.
--
-- The files.
--  - Prelude and its children: Boolean tests, lists over native lengths, powers of two, words and
--    their bytes, and `Run`, the result of code that may panic.
--  - Core/Hash: crates/settled-core/src/hash.rs. Core/Split: the split points `k` (merkle.rs),
--    `k` (proof.rs, here `k_usize`) and `split` (the client's, here `sdk_split`).
--  - Core/Merkle: crates/settled-core/src/merkle.rs. `MerkleTree`, `new`, `append`, `root` and `mth`
--    have the source's names; `append` is its loop (`carry_loop`) and its end (`place`). `append_all`
--    is the loop of `AppState::build` in crates/settled-server/src/state.rs.
--  - Core/Proof: crates/settled-core/src/proof.rs, with the source's names. `verify_inclusion` is a
--    loop (`inclusion_loop`) over a step and a last test (`inclusion_end`).
--  - Core/Sth and Core/Ed25519: crates/settled-core/src/sth.rs over an interface of ed25519-dalek.
--  - Sdk/Verifier: sdks/rust/src/verifier.rs, with the source's names.
--  - Storage/Types: crates/settled-storage/src/error.rs, proto.rs and types.rs; the conversions are
--    `log_entry_try_from`, `log_entry_proto_from` and the same for tree heads.
--  - Storage/Rows and Storage/Rocks: what the code relies on of the rocksdb and prost crates, as
--    interfaces: a column family is a list of rows in the order of their keys.
--  - Storage/LogStore: crates/settled-storage/src/log_store.rs, with the source's names; each scan is
--    a loop over the items of the database's iterator. `IsLog` (Storage/LogStore/Log) says that a
--    database holds a list of entries numbered from 0.
--  - Storage/TreeStore: crates/settled-storage/src/tree_store.rs, with the source's names;
--    `rebuild_from_log` is given the state that it shares with the log store.
--  - Storage/Database: crates/settled-storage/src/db.rs; `Db::open` is `open_db`, from the database
--    that RocksDB gives.
--  - Storage/HeadStore: crates/settled-storage/src/head_store.rs, key_store.rs (`latest` of the key
--    store is `latest_key`) and verify.rs.
--  - Server/State: `AppState` of crates/settled-server/src/state.rs and `SignerInner` of signer.rs:
--    one record of the database that the stores share, the tree, the signer, the limiter and what the
--    watch channel was sent. Server/Build: `AppState::build`.
--  - Server/Appends, Server/Reads, Server/Proofs and Server/Watch: the handlers of
--    crates/settled-server/src/service.rs, with the source's names; what follows the call of the log
--    is a function of its answer (`appended`, `inclusion_response`, ...). Server/Messages has their
--    messages of proto/settled.v1.proto, Server/Status error.rs.
--  - Server/Signing: signer.rs and `sign_and_store` of sth_task.rs. Server/Admin: admin.rs.
--    Server/RateLimit: rate_limit.rs. Server/Access: the interceptor of main.rs.
--  - Server/Invariant: `IsServer`, what holds of the state between requests: the database holds a list
--    of entries, the tree is over their leaf hashes, and each stored tree head has the root of a
--    prefix of them and a signature by the key that it names. Here such a server is called sound.
--  - Server/Deps: the interfaces that all of this is over (RocksDB, the encodings, Ed25519, SHA-256,
--    floating-point numbers, hex).
--  - Sdk/Client: sdks/rust/src/client.rs over the stub that tonic generates, a parameter, as is tonic's
--    conversion of a text to a header; `client_of` and `expect_header` are parts of `build`.
--  - Check: crates/settled-check/src/main.rs; `cmd_verify` from the client that it has connected.
--  - The modules named Examples: tests and concrete instances, with a toy hash.
--
-- Modelling. A `[u8; 32]` or `&[u8]` is the list of its bytes, a `u64` or `usize` (64 bits) a
-- natural number, an `i64` an integer. SHA-256 is a parameter, a function on byte strings. No
-- theorem assumes that it has no collision: where security rests on that, the theorem says
-- "or a collision", and the collision is a pair of different inputs with equal digests that the
-- proof computes. A panic (an assertion, an index or a slice out of range, an unwrap of None, an
-- overflowing subtraction) is the value `panic` of `Run`. The clock's reading is an argument. An
-- error of the database or of the encoding is a value of `Error`; where it can occur in a theorem,
-- the theorem says when and what state it leaves.
--
-- A handler is one step on the state: interleavings of handlers at their locks are not modelled. What
-- other threads do while a watcher replays is: each round reads a log of its own. The clocks, a new
-- signing key and what the file system does with a write are arguments. Additions on `u32` and `u64`
-- wrap around. Counters, traces and a blocking task that is lost are left out.
--
-- Fuel. Recursion on the halves of a list (mth_loop, path_loop, subproof_loop) and on a size
-- (verify_subproof_loop) takes that length or size as fuel, which every call decreases; out of fuel
-- is `panic`, and completeness, totality and the equalities below show that it is not reached.
-- `level_loop` has a round for each level below 63; `carry_loop` has a round for each level of the
-- frontier and one more; `strip_loop` halves its number; `split_loop` has 64 rounds, one for each
-- bit, and is `panic` where it does not end: a debug build overflows there, and a release build
-- goes round for ever.
--
-- The replay of `watch` has a round for each log that it is given; `watch_complete` asks for one more
-- round than there are full pages.
--
-- Not modelled: SHA-256 and Ed25519 themselves, RocksDB and its options, the gRPC and HTTP transport,
-- the metrics page, the timer of the signing task, start-up and configuration, connecting, the
-- tools, the SDKs in other languages and the web interface. A column family that is missing,
-- where the code panics, does not occur: they are made when a database is opened.
pub mod Prelude
pub mod Core
pub mod Storage
pub mod Server
pub mod Sdk
pub mod Check
