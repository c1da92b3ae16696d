-- ===== src/Server/State.antt =====
-- crates/settled-server/src/state.rs: the state that the handlers share.
use settled.Prelude.{ℕ, List, Option}
use settled.Core.Hash.{Bytes}
use settled.Core.Merkle.{MerkleTree}
use settled.Storage.LogStore.{DbInner}
use settled.Server.Deps.{Deps}
use settled.Server.RateLimit.{Bucket}
use settled.Server.Messages.{Entry}

module _ (d : Deps) where
  -- `SignerInner` of crates/settled-server/src/signer.rs.
  pub record SignerInner : Type 0 where
    pub key : d.ed25519.SigningKey
    pub version : ℕ

  -- The stores share one `DbInner`; `key_file` is the file that the signer writes, and `sent` what
  -- `watch_tx` was given, in order.
  pub record AppState : Type 0 where
    pub inner : DbInner d.rocks d.log_messages
    pub merkle : MerkleTree
    pub signer : SignerInner
    pub key_file : Option Bytes
    pub max_get_latest : ℕ
    pub rate_limiter : Option (Bucket d.floats)
    pub sent : List Entry
