-- ===== src/Server/Build.antt =====
-- `AppState::build` of crates/settled-server/src/state.rs, on the database that RocksDB opened. A new
-- signing key, whether the file system takes a write, the key file and the clock's reading are
-- arguments, and so are the two settings of the configuration that the handlers read.
pub mod Restart
use settled.Prelude.{ℕ, ◌-◌, ◌^◌, List, [], Option, none, some, Bool, Run, done, panic, map, ◌>>=◌}
use mathlib.Core.Option
use settled.Prelude.Results.{Result, ok, err}
use settled.Core.Hash.{Bytes, Hash}
use settled.Core.Merkle.{MerkleTree, append_all}
use settled.Core.Merkle
use settled.Storage.Types.{KeyRecord}
use settled.Storage.Types
use settled.Storage.LogStore.{DbInner, seq_range}
use settled.Storage.Database.{open_db}
use settled.Storage.HeadStore.{put, latest_key}
use settled.Server.Deps.{Deps}
use settled.Server.State.{AppState, SignerInner}
use settled.Server.RateLimit
use settled.Server.Signing.{KeyFileError, load_or_generate, public_key}

pub data BuildError : Type 0 where
  storage_failed : Types.Error → BuildError
  key_file_failed : KeyFileError → BuildError

-- `?` on what the storage answers, and on what the signer does.
abbrev pub stored {ℓ κ} :
    {A : Type ℓ} {B : Type κ}
    → Result Types.Error A
    → (A → Run (Result BuildError B))
    → Run (Result BuildError B)
stored (ok a) f = f a
stored (err e) f = done (err (storage_failed e))

abbrev pub signing {ℓ κ} :
    {A : Type ℓ} {B : Type κ}
    → Result KeyFileError A
    → (A → Run (Result BuildError B))
    → Run (Result BuildError B)
signing (ok a) f = f a
signing (err e) f = done (err (key_file_failed e))

-- `latest.as_ref().map_or(1, |r| r.version)`.
unfoldable pub version_of : Option KeyRecord → ℕ
version_of none = 1
version_of (some k) = k.version

module _ (d : Deps) where
  -- `if needs_seed`: the first key's record.
  unfoldable pub seeded :
      d.rocks.Db → SignerInner d → Option KeyRecord → Result Types.Error d.rocks.Db
  seeded db signer (some k) = ok db
  seeded db signer none =
      put d.rocks d.key_messages db
        (record { version = 1; public_key = public_key d signer; activated_at_tree_size = 0 })

  unfoldable pub build :
      ℕ
      → d.ed25519.SigningKey
      → Bool
      → Option Bytes
      → ℕ
      → Option ℕ
      → d.rocks.Db
      → Run (Result BuildError (AppState d))
  build now fresh writes key_file max_get_latest max_appends_per_sec db =
      stored (open_db d.rocks d.log_messages db) (λ inner.
        stored (seq_range d.rocks d.log_messages inner 0 (2 ^ 64 - 1)) (λ entries. do
          merkle ← append_all d.sha256 Merkle.new (map (λ e. e.leaf_hash) entries)
          stored (latest_key d.rocks d.key_messages inner.db) (λ latest.
              signing (load_or_generate d fresh writes key_file (version_of latest))
                (λ (signer, file). stored (seeded inner.db signer latest) (λ db'. done (
                  ok (record {
                    inner = record inner { db = db' };
                    merkle = merkle;
                    signer = signer;
                    key_file = some file;
                    max_get_latest = max_get_latest;
                    rate_limiter = Option.map (RateLimit.new d.floats now) max_appends_per_sec;
                    sent = [];
                  })))))))
