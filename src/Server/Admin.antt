-- ===== src/Server/Admin.antt =====
-- crates/settled-server/src/admin.rs, without `metrics` and the router.
pub mod Force
pub mod Rotate
use settled.Prelude.{ℕ, ◌+◌, ◌%◌, ◌^◌, List, Option, none, some, Bool, map, ℤ, Run, done, panic}
use mathlib.Core.Option
use settled.Prelude.Results.{Result, ok, err, ◌>>=◌}
use settled.Core.Hash.{Bytes}
use settled.Storage.Types.{Error, SignedTreeHead, KeyRecord}
use settled.Storage.LogStore.{count}
use settled.Storage.HeadStore.{latest, put, all}
use settled.Server.Deps.{Deps}
use settled.Server.State.{AppState}
use settled.Server.Signing.{FileWrite, key_version, rotate, sign_and_store}

-- The status codes that the handlers return.
pub data StatusCode : Type 0 where
  success no_content internal_server_error : StatusCode

-- The texts of public keys, hashes and signatures are hexadecimal.
pub record KeyRecordJson : Type 0 where
  pub version : ℕ
  pub public_key : Bytes
  pub activated_at_tree_size : ℕ

pub record SthJson : Type 0 where
  pub tree_size : ℕ
  pub root_hash : Bytes
  pub timestamp_ns : ℤ
  pub signature : Bytes
  pub public_key : Bytes
  pub key_version : ℕ

pub record StatsJson : Type 0 where
  pub entry_count : ℕ
  pub tree_size : ℕ
  pub last_sth_timestamp_ns : Option ℤ

unfoldable pub health : StatusCode
health = success

-- `map_err(|_| StatusCode::INTERNAL_SERVER_ERROR)?`.
abbrev pub or_500 {ℓ} : {A : Type ℓ} → Result Error A → Result StatusCode A
or_500 (ok a) = ok a
or_500 (err e) = err internal_server_error

-- `ok_or(StatusCode::NO_CONTENT)?`.
abbrev pub or_204 {ℓ} : {A : Type ℓ} → Option A → Result StatusCode A
or_204 (some a) = ok a
or_204 none = err no_content

module _ (d : Deps) where
  unfoldable pub key_record_json : KeyRecord → KeyRecordJson
  key_record_json k = record {
    version = k.version;
    public_key = d.hex_encode k.public_key;
    activated_at_tree_size = k.activated_at_tree_size;
  }

  unfoldable pub sth_json : SignedTreeHead → SthJson
  sth_json sth = record {
    tree_size = sth.tree_size;
    root_hash = d.hex_encode sth.root_hash;
    timestamp_ns = sth.timestamp_ns;
    signature = d.hex_encode sth.signature;
    public_key = d.hex_encode sth.public_key;
    key_version = sth.key_version;
  }

  unfoldable pub list_keys : AppState d → Result StatusCode (List KeyRecordJson)
  list_keys s = do
    records ← or_500 (all d.rocks d.key_messages s.inner.db)
    ok (map key_record_json records)

  -- `keys.put(&record)`, after the signer was swapped.
  unfoldable pub key_stored :
      AppState d
      → KeyRecord
      → Result Error d.rocks.Db
      → Result StatusCode KeyRecordJson × AppState d
  key_stored s k (err e) = (err internal_server_error, s)
  key_stored s k (ok db') =
      (ok (key_record_json k), record s { inner = record s.inner { db = db' } })

  -- The record of the new key, stored from the state that `rotate` leaves.
  unfoldable pub rotated :
      ℕ → ℕ → Option Bytes × AppState d → Result StatusCode KeyRecordJson × AppState d
  rotated activated_at new_version (none, s') = (err internal_server_error, s')
  rotated activated_at new_version (some new_pubkey, s') =
      let k : KeyRecord = record {
        version = new_version;
        public_key = new_pubkey;
        activated_at_tree_size = activated_at;
      } in
      key_stored s' k (put d.rocks d.key_messages s'.inner.db k)

  unfoldable pub rotate_key :
      d.ed25519.SigningKey → FileWrite → AppState d → Result StatusCode KeyRecordJson × AppState d
  rotate_key new_key outcome s =
      let new_version = (key_version d s.signer + 1) % 2 ^ 32 in
      rotated s.merkle.size new_version (rotate d new_key outcome new_version s)

  unfoldable pub get_sth : AppState d → Result StatusCode SthJson
  get_sth s = do
    found ← or_500 (latest d.rocks d.head_messages s.inner.db)
    sth ← or_204 found
    ok (sth_json sth)

  unfoldable pub stats : AppState d → Result StatusCode StatsJson
  stats s = do
    found ← or_500 (latest d.rocks d.head_messages s.inner.db)
    ok (record {
      entry_count = count d.rocks d.log_messages s.inner;
      tree_size = s.merkle.size;
      last_sth_timestamp_ns = Option.map (λ h. h.timestamp_ns) found;
    })

  -- The answer, and the state it leaves.
  unfoldable pub forced :
      AppState d → Run (Result Error (AppState d)) → Run (Result StatusCode SthJson × AppState d)
  forced s panic = panic
  forced s (done (err e)) = done (err internal_server_error, s)
  forced s (done (ok s')) = done (get_sth s', s')

  unfoldable pub force_sth : ℤ → AppState d → Run (Result StatusCode SthJson × AppState d)
  force_sth timestamp_ns s = forced s (sign_and_store d timestamp_ns s)
