-- ===== src/Server/Signing.antt =====
-- crates/settled-server/src/signer.rs and sth_task.rs. A new signing key, the clock's reading and
-- what the file system does with a write are arguments.
pub mod Keep
pub mod Provable
use settled.Prelude.{
  ℕ, List, [], ◌∷◌, Option, none, some, Bool, true, false, ◌==◌, if◌then◌else◌, length, ℤ, Run,
  done, panic, ◌>>=◌, unwrap,
}
use settled.Prelude.Results.{Result, ok, err}
use settled.Core.Hash.{Bytes, Hash}
use settled.Core.Merkle.{root}
use settled.Core.Sth.{signing_payload}
use settled.Storage.Types.{Error, SignedTreeHead}
use settled.Storage.HeadStore.{latest, write}
use settled.Server.Deps.{Deps}
use settled.Server.State.{AppState, SignerInner}

-- The errors of `load_or_generate`.
pub data KeyFileError : Type 0 where
  key_file_must_be_32_bytes not_written : KeyFileError

-- What `fs::write` over the key file does: all of it is written, or it fails and leaves the file as it
-- was, cut off, or not there.
pub data FileWrite : Type 0 where
  written : FileWrite
  failed : Option Bytes → FileWrite

-- The test on `latest` in `sign_and_store`.
unfoldable pub is_of_size : ℕ → Option SignedTreeHead → Bool
is_of_size tree_size none = false
is_of_size tree_size (some latest) = latest.tree_size == tree_size

module _ (d : Deps) where
  -- `Signer::sign`, `public_key` and `key_version` of `LocalSigner`.
  unfoldable pub sign : SignerInner d → Bytes → Bytes
  sign inner payload = d.ed25519.sign inner.key payload

  unfoldable pub public_key : SignerInner d → Bytes
  public_key inner = d.ed25519.to_bytes (d.ed25519.verifying_key inner.key)

  unfoldable pub key_version : SignerInner d → ℕ
  key_version inner = inner.version

  -- The signer, and the key file that is left.
  unfoldable pub load_or_generate :
      d.ed25519.SigningKey → Bool → Option Bytes → ℕ → Result KeyFileError (SignerInner d × Bytes)
  load_or_generate fresh writes (some file) version =
      if length file == 32
      then ok (record { key = d.ed25519.signing_key file; version = version }, file)
      else err key_file_must_be_32_bytes
  load_or_generate fresh writes none version =
      let file = d.ed25519.signing_key_bytes fresh in
      if writes then ok (record { key = fresh; version = version }, file) else err not_written

  -- `rotate`: the new public key, unless the file is not written, and the state it leaves.
  unfoldable pub rotate :
      d.ed25519.SigningKey → FileWrite → ℕ → AppState d → Option Bytes × AppState d
  rotate new_key (failed left) new_version s = (none, record s { key_file = left })
  rotate new_key written new_version s =
      let inner : SignerInner d = record { key = new_key; version = new_version } in
      (
        some (public_key inner),
        record s { signer = inner; key_file = some (d.ed25519.signing_key_bytes new_key) },
      )

  -- The tree head that `sign_and_store` writes.
  unfoldable pub signed_head : SignerInner d → ℕ → Hash → ℤ → SignedTreeHead
  signed_head signer tree_size root_hash timestamp_ns = record {
    tree_size = tree_size;
    root_hash = root_hash;
    timestamp_ns = timestamp_ns;
    signature = sign signer (signing_payload tree_size root_hash timestamp_ns);
    public_key = public_key signer;
    key_version = key_version signer;
  }

  -- `state.heads.write(&sth)?`.
  unfoldable pub stored : AppState d → Result Error d.rocks.Db → Result Error (AppState d)
  stored s (err e) = err e
  stored s (ok db') = ok (record s { inner = record s.inner { db = db' } })

  -- From the latest tree head on.
  unfoldable pub sign_after :
      ℤ → AppState d → Result Error (Option SignedTreeHead) → Run (Result Error (AppState d))
  sign_after timestamp_ns s (err e) = done (err e)
  sign_after timestamp_ns s (ok latest) =
      let signed = (do
        root_hash ← unwrap (root d.sha256 s.merkle)
        done (
            stored s (
              write d.rocks d.head_messages s.inner.db
                (signed_head s.signer s.merkle.size root_hash timestamp_ns)))) in
      if is_of_size s.merkle.size latest then done (ok s) else signed

  unfoldable pub sign_and_store : ℤ → AppState d → Run (Result Error (AppState d))
  sign_and_store timestamp_ns s =
      let signed = sign_after timestamp_ns s (latest d.rocks d.head_messages s.inner.db) in
      if s.merkle.size == 0 then done (ok s) else signed
