-- ===== src/Server/Build/Restart.antt =====
-- A server that is started again on a sound server's database.
use settled.Prelude.{
  ℕ, ◌-◌, ◌^◌, List, [], Option, none, some, Bool, ◌≡◌, ◌⊎◌, inl, inr, refl, arith, length,
  take_all, done, be_bytes,
}
use mathlib.Core.Option
use settled.Prelude.Results.{ok, err}
use settled.Core.Hash.{Bytes}
use settled.Core.Split.{IsU64}
use settled.Core.Merkle.{MerkleTree, append_all, root, mth}
use settled.Core.Merkle
use settled.Core.Merkle.Tree.{IsTreeOf, IsTreeOf-new}
use settled.Core.Merkle.Incremental.{append_all-IsTreeOf, root-eq-mth}
use settled.Storage.Types.{LogEntry, SignedTreeHead, KeyRecord, rocks_db}
use settled.Storage.Rows.{find_row}
use settled.Storage.Rocks.{cf_default}
use settled.Storage.LogStore.{DbInner}
use settled.Storage.LogStore.Reads.{seq_range-IsLog}
use settled.Storage.Database.{schema_version_key, open_db}
use settled.Storage.Database.Reopen.{opened, open_db-opened}
use settled.Storage.HeadStore.{get, latest_key}
use settled.Storage.HeadStore.Keys.{key_puts, put-result, get-after}
use settled.Server.Deps.{Deps}
use settled.Server.State.{AppState, SignerInner}
use settled.Server.RateLimit
use settled.Server.Signing.{load_or_generate, public_key}
use settled.Server.Build.{storage_failed, version_of, seeded, build}
use settled.Server.Admin.Rotate.{with_row-IsServer}
use settled.Server.Invariant.{leaves_of, length-leaves_of, IsServer}

module _ (d : Deps) where
  -- The record that seeds an empty key store.
  abbrev pub first_record : SignerInner d → KeyRecord
  first_record signer = record {
    version = 1;
    public_key = d.ed25519.to_bytes (d.ed25519.verifying_key signer.key);
    activated_at_tree_size = 0;
  }

  -- The state that `build` makes of its parts.
  abbrev pub started :
      ℕ
      → ℕ
      → Option ℕ
      → SignerInner d
      → Bytes
      → DbInner d.rocks d.log_messages
      → MerkleTree
      → AppState d
  started now max_get_latest rate signer file inner merkle = record {
    inner = inner;
    merkle = merkle;
    signer = signer;
    key_file = some file;
    max_get_latest = max_get_latest;
    rate_limiter = Option.map (RateLimit.new d.floats now) rate;
    sent = [];
  }

  module _ (s : AppState d) (es : List LogEntry) (hs : List SignedTreeHead) (v : IsServer d s es hs)
      (schema : find_row schema_version_key (d.rocks.rows s.inner.db cf_default)
        ≡ some (be_bytes 4 1)) where
    -- The log opens, and the tree is built again.
    reopened :
        (open_db d.rocks d.log_messages s.inner.db
          ≡ ok (opened d.rocks d.log_messages s.inner.db es))
    reopened =
        elim (open_db-opened d.rocks d.log_messages s.inner.db es 1 v.log.0 v.log.1 v.log.2 v.log.3
          v.log.5 (omega arith) schema) [
            | inl (old, result, log) ↦ result
            | inr (new, fails) ↦ absurd (omega (arith, new))
          ]

    -- Two trees of the same leaves have the same root.
    same_root :
        (t : MerkleTree)
        → IsTreeOf d.sha256 (leaves_of es) t
        → root d.sha256 t ≡ root d.sha256 s.merkle
    same_root t tree =
        let few : IsU64 (length (leaves_of es)) = omega (arith, v.log.5, length-leaves_of es) in
        let left = root-eq-mth d.sha256 (leaves_of es) t tree few in
        let right = root-eq-mth d.sha256 (leaves_of es) s.merkle v.tree few in cc

    rebuilt :
        (t : MerkleTree) × (append_all d.sha256 Merkle.new (leaves_of es) ≡ done t)
        × IsTreeOf d.sha256 (leaves_of es) t
    rebuilt =
        append_all-IsTreeOf d.sha256 (leaves_of es) [] Merkle.new (IsTreeOf-new d.sha256)
          (omega (arith, v.log.5, length-leaves_of es))

    started-IsServer :
        (now max_get_latest : ℕ) (rate : Option ℕ) (signer : SignerInner d) (file : Bytes)
        (t : MerkleTree)
        → IsTreeOf d.sha256 (leaves_of es) t
        → IsServer d
            (started now max_get_latest rate signer file
              (opened d.rocks d.log_messages s.inner.db es)
              t)
            es
            hs
    started-IsServer now max_get_latest rate signer file t tree = record {
      log = (v.log.0, v.log.1, v.log.2, v.log.3, refl, v.log.5);
      tree = tree;
      hashed = v.hashed;
      head_rows = v.head_rows;
      heads = v.heads;
      ascending = v.ascending;
      honest = v.honest;
    }

    -- On the database of a sound server, of schema version 1 and with a key store that can be read,
    -- when the signing key is loaded or generated: `build` never panics, and fails exactly by the
    -- database refusing the first key's record, which it writes when there is none; or it leaves a
    -- sound server of the same entries and tree heads, whose tree has the same root, with that
    -- signing key, and an empty key store then gives the key's record at version 1.
    pub build-IsServer :
        (now : ℕ) (fresh : d.ed25519.SigningKey) (writes : Bool) (max_get_latest : ℕ)
        (rate : Option ℕ) (found : Option KeyRecord) (signer : SignerInner d) (file : Bytes)
        → latest_key d.rocks d.key_messages s.inner.db ≡ ok found
        → load_or_generate d fresh writes s.key_file (version_of found) ≡ ok (signer, file)
        → ((found ≡ none)
            × (d.rocks.write s.inner.db (key_puts d.rocks d.key_messages (first_record signer))
                ≡ none)
            × (build d now fresh writes s.key_file max_get_latest rate s.inner.db
                ≡ done (err (storage_failed rocks_db))))
          ⊎ ((s' : AppState d) × (build d now fresh writes s.key_file max_get_latest rate s.inner.db
                ≡ done (ok s'))
              × IsServer d s' es hs
              × (root d.sha256 s'.merkle ≡ root d.sha256 s.merkle)
              × (s'.signer ≡ signer)
              × (found ≡ none
                  → get d.rocks d.key_messages s'.inner.db 1 ≡ ok (some (first_record signer))))
    unfolding build seeded public_key
    build-IsServer now fresh writes max_get_latest rate none signer file keys loaded =
        let (t, runs, tree) = rebuilt in
        let inner = opened d.rocks d.log_messages s.inner.db es in
        let read =
          seq_range-IsLog d.rocks d.log_messages inner es 0 (2 ^ 64 - 1)
            (v.log.0, v.log.1, v.log.2, v.log.3, refl, v.log.5) (omega arith) in
        let whole = take_all (2 ^ 64 - 1 - 0) es (omega (arith, v.log.5)) in
        let k = first_record signer in
        let s₁ = started now max_get_latest rate signer file inner t in
        let v₁ = started-IsServer now max_get_latest rate signer file t tree in
        elim (put-result d.rocks d.key_messages s.inner.db k) [
          | inl (refused, result) ↦
              inl (refl, refused, rw (reopened, read, whole, runs, keys, loaded, result))
          | inr (db', w, result) ↦ inr (
            record s₁ { inner = record inner { db = db' } },
            rw (reopened, read, whole, runs, keys, loaded, result),
            with_row-IsServer d s₁ es hs k db' v₁ w,
            same_root t tree,
            refl,
            λ empty.
                get-after d.rocks d.key_messages s.inner.db db' k v.log.0
                  (
                    omega arith,
                    d.ed25519.length-to_bytes (d.ed25519.verifying_key signer.key),
                    omega arith,
                  )
                  w,
          )
        ]
    build-IsServer now fresh writes max_get_latest rate (some latest) signer file keys loaded =
        let (t, runs, tree) = rebuilt in
        let inner = opened d.rocks d.log_messages s.inner.db es in
        let read =
          seq_range-IsLog d.rocks d.log_messages inner es 0 (2 ^ 64 - 1)
            (v.log.0, v.log.1, v.log.2, v.log.3, refl, v.log.5) (omega arith) in
        let whole = take_all (2 ^ 64 - 1 - 0) es (omega (arith, v.log.5)) in
        inr (
          started now max_get_latest rate signer file inner t,
          rw (reopened, read, whole, runs, keys, loaded),
          started-IsServer now max_get_latest rate signer file t tree,
          same_root t tree,
          refl,
          λ empty. absurd (cc),
        )
