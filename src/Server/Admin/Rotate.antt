-- ===== src/Server/Admin/Rotate.antt =====
-- `rotate_key` of admin.rs.
use settled.Prelude.{
  ℕ, ◌+◌, ◌%◌, ◌^◌, List, none, some, Option, ◌≡◌, ◌⊎◌, inl, inr, refl, ◌∙◌, arith, length,
}
use settled.Prelude.Results.{ok, err}
use settled.Core.Hash.{Bytes}
use settled.Storage.Types.{LogEntry, SignedTreeHead, KeyRecord}
use settled.Storage.Rocks.{put_all, cf_heads, cf_log}
use settled.Storage.HeadStore.{get}
use settled.Storage.HeadStore.Keys.{IsKeyRecord, key_puts, put-result, get-after}
use settled.Server.Deps.{Deps}
use settled.Server.State.{AppState}
use settled.Server.Signing.{FileWrite, written, failed, rotate, public_key, key_version}
use settled.Server.Admin.{rotate_key, rotated, key_stored, key_record_json, internal_server_error}
use settled.Server.Invariant.{length-leaves_of, IsServer}

module _ (d : Deps) where
  abbrev pub next_version : AppState d → ℕ
  next_version s = (s.signer.version + 1) % 2 ^ 32

  -- The record of a new key: active from the tree's size.
  abbrev pub new_record : AppState d → ℕ → d.ed25519.SigningKey → KeyRecord
  new_record s n key = record {
    version = next_version s;
    public_key = d.ed25519.to_bytes (d.ed25519.verifying_key key);
    activated_at_tree_size = n;
  }

  -- The state with the new key in the signer and in the file.
  abbrev pub with_key : AppState d → d.ed25519.SigningKey → AppState d
  with_key s new_key = record s {
    signer = record { key = new_key; version = next_version s };
    key_file = some (d.ed25519.signing_key_bytes new_key);
  }

  with_key-IsServer :
      (s : AppState d) (es : List LogEntry) (hs : List SignedTreeHead) (key : d.ed25519.SigningKey)
      → IsServer d s es hs
      → IsServer d (with_key s key) es hs
  with_key-IsServer s es hs key v = record {
    log = v.log;
    tree = v.tree;
    hashed = v.hashed;
    head_rows = v.head_rows;
    heads = v.heads;
    ascending = v.ascending;
    honest = v.honest;
  }

  pub with_row-IsServer :
      (s : AppState d) (es : List LogEntry) (hs : List SignedTreeHead) (k : KeyRecord)
      (db' : d.rocks.Db)
      → IsServer d s es hs
      → d.rocks.write s.inner.db (key_puts d.rocks d.key_messages k) ≡ some db'
      → IsServer d (record s { inner = record s.inner { db = db' } }) es hs
  unfolding put_all
  with_row-IsServer s es hs k db' v w =
      let puts = key_puts d.rocks d.key_messages k in
      record {
        log = (
          d.rocks.write-IsReadable s.inner.db db' puts w v.log.0,
          d.rocks.rows-write s.inner.db db' puts w cf_log ∙ v.log.1,
          v.log.2,
          v.log.3,
          v.log.4,
          v.log.5,
        );
        tree = v.tree;
        hashed = v.hashed;
        head_rows = d.rocks.rows-write s.inner.db db' puts w cf_heads ∙ v.head_rows;
        heads = v.heads;
        ascending = v.ascending;
        honest = v.honest;
      }

  with_file-IsServer :
      (s : AppState d) (es : List LogEntry) (hs : List SignedTreeHead) (file : Option Bytes)
      → IsServer d s es hs
      → IsServer d (record s { key_file = file }) es hs
  with_file-IsServer s es hs file v = record {
    log = v.log;
    tree = v.tree;
    hashed = v.hashed;
    head_rows = v.head_rows;
    heads = v.heads;
    ascending = v.ascending;
    honest = v.honest;
  }

  -- On a sound server, `rotate_key` ends in one of three ways. The key file is not written: the
  -- answer is a failure, and only the file changes, to what the failed write leaves. It is written and
  -- the database refuses the record: the answer is a failure, and yet the signer and the file have the
  -- new key under the next version. Or the file is written and the answer is the record of the new
  -- public key, with the log's length: the signer and the file have the key, and the key store gives
  -- this record at that version. In each the server is sound, its tree heads the same.
  pub rotate_key-IsServer :
      (key : d.ed25519.SigningKey) (outcome : FileWrite) (s : AppState d) (es : List LogEntry)
      (hs : List SignedTreeHead)
      → IsServer d s es hs
      → ((left : Option Bytes) × (outcome ≡ failed left)
          × (rotate_key d key outcome s ≡ (err internal_server_error, record s { key_file = left }))
          × IsServer d (record s { key_file = left }) es hs)
        ⊎ (((outcome ≡ written)
              × (d.rocks.write s.inner.db
                    (key_puts d.rocks d.key_messages (new_record s (length es) key))
                  ≡ none)
              × (rotate_key d key outcome s ≡ (err internal_server_error, with_key s key))
              × IsServer d (with_key s key) es hs)
            ⊎ ((s' : AppState d) × (outcome ≡ written)
                × (rotate_key d key outcome s
                    ≡ (ok (key_record_json d (new_record s (length es) key)), s'))
                × IsServer d s' es hs
                × (s'.signer ≡ (with_key s key).signer)
                × (s'.key_file ≡ (with_key s key).key_file)
                × (get d.rocks d.key_messages s'.inner.db (next_version s)
                    ≡ ok (some (new_record s (length es) key)))))
  unfolding rotate_key rotated key_stored rotate public_key key_version
  rotate_key-IsServer key (failed left) s es hs v =
      inl (left, refl, refl, with_file-IsServer s es hs left v)
  rotate_key-IsServer key written s es hs v =
      let k = new_record s (length es) key in
      let s₁ = with_key s key in
      let size : s.merkle.size ≡ length es = v.tree.sized ∙ length-leaves_of es in
      let fits : IsKeyRecord k =
        (omega arith, d.ed25519.length-to_bytes (d.ed25519.verifying_key key), v.log.5) in
      elim (put-result d.rocks d.key_messages s.inner.db k) [
        | inl (refused, result) ↦
            inr (inl (refl, refused, rw (size, result), with_key-IsServer s es hs key v))
        | inr (db', w, result) ↦ inr (
            inr (
              record s₁ { inner = record s.inner { db = db' } },
              refl,
              rw (size, result),
              with_row-IsServer s₁ es hs k db' (with_key-IsServer s es hs key v) w,
              refl,
              refl,
              get-after d.rocks d.key_messages s.inner.db db' k v.log.0 fits w,
            ))
      ]
