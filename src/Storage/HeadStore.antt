-- ===== src/Storage/HeadStore.antt =====
-- crates/settled-storage/src/head_store.rs, key_store.rs and verify.rs.
pub mod Writes
pub mod Keys
pub mod Lookups
pub mod Examples
use settled.Prelude.{
  ℕ, ◌^◌, ◌<◌, List, [], ◌∷◌, Option, none, some, Bool, true, false, ◌≡◌, ltb, if◌then◌else◌,
  length, ◌==◌, be_bytes, from_be_bytes, IsI64,
}
use settled.Prelude.Results.{Result, ok, err, ◌>>=◌, ok_or}
use settled.Core.Hash.{Bytes}
use settled.Core.Split.{IsU64}
use settled.Core.Ed25519.{Ed25519}
use settled.Core.Sth.{signing_payload}
use settled.Storage.Types.{
  Error, rocks_db, encode_error, decode_error, corruption, bad_tree_size_key_length,
  public_key_must_be_32_bytes, to_array, SignedTreeHead, SignedTreeHeadProto,
  signed_tree_head_try_from, signed_tree_head_proto_from, KeyRecordProto, KeyRecord,
}
use settled.Storage.Rows.{Row, u64_key, start, end, from_forward}
use settled.Storage.Rocks.{Rocks, Put, cf_heads, cf_keys}

-- `encode` into a vector and `decode` of the stored tree heads and keys, of the prost crate.
pub record HeadProst : Type 1 where
  pub encode : SignedTreeHeadProto → Option Bytes
  pub decode : Bytes → Option SignedTreeHeadProto
  pub encoded : SignedTreeHeadProto → Bytes
  pub encode-encoded : (p : SignedTreeHeadProto) → encode p ≡ some (encoded p)
  pub decode-encoded :
      (p : SignedTreeHeadProto)
      → IsU64 p.tree_size
      → IsI64 p.timestamp_ns
      → p.key_version < 2 ^ 32
      → decode (encoded p) ≡ some p

pub record KeyProst : Type 1 where
  pub encode : KeyRecordProto → Option Bytes
  pub decode : Bytes → Option KeyRecordProto
  pub encoded : KeyRecordProto → Bytes
  pub encode-encoded : (p : KeyRecordProto) → encode p ≡ some (encoded p)
  pub decode-encoded :
      (p : KeyRecordProto)
      → p.version < 2 ^ 32
      → IsU64 p.activated_at_tree_size
      → decode (encoded p) ≡ some p

module _ (r : Rocks) (m : HeadProst) where
  -- `SignedTreeHeadProto::decode` and `SignedTreeHead::try_from`.
  unfoldable pub head_of_value : Bytes → Result Error SignedTreeHead
  head_of_value v = do proto ← ok_or (m.decode v) decode_error; signed_tree_head_try_from proto

  unfoldable pub write : r.Db → SignedTreeHead → Result Error r.Db
  write db sth = do
    buf ← ok_or (m.encode (signed_tree_head_proto_from sth)) encode_error
    ok_or (r.write db (record { cf = cf_heads; key = u64_key sth.tree_size; value = buf } ∷ []))
        rocks_db

  -- `iter.next()` of a backward scan, and the branches of the `match`.
  unfoldable pub first_head : List (Option Row) → Result Error (Option SignedTreeHead)
  first_head [] = ok none
  first_head (none ∷ items) = err rocks_db
  first_head (some (k, v) ∷ items) = do head ← head_of_value v; ok (some head)

  unfoldable pub latest : r.Db → Result Error (Option SignedTreeHead)
  latest db = first_head (r.iterator_cf db cf_heads end)

  unfoldable pub found_head : Option Bytes → Result Error (Option SignedTreeHead)
  found_head (some v) = do head ← head_of_value v; ok (some head)
  found_head none = ok none

  unfoldable pub at_size : r.Db → ℕ → Result Error (Option SignedTreeHead)
  at_size db tree_size = do
    found ← ok_or (r.get_cf db cf_heads (u64_key tree_size)) rocks_db
    found_head found

  -- The loop of `range`.
  pub heads_loop : List (Option Row) → ℕ → Result Error (List SignedTreeHead)
  heads_loop [] to_size = ok []
  heads_loop (none ∷ items) to_size = err rocks_db
  heads_loop (some (k, v) ∷ items) to_size =
      let more = heads_loop items to_size in
      do
        bytes ← ok_or (to_array 8 k) (corruption bad_tree_size_key_length)
        let pushed = (do head ← head_of_value v; heads ← more; ok (head ∷ heads))
        if ltb to_size (from_be_bytes 0 bytes) then ok [] else pushed

  unfoldable pub range : r.Db → ℕ → ℕ → Result Error (List SignedTreeHead)
  unfolding heads_loop
  range db from_size to_size =
      heads_loop (r.iterator_cf db cf_heads (from_forward (u64_key from_size))) to_size

-- `version.to_be_bytes()` of a `u32`.
unfoldable pub u32_key : ℕ → Bytes
u32_key n = be_bytes 4 n

module _ (r : Rocks) (m : KeyProst) where
  unfoldable pub decode : Bytes → Result Error KeyRecord
  decode bytes = do
    proto ← ok_or (m.decode bytes) decode_error
    public_key ← ok_or (to_array 32 proto.public_key) (corruption public_key_must_be_32_bytes)
    ok (record {
      version = proto.version;
      public_key = public_key;
      activated_at_tree_size = proto.activated_at_tree_size;
    })

  unfoldable pub put : r.Db → KeyRecord → Result Error r.Db
  put db rec =
      let proto : KeyRecordProto = record {
        version = rec.version;
        public_key = rec.public_key;
        activated_at_tree_size = rec.activated_at_tree_size;
      } in
      do
        buf ← ok_or (m.encode proto) encode_error
        ok_or (r.write db (record { cf = cf_keys; key = u32_key rec.version; value = buf } ∷ []))
            rocks_db

  unfoldable pub found_key : Option Bytes → Result Error (Option KeyRecord)
  found_key (some v) = do rec ← decode v; ok (some rec)
  found_key none = ok none

  unfoldable pub get : r.Db → ℕ → Result Error (Option KeyRecord)
  get db version = do
    found ← ok_or (r.get_cf db cf_keys (u32_key version)) rocks_db
    found_key found

  unfoldable pub first_key : List (Option Row) → Result Error (Option KeyRecord)
  first_key [] = ok none
  first_key (none ∷ items) = err rocks_db
  first_key (some (k, v) ∷ items) = do rec ← decode v; ok (some rec)

  unfoldable pub latest_key : r.Db → Result Error (Option KeyRecord)
  latest_key db = first_key (r.iterator_cf db cf_keys end)

  pub all_loop : List (Option Row) → Result Error (List KeyRecord)
  all_loop [] = ok []
  all_loop (none ∷ items) = err rocks_db
  all_loop (some (k, v) ∷ items) =
      let more = all_loop items in do rec ← decode v; records ← more; ok (rec ∷ records)

  unfoldable pub all : r.Db → Result Error (List KeyRecord)
  unfolding all_loop
  all db = all_loop (r.iterator_cf db cf_keys start)

module _ (e : Ed25519) where
  -- `VerifyingKey::from_bytes` and `verify_strict`; 64 bytes are always a `Signature`.
  unfoldable pub verify_with_key : Option e.VerifyingKey → SignedTreeHead → Bool
  verify_with_key none sth = false
  verify_with_key (some key) sth =
      if length sth.signature == 64
      then e.verify_strict key (signing_payload sth.tree_size sth.root_hash sth.timestamp_ns)
          sth.signature
      else false

  unfoldable pub verify_sth : SignedTreeHead → Bool
  verify_sth sth = verify_with_key (e.from_bytes sth.public_key) sth
