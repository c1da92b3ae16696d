-- ===== src/Storage/HeadStore/Keys.antt =====
-- A key record that is put is read back.
use settled.Prelude.{
  ℕ, ◌^◌, ◌<◌, List, [], ◌∷◌, none, some, ◌≡◌, ◌≢◌, ◌⊎◌, inl, inr, sym, Option-cases, length,
  ==_iff, be_bytes_injective,
}
use settled.Prelude.Results.{ok, err}
use settled.Core.Hash.{IsHash}
use settled.Core.Split.{IsU64}
use settled.Storage.Types.{KeyRecord, KeyRecordProto, rocks_db}
use settled.Storage.Rows.Put.{find_row-put_row, find_row-put_row_other}
use settled.Storage.Rocks.{Rocks, Put, put_all, cf_keys}
use settled.Storage.HeadStore.{KeyProst, u32_key, decode, put, found_key, get}

-- What the types of the fields say.
abbrev pub IsKeyRecord : KeyRecord → Type 0
IsKeyRecord k = (k.version < 2 ^ 32) × IsHash k.public_key × IsU64 k.activated_at_tree_size

abbrev pub key_proto : KeyRecord → KeyRecordProto
key_proto k = record {
  version = k.version;
  public_key = k.public_key;
  activated_at_tree_size = k.activated_at_tree_size;
}

u32_key_injective : (a b : ℕ) → a < 2 ^ 32 → b < 2 ^ 32 → u32_key a ≡ u32_key b → a ≡ b
unfolding u32_key
u32_key_injective a b ha hb e = be_bytes_injective 4 a b ha hb e

module _ (r : Rocks) (m : KeyProst) where
  abbrev pub key_puts : KeyRecord → List Put
  key_puts k =
      record { cf = cf_keys; key = u32_key k.version; value = m.encoded (key_proto k) } ∷ []

  decode-encoded : (k : KeyRecord) → IsKeyRecord k → decode r m (m.encoded (key_proto k)) ≡ ok k
  unfolding decode
  decode-encoded k (v, p, a) =
      rw (m.decode-encoded (key_proto k) v a, (==_iff (length k.public_key) 32).1 p)

  pub put-result :
      (db : r.Db) (k : KeyRecord)
      → ((r.write db (key_puts k) ≡ none) × (put r m db k ≡ err rocks_db))
        ⊎ ((db' : r.Db) × (r.write db (key_puts k) ≡ some db') × (put r m db k ≡ ok db'))
  unfolding put
  put-result db k = elim (Option-cases (r.write db (key_puts k))) [
    | inl refused ↦ inl (refused, rw (m.encode-encoded (key_proto k), refused))
    | inr (db', w) ↦ inr (db', w, rw (m.encode-encoded (key_proto k), w))
  ]

  pub get-after :
      (db db' : r.Db) (k : KeyRecord)
      → r.IsReadable db
      → IsKeyRecord k
      → r.write db (key_puts k) ≡ some db'
      → get r m db' k.version ≡ ok (some k)
  unfolding get found_key put_all
  get-after db db' k readable h w = rw (
    r.get_cf-IsReadable db' cf_keys (u32_key k.version)
        (r.write-IsReadable db db' (key_puts k) w readable),
    r.rows-write db db' (key_puts k) w cf_keys,
    find_row-put_row (u32_key k.version) (m.encoded (key_proto k)) (r.rows db cf_keys),
    decode-encoded k h,
  )

  get-other :
      (db db' : r.Db) (k : KeyRecord) (version : ℕ)
      → r.IsReadable db
      → IsKeyRecord k
      → r.write db (key_puts k) ≡ some db'
      → version < 2 ^ 32
      → version ≢ k.version
      → get r m db' version ≡ get r m db version
  unfolding get put_all
  get-other db db' k version readable h w small ne = rw (
    r.get_cf-IsReadable db' cf_keys (u32_key version)
        (r.write-IsReadable db db' (key_puts k) w readable),
    r.rows-write db db' (key_puts k) w cf_keys,
    r.get_cf-IsReadable db cf_keys (u32_key version) readable,
    find_row-put_row_other (u32_key k.version) (m.encoded (key_proto k)) (u32_key version)
        (r.rows db cf_keys) (λ same. ne (sym (u32_key_injective k.version version h.0 small same))),
  )

  -- In a readable store, for versions of 32 bits: `put` fails exactly by the database refusing it;
  -- or `get` then gives the record at its version, and what it gives at any other version does not
  -- change.
  pub put-get :
      (db : r.Db) (k : KeyRecord)
      → r.IsReadable db
      → IsKeyRecord k
      → ((r.write db (key_puts k) ≡ none) × (put r m db k ≡ err rocks_db))
        ⊎ ((db' : r.Db) × (put r m db k ≡ ok db')
            × (get r m db' k.version ≡ ok (some k))
            × ((version : ℕ)
                → version < 2 ^ 32
                → version ≢ k.version
                → get r m db' version ≡ get r m db version))
  put-get db k readable h = elim (put-result db k) [
    | inl refused ↦ inl refused
    | inr (db', w, wrote) ↦ inr (
      db',
      wrote,
      get-after db db' k readable h w,
      λ version small ne. get-other db db' k version readable h w small ne,
    )
  ]
