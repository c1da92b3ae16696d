-- ===== src/Storage/HeadStore/Writes.antt =====
-- A tree head or a key that is written is read back.
use settled.Prelude.{
  ℕ, ◌^◌, ◌<◌, List, [], ◌∷◌, ◌++◌, none, some, ◌≡◌, ◌≢◌, ◌⊎◌, inl, inr, refl, sym, arith, true,
  Option-cases, length, map, All, IsI64, ltb_ge, ==_iff,
}
use mathlib.Core.List.{reverse, reverse-append}
use settled.Prelude.Results.{ok, err}
use settled.Core.Hash.{Bytes}
use settled.Core.Split.{IsU64}
use settled.Core.Ed25519.{Ed25519}
use settled.Core.Sth.{signing_payload, sign_tree_head}
use settled.Storage.Types.{SignedTreeHead, signed_tree_head_proto_from, rocks_db}
use settled.Storage.Types.RoundTrip.{
  IsSignedTreeHead, signed_tree_head_try_from-signed_tree_head_proto_from,
}
use settled.Storage.Rows.{Row, u64_key, put_row, rows_in, end}
use settled.Storage.Rows.BigEndian.{lex_lt-u64_key}
use settled.Storage.Rows.Put.{find_row-put_row, find_row-put_row_other, bytes_eq_ne}
use settled.Storage.Rocks.{Rocks, Put, put_all, cf_heads}
use settled.Storage.LogStore.Reads.{u64_key_injective}
use settled.Storage.HeadStore.{
  HeadProst, head_of_value, write, first_head, latest, found_head, at_size, verify_sth,
  verify_with_key,
}

-- What the types of the fields say.
abbrev pub IsHead : SignedTreeHead → Type 0
IsHead s = IsU64 s.tree_size × IsI64 s.timestamp_ns × (s.key_version < 2 ^ 32) × IsSignedTreeHead s

head_proto_ranges :
    (s : SignedTreeHead)
    → IsHead s
    → IsU64 (signed_tree_head_proto_from s).tree_size
      × IsI64 (signed_tree_head_proto_from s).timestamp_ns
      × ((signed_tree_head_proto_from s).key_version < 2 ^ 32)
unfolding signed_tree_head_proto_from
head_proto_ranges s (n, t, v, h) = (n, t, v)

module _ (r : Rocks) (m : HeadProst) where
  abbrev pub head_row : SignedTreeHead → Row
  head_row s = (u64_key s.tree_size, m.encoded (signed_tree_head_proto_from s))

  abbrev pub head_puts : SignedTreeHead → List Put
  head_puts s =
      record {
        cf = cf_heads;
        key = u64_key s.tree_size;
        value = m.encoded (signed_tree_head_proto_from s);
      }
      ∷ []

  pub head_of_value-encoded :
      (s : SignedTreeHead)
      → IsHead s
      → head_of_value r m (m.encoded (signed_tree_head_proto_from s)) ≡ ok s
  unfolding head_of_value
  head_of_value-encoded s h =
      let (n, t, v) = head_proto_ranges s h in
      rw (m.decode-encoded (signed_tree_head_proto_from s) n t v)
        (signed_tree_head_try_from-signed_tree_head_proto_from s h.3)

  pub put_row-larger :
      (n : ℕ) (v : Bytes) (hs : List SignedTreeHead)
      → IsU64 n
      → All (λ h. h.tree_size < n) hs
      → put_row (u64_key n) v (map head_row hs) ≡ map head_row hs ++ (u64_key n, v) ∷ []
  unfolding put_row
  put_row-larger n v [] hn all = refl
  put_row-larger n v (h ∷ hs) hn (lt, all) =
      let hh : IsU64 h.tree_size = omega arith in
      let differ : h.tree_size ≢ n = (λ same. omega arith) in
      rw (
        lex_lt-u64_key n h.tree_size hn hh,
        ltb_ge n h.tree_size (omega arith),
        bytes_eq_ne (u64_key h.tree_size) (u64_key n)
            (λ same. differ (u64_key_injective h.tree_size n hh hn same)),
        put_row-larger n v hs hn all,
      )

  pub first_head-last :
      (hs : List SignedTreeHead) (s : SignedTreeHead)
      → IsHead s
      → first_head r m (map some (reverse (map head_row hs ++ head_row s ∷ []))) ≡ ok (some s)
  unfolding first_head
  first_head-last hs s h =
      rw (reverse-append (map head_row hs) (head_row s ∷ []), head_of_value-encoded s h)

  pub write-ok :
      (db : r.Db) (s : SignedTreeHead) (db' : r.Db)
      → r.write db (head_puts s) ≡ some db'
      → write r m db s ≡ ok db'
  unfolding write
  write-ok db s db' w = rw (m.encode-encoded (signed_tree_head_proto_from s), w)

  pub write-refused :
      (db : r.Db) (s : SignedTreeHead)
      → r.write db (head_puts s) ≡ none
      → write r m db s ≡ err rocks_db
  unfolding write
  write-refused db s w = rw (m.encode-encoded (signed_tree_head_proto_from s), w)

  at_size-after :
      (db db' : r.Db) (s : SignedTreeHead)
      → r.IsReadable db
      → IsHead s
      → r.write db (head_puts s) ≡ some db'
      → at_size r m db' s.tree_size ≡ ok (some s)
  unfolding at_size found_head put_all
  at_size-after db db' s readable h w = rw (
    r.get_cf-IsReadable db' cf_heads (u64_key s.tree_size)
        (r.write-IsReadable db db' (head_puts s) w readable),
    r.rows-write db db' (head_puts s) w cf_heads,
    find_row-put_row (u64_key s.tree_size) (m.encoded (signed_tree_head_proto_from s))
        (r.rows db cf_heads),
    head_of_value-encoded s h,
  )

  at_size-other :
      (db db' : r.Db) (s : SignedTreeHead) (n : ℕ)
      → r.IsReadable db
      → IsHead s
      → r.write db (head_puts s) ≡ some db'
      → IsU64 n
      → n ≢ s.tree_size
      → at_size r m db' n ≡ at_size r m db n
  unfolding at_size put_all
  at_size-other db db' s n readable h w hn ne = rw (
    r.get_cf-IsReadable db' cf_heads (u64_key n)
        (r.write-IsReadable db db' (head_puts s) w readable),
    r.rows-write db db' (head_puts s) w cf_heads,
    r.get_cf-IsReadable db cf_heads (u64_key n) readable,
    find_row-put_row_other (u64_key s.tree_size) (m.encoded (signed_tree_head_proto_from s))
        (u64_key n) (r.rows db cf_heads)
        (λ same. ne (sym (u64_key_injective s.tree_size n h.0 hn same))),
  )

  latest-after :
      (db db' : r.Db) (hs : List SignedTreeHead) (s : SignedTreeHead)
      → r.IsReadable db
      → r.rows db cf_heads ≡ map head_row hs
      → All (λ h. h.tree_size < s.tree_size) hs
      → IsHead s
      → r.write db (head_puts s) ≡ some db'
      → latest r m db' ≡ ok (some s)
  unfolding latest put_all rows_in
  latest-after db db' hs s readable rows smaller h w =
      rw
        (
          r.iterator_cf-IsReadable db' cf_heads end
              (r.write-IsReadable db db' (head_puts s) w readable),
          r.rows-write db db' (head_puts s) w cf_heads,
          rows,
          put_row-larger s.tree_size (m.encoded (signed_tree_head_proto_from s)) hs h.0 smaller,
        )
        (first_head-last hs s h)

  -- In a readable store of smaller heads, `write` fails exactly by the database refusing it; or the
  -- new head is then the `latest`, `at_size` gives it at its size, and what it
  -- gives at any other size does not change.
  pub write-latest-at_size :
      (db : r.Db) (hs : List SignedTreeHead) (s : SignedTreeHead)
      → r.IsReadable db
      → r.rows db cf_heads ≡ map head_row hs
      → All (λ h. h.tree_size < s.tree_size) hs
      → IsHead s
      → ((r.write db (head_puts s) ≡ none) × (write r m db s ≡ err rocks_db))
        ⊎ ((db' : r.Db) × (write r m db s ≡ ok db')
            × (latest r m db' ≡ ok (some s))
            × (at_size r m db' s.tree_size ≡ ok (some s))
            × ((n : ℕ) → IsU64 n → n ≢ s.tree_size → at_size r m db' n ≡ at_size r m db n))
  write-latest-at_size db hs s readable rows smaller h =
      elim (Option-cases (r.write db (head_puts s))) [
        | inl refused ↦ inl (refused, write-refused db s refused)
        | inr (db', w) ↦ inr (
          db',
          write-ok db s db' w,
          latest-after db db' hs s readable rows smaller h w,
          at_size-after db db' s readable h w,
          λ n hn ne. at_size-other db db' s n readable h w hn ne,
        )
      ]

-- A tree head with the signer's public key and `sign_tree_head`'s signature passes `verify_sth`.
pub verify_sth-sign_tree_head :
    (e : Ed25519) (key : e.SigningKey) (s : SignedTreeHead)
    → s.signature ≡ sign_tree_head e key s.tree_size s.root_hash s.timestamp_ns
    → s.public_key ≡ e.to_bytes (e.verifying_key key)
    → verify_sth e s ≡ true
unfolding verify_sth verify_with_key sign_tree_head
verify_sth-sign_tree_head e key s signed by = rw (
  by,
  e.from_bytes-to_bytes (e.verifying_key key),
  signed,
  (==_iff (length (e.sign key (signing_payload s.tree_size s.root_hash s.timestamp_ns))) 64).1
      (e.length-sign key (signing_payload s.tree_size s.root_hash s.timestamp_ns)),
  e.verify_strict-sign key (signing_payload s.tree_size s.root_hash s.timestamp_ns),
)
