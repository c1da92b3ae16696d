-- ===== src/Storage/HeadStore/Examples.antt =====
-- Tests of the head store.
use settled.Prelude.{
  ℕ, ◌^◌, ◌<◌, [], ◌∷◌, ◌++◌, Option, none, some, ◌≡◌, ◌≢◌, ◌⊎◌, refl, arith, length, take, drop,
  take-append_left, drop-append_left, pos, replicate,
}
use settled.Prelude.Results.{ok, err}
use settled.Core.Hash.{Bytes}
use settled.Core.Split.{IsU64}
use settled.Core.Examples.{at}
use settled.Storage.Types.{SignedTreeHead, KeyRecord, KeyRecordProto, SignedTreeHeadProto, rocks_db}
use settled.Storage.Rows.{put_row}
use settled.Storage.Rocks.{put_all}
use settled.Storage.Examples.{table, sign_of, size_of, integer, integer-sign_of}
use settled.Storage.HeadStore.Keys.{key_puts, put-get}
use settled.Storage.HeadStore.{HeadProst, KeyProst, put, get, write, latest, at_size}
use settled.Storage.HeadStore.Writes.{head_puts, write-latest-at_size}

abbrev pub encoded : SignedTreeHeadProto → Bytes
encoded p =
    p.tree_size
      ∷ sign_of p.timestamp_ns
      ∷ size_of p.timestamp_ns
      ∷ p.key_version
      ∷ length p.root_hash
      ∷ length p.signature
      ∷ p.root_hash
    ++ (p.signature ++ p.public_key)

abbrev pub decode : Bytes → Option SignedTreeHeadProto
decode (n ∷ s ∷ t ∷ v ∷ h ∷ g ∷ rest) = some (record {
  tree_size = n;
  root_hash = take h rest;
  timestamp_ns = integer s t;
  signature = take g (drop h rest);
  public_key = drop g (drop h rest);
  key_version = v;
})
decode bs = none

pub decode-encoded : (p : SignedTreeHeadProto) → decode (encoded p) ≡ some p
decode-encoded p = rw (
  integer-sign_of p.timestamp_ns,
  take-append_left p.root_hash (p.signature ++ p.public_key) (length p.root_hash) refl,
  drop-append_left p.root_hash (p.signature ++ p.public_key) (length p.root_hash) refl,
  take-append_left p.signature p.public_key (length p.signature) refl,
  drop-append_left p.signature p.public_key (length p.signature) refl,
)

abbrev pub lengths_first : HeadProst
lengths_first = record {
  encode = λ p. some (encoded p);
  decode = decode;
  encoded = encoded;
  encode-encoded = λ p. refl;
  decode-encoded = λ p n t v. decode-encoded p;
}

abbrev head : ℕ → SignedTreeHead
head n = record {
  tree_size = n;
  root_hash = at 7;
  timestamp_ns = pos 9;
  signature = replicate 64 5;
  public_key = at 1;
  key_version = 1;
}

abbrev two : table.Db
two = λ c. put_all c (head_puts table lengths_first (head 2)) []

write-latest-at_size_example :
    ((table.write two (head_puts table lengths_first (head 3)) ≡ none)
      × (write table lengths_first two (head 3) ≡ err rocks_db))
    ⊎ ((db' : table.Db) × (write table lengths_first two (head 3) ≡ ok db')
        × (latest table lengths_first db' ≡ ok (some (head 3)))
        × (at_size table lengths_first db' 3 ≡ ok (some (head 3)))
        × ((n : ℕ)
            → IsU64 n
            → n ≢ 3
            → at_size table lengths_first db' n ≡ at_size table lengths_first two n))
unfolding put_all put_row
write-latest-at_size_example =
    write-latest-at_size table lengths_first two (head 2 ∷ []) (head 3) tt refl (omega arith, tt)
      (omega arith, omega arith, omega arith, (refl, refl, refl))

abbrev pub encoded_key : KeyRecordProto → Bytes
encoded_key p = p.version ∷ p.activated_at_tree_size ∷ p.public_key

abbrev pub decode_key : Bytes → Option KeyRecordProto
decode_key (v ∷ n ∷ rest) =
    some (record { version = v; public_key = rest; activated_at_tree_size = n })
decode_key bs = none

abbrev pub plain_keys : KeyProst
plain_keys = record {
  encode = λ p. some (encoded_key p);
  decode = decode_key;
  encoded = encoded_key;
  encode-encoded = λ p. refl;
  decode-encoded = λ p v n. refl;
}

abbrev second_key : KeyRecord
second_key = record { version = 2; public_key = at 9; activated_at_tree_size = 3 }

put-get_example :
    ((table.write two (key_puts table plain_keys second_key) ≡ none)
      × (put table plain_keys two second_key ≡ err rocks_db))
    ⊎ ((db' : table.Db) × (put table plain_keys two second_key ≡ ok db')
        × (get table plain_keys db' 2 ≡ ok (some second_key))
        × ((version : ℕ)
            → version < 2 ^ 32
            → version ≢ 2
            → get table plain_keys db' version ≡ get table plain_keys two version))
put-get_example = put-get table plain_keys two second_key tt (omega arith, refl, omega arith)
