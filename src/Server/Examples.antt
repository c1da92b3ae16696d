-- ===== src/Server/Examples.antt =====
-- Small servers: over the table of the storage's tests, with numbers for the limiter's tokens.
mod Appending
mod Proving
mod Starting
use settled.Prelude.{
  ℕ, ◌+◌, ◌-◌, ◌*◌, ◌/◌, ◌≤◌, List, [], ◌∷◌, ◌++◌, Option, none, some, Bool, true, leb, ◌≡◌, refl,
  arith, min, pos, ℤ, be_bytes, le→leb, Run, done, ltb, if◌then◌else◌,
}
use mathlib.Core.Path.{subst}
use settled.Core.Hash.{Bytes, Hash, leaf_hash}
use settled.Core.Merkle.{MerkleTree, append_all, append, new}
use settled.Core.Merkle.Tree.{IsTreeOf, IsTreeOf-new}
use settled.Core.Merkle.Incremental.{append_all-IsTreeOf}
use settled.Core.Examples.{toy, toy_length, one_key, the_key}
use settled.Storage.Rows.{Rows, put_row}
use settled.Storage.Rocks.{ColumnFamily, put_all, cf_default}
use settled.Storage.Database.{schema_version_key}
use settled.Storage.Types.{LogEntry, SignedTreeHead}
use settled.Storage.Examples.{table, lengths_first}
use settled.Storage.HeadStore.Examples.{plain_keys}
use settled.Storage.HeadStore.Examples as Heads
use settled.Storage.HeadStore.Writes.{head_puts}
use settled.Server.RateLimit.{Floats, Bucket}
use settled.Server.RateLimit
use settled.Server.Deps.{Deps}
use settled.Server.State.{AppState}
use settled.Server.Messages.{AppendRequest}
use settled.Server.Signing.{signed_head}
use settled.Server.Signing.Keep.{
  head_of, head_of-IsHead, head_of-IsHonest, with_head, with_head-IsServer,
}
use settled.Server.Appends.Keep.{entry_of, puts_for, with_entry, with_entry-IsServer}
use settled.Server.Invariant.{leaves_of, IsServer}

leb_true : (a b : ℕ) → leb a b ≡ true → a ≤ b
leb_true a b h = ground arith

pub leb_own : (x : ℕ) → leb x x ≡ true
leb_own x = le→leb x x (omega arith)

pub leb_zero : (x : ℕ) → leb 0 x ≡ true
leb_zero x = le→leb 0 x (omega arith)

pub min-leb : (x y : ℕ) → leb (min x y) y ≡ true
min-leb x y = le→leb (min x y) y (omega arith)

pub sub-leb : (x y z : ℕ) → leb 0 y ≡ true → leb x z ≡ true → leb (x - y) z ≡ true
sub-leb x y z h h' = le→leb (x - y) z (omega (arith, leb_true x z h'))

abbrev pub natural_floats : Floats
natural_floats = record {
  F64 = ℕ;
  of_u32 = λ n. n;
  add = λ x y. x + y;
  sub = λ x y. x - y;
  mul = λ x y. x * y;
  min = λ x y. min x y;
  leb = λ x y. leb x y;
  as_secs_f64 = λ n. n / 1000000000;
  leb_refl = leb_own;
  leb-of_u32 = leb_zero;
  leb-as_secs_f64 = λ n. leb_zero (n / 1000000000);
  leb-add = λ x y h h'. leb_zero (x + y);
  leb-mul = λ x y h h'. leb_zero (x * y);
  leb-min = λ x y h h'. leb_zero (min x y);
  min-leb = min-leb;
  leb-sub = λ x y h. leb_zero (x - y);
  sub-leb = sub-leb;
}

abbrev pub deps : Deps
deps = record {
  rocks = table;
  log_messages = lengths_first;
  head_messages = Heads.lengths_first;
  key_messages = plain_keys;
  ed25519 = one_key;
  floats = natural_floats;
  sha256 = toy;
  length_sha256 = toy_length;
  hex_encode = λ bytes. bytes;
}

abbrev pub full_bucket : Bucket natural_floats
full_bucket = record { tokens = 5; capacity = 5; rate = 5; last = 0 }

abbrev pub clock : ℤ
clock = pos 9

-- The rows of a new database: the schema version.
abbrev pub new_db : ColumnFamily → Rows
new_db c =
    put_all c (record { cf = cf_default; key = schema_version_key; value = be_bytes 4 1 } ∷ []) []

abbrev pub empty_server : AppState deps
empty_server = record {
  inner = record { db = new_db; next_seq = 0 };
  merkle = record { frontier = []; size = 0 };
  signer = record { key = the_key; version = 1 };
  key_file = some (one_key.signing_key_bytes the_key);
  max_get_latest = 1000;
  rate_limiter = some full_bucket;
  sent = [];
}

empty_tree : IsTreeOf toy [] empty_server.merkle
unfolding new
empty_tree = IsTreeOf-new toy

pub empty_server-IsServer : IsServer deps empty_server [] []
unfolding put_all
empty_server-IsServer = record {
  log = (tt, refl, tt, tt, refl, omega arith);
  tree = empty_tree;
  hashed = tt;
  head_rows = refl;
  heads = tt;
  ascending = tt;
  honest = tt;
}

abbrev pub request : AppendRequest
request = record { key = 1 ∷ []; data_bytes = 2 ∷ 3 ∷ [] }

abbrev pub first_entry : LogEntry
first_entry = entry_of deps clock 0 request

abbrev pub first_tree : MerkleTree
first_tree = record { frontier = leaf_hash toy (2 ∷ 3 ∷ []) ∷ []; size = 1 }

first_append : append_all toy new (leaves_of (first_entry ∷ [])) ≡ done first_tree
unfolding append_all append new leaf_hash
first_append = refl

done_injective : (a b : MerkleTree) → done a ≡ done b → a ≡ b
done_injective a b e = cc

pub first_tree-IsTreeOf : IsTreeOf toy (leaves_of (first_entry ∷ [])) first_tree
first_tree-IsTreeOf =
    let (t, runs, tree) =
      append_all-IsTreeOf toy (leaves_of (first_entry ∷ [])) [] new (IsTreeOf-new toy)
        (omega arith) in
    let same : t ≡ first_tree = done_injective t first_tree (cc (runs, first_append)) in
    subst (IsTreeOf toy (leaves_of (first_entry ∷ []))) same tree

abbrev pub first_db : ColumnFamily → Rows
first_db c = put_all c (puts_for deps clock 0 request) (new_db c)

abbrev pub one_server : AppState deps
one_server = with_entry deps empty_server request clock 0 first_db first_tree

pub one_server-IsServer : IsServer deps one_server (first_entry ∷ []) []
unfolding put_all put_row leaf_hash
one_server-IsServer =
    with_entry-IsServer deps empty_server [] [] request clock first_db first_tree
      empty_server-IsServer refl
      (
        tt,
        refl,
        ((omega arith, omega arith, toy_length (0 ∷ 2 ∷ 3 ∷ [])), tt),
        (refl, tt),
        refl,
        omega arith,
      )
      first_tree-IsTreeOf

abbrev pub first_head : SignedTreeHead
first_head = head_of deps one_server (first_entry ∷ []) clock

abbrev pub headed_db : ColumnFamily → Rows
headed_db c = put_all c (head_puts table Heads.lengths_first first_head) (first_db c)

-- One entry, and one tree head of it.
abbrev pub headed_server : AppState deps
headed_server = with_head deps one_server headed_db

pub headed_server-IsServer : IsServer deps headed_server (first_entry ∷ []) (first_head ∷ [])
headed_server-IsServer =
    with_head-IsServer deps one_server (first_entry ∷ []) [] first_head headed_db
      one_server-IsServer
      (head_of-IsHead deps one_server (first_entry ∷ []) [] clock one_server-IsServer (omega arith)
        (omega arith) (omega arith))
      (head_of-IsHonest deps one_server (first_entry ∷ []) clock (omega arith)) tt refl
