-- ===== src/Storage/Types/RoundTrip.antt =====
-- What is stored of an entry or a tree head comes back.
use settled.Prelude.{◌≡◌, length, ==_iff}
use settled.Prelude.Results.{ok}
use settled.Core.Hash.{IsHash}
use settled.Storage.Types.{
  LogEntry, log_entry_try_from, log_entry_proto_from, SignedTreeHead, signed_tree_head_try_from,
  signed_tree_head_proto_from,
}

pub log_entry_try_from-log_entry_proto_from :
    (e : LogEntry) → IsHash e.leaf_hash → log_entry_try_from (log_entry_proto_from e) ≡ ok e
unfolding log_entry_try_from log_entry_proto_from
log_entry_try_from-log_entry_proto_from e h = rw ((==_iff (length e.leaf_hash) 32).1 h)

abbrev pub IsSignedTreeHead : SignedTreeHead → Type 0
IsSignedTreeHead s = IsHash s.root_hash × (length s.signature ≡ 64) × (length s.public_key ≡ 32)

pub signed_tree_head_try_from-signed_tree_head_proto_from :
    (s : SignedTreeHead)
    → IsSignedTreeHead s
    → signed_tree_head_try_from (signed_tree_head_proto_from s) ≡ ok s
unfolding signed_tree_head_try_from signed_tree_head_proto_from
signed_tree_head_try_from-signed_tree_head_proto_from s (r, g, p) = rw (
  (==_iff (length s.root_hash) 32).1 r,
  (==_iff (length s.signature) 64).1 g,
  (==_iff (length s.public_key) 32).1 p,
)
