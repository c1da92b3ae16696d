-- ===== src/Check.antt =====
-- crates/settled-check/src/main.rs: `cmd_verify`, from the client that it has connected. What it
-- prints is not modelled; its answer is the leaf index that it prints for an entry.
pub mod Accepts
mod Examples
use settled.Prelude.{ℕ, List, [], ◌∷◌, Option, none, some, Bool, if◌then◌else◌}
use settled.Prelude.Results.{Result, ok, err, ◌>>=◌, ok_or}
use settled.Core.Hash.{Bytes, Hash}
use settled.Core.Ed25519.{Ed25519}
use settled.Storage.Types.{to_array}
use settled.Sdk.Verifier.{verify_inclusion, verify_tree_head}
use settled.Sdk.Client.{
  ClientError, SettledClient, SignedTreeHead, InclusionProofResult, get_sth, get, inclusion_proof,
}

pub data CheckError : Type 0 where
  client_error : ClientError → CheckError
  root_hash_must_be_32_bytes : CheckError
  tree_head_failed : CheckError
  proof_node_must_be_32_bytes : CheckError
  leaf_hash_must_be_32_bytes : CheckError
  inclusion_failed : ℕ → CheckError

-- `.context(…)?` on a call of the client.
abbrev pub called {ℓ} : {A : Type ℓ} → Result ClientError A → Result CheckError A
called (ok a) = ok a
called (err e) = err (client_error e)

-- The `collect` of the proof's nodes.
unfoldable pub proof_nodes : List Bytes → Result CheckError (List Hash)
proof_nodes [] = ok []
proof_nodes (h ∷ hs) = do
  node ← ok_or (to_array 32 h) proof_node_must_be_32_bytes
  nodes ← proof_nodes hs
  ok (node ∷ nodes)

module _ (e : Ed25519) (sha256 : Bytes → Hash) (c : SettledClient) where
  -- `if let Some(seq_num) = seq`.
  unfoldable pub check_entry : SignedTreeHead → Hash → Option ℕ → Result CheckError (Option ℕ)
  check_entry sth root none = ok none
  check_entry sth root (some seq_num) = do
    proof_res ← called (inclusion_proof c seq_num sth.tree_size)
    path ← proof_nodes proof_res.proof
    entry ← called (get c seq_num)
    leaf ← ok_or (to_array 32 entry.leaf_hash) leaf_hash_must_be_32_bytes
    if verify_inclusion sha256 leaf proof_res.leaf_index sth.tree_size path root
        then ok (some proof_res.leaf_index)
        else err (inclusion_failed seq_num)

  unfoldable pub cmd_verify : Option ℕ → Result CheckError (Option ℕ)
  cmd_verify seq = do
    sth ← called (get_sth c 0)
    root ← ok_or (to_array 32 sth.root_hash) root_hash_must_be_32_bytes
    if verify_tree_head e sth.tree_size root sth.timestamp_ns sth.signature sth.public_key
        then check_entry sth root seq
        else err tree_head_failed
