-- ===== src/Server/Proofs.antt =====
-- crates/settled-server/src/service.rs: `inclusion_proof` and `consistency_proof`. Generating a
-- proof may panic, so the result is a `Run`.
pub mod Inclusion
pub mod Consistency
use settled.Prelude.{ℕ, List, [], ◌∷◌, some, ltb, leb, ◌==◌, if◌then◌else◌, map, Run, done, panic}
use settled.Prelude.Results.{Result, ok, err, ◌>>=◌}
use settled.Core.Hash.{Hash}
use settled.Core.Proof
use settled.Storage.LogStore.{seq_range}
use settled.Server.Status.{
  Status, invalid_argument_error, status_from, or_storage, or_proof, seq_out_of_range, no_sth_at,
  no_sth_at_old_size, no_sth_at_new_size, old_size_must_be_positive, old_size_above_new_size,
}
use settled.Server.Messages.{InclusionProofResponse, ConsistencyProofResponse, sth_to_proto}
use settled.Server.Deps.{Deps}
use settled.Server.State.{AppState}
use settled.Server.Reads.{latest_head, head_at}

-- `?` on a result, in code that may panic.
abbrev pub try_run {ℓ κ} :
    {A : Type ℓ} {B : Type κ}
    → Result Status A
    → (A → Run (Result Status B))
    → Run (Result Status B)
try_run (ok a) f = f a
try_run (err e) f = done (err e)

-- The proof, or its error as a status.
abbrev pub proved {ℓ} : {A : Type ℓ} → Run (Proof.Result A) → Run (Result Status A)
proved (done p) = done (or_proof p)
proved panic = panic

abbrev pub after {ℓ κ} :
    {A : Type ℓ} {B : Type κ}
    → Run (Result Status A)
    → (A → Result Status B)
    → Run (Result Status B)
after (done x) f = done (x >>= f)
after panic f = panic

module _ (d : Deps) where
  -- The size asked for, where 0 stands for the latest tree head's.
  unfoldable pub size_or_latest : AppState d → ℕ → Result Status ℕ
  size_or_latest s tree_size =
      if tree_size == 0 then (do sth ← latest_head d s; ok sth.tree_size) else ok tree_size

  -- The leaf hashes that `log.seq_range(0, tree_size)` has.
  unfoldable pub leaf_hashes : AppState d → ℕ → Result Status (List Hash)
  leaf_hashes s tree_size = do
    entries ← or_storage (seq_range d.rocks d.log_messages s.inner 0 tree_size)
    ok (map (λ e. e.leaf_hash) entries)

  -- From the proof on.
  unfoldable pub inclusion_response :
      AppState d → ℕ → ℕ → List Hash → Run (Result Status InclusionProofResponse)
  inclusion_response s seq tree_size leaves =
      after (proved (Proof.inclusion_proof d.sha256 leaves seq)) (λ path. do
        sth ← head_at d no_sth_at s tree_size
        ok (record {
          leaf_index = seq;
          tree_size = tree_size;
          proof = path;
          sth = some (sth_to_proto sth);
        }))

  unfoldable pub inclusion_proof : AppState d → ℕ → ℕ → Run (Result Status InclusionProofResponse)
  inclusion_proof s seq req_size = try_run (size_or_latest s req_size) (λ tree_size.
      let answer = try_run (leaf_hashes s tree_size) (inclusion_response s seq tree_size) in
      if leb tree_size seq
      then done (err (status_from (invalid_argument_error (seq_out_of_range seq tree_size))))
      else answer)

  unfoldable pub consistency_response :
      AppState d → ℕ → ℕ → List Hash → Run (Result Status ConsistencyProofResponse)
  consistency_response s old_size new_size leaves =
      after (proved (Proof.consistency_proof d.sha256 leaves old_size)) (λ path. do
        old_sth ← head_at d no_sth_at_old_size s old_size
        new_sth ← head_at d no_sth_at_new_size s new_size
        ok (record {
          old_size = old_size;
          new_size = new_size;
          proof = path;
          old_sth = some (sth_to_proto old_sth);
          new_sth = some (sth_to_proto new_sth);
        }))

  unfoldable pub consistency_proof :
      AppState d → ℕ → ℕ → Run (Result Status ConsistencyProofResponse)
  consistency_proof s old_size req_size =
      let sized = try_run (size_or_latest s req_size) (λ new_size.
        let answer = try_run (leaf_hashes s new_size) (consistency_response s old_size new_size) in
        if ltb new_size old_size
        then done
            (err (status_from (invalid_argument_error (old_size_above_new_size old_size new_size))))
        else answer) in
      if old_size == 0
      then done (err (status_from (invalid_argument_error old_size_must_be_positive)))
      else sized
