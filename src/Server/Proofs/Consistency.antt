-- ===== src/Server/Proofs/Consistency.antt =====
-- What `consistency_proof` of the service answers on a sound server.
use settled.Prelude.{
  ◌^◌, ℕ, ◌≤◌, ◌<◌, List, some, ◌≡◌, ap, sym, ◌∙◌, arith, true, length, take, take-take,
  length-take, done, ltb_ge, ==_ne,
}
use settled.Prelude.Results.{ok}
use settled.Core.Split.{IsU64}
use settled.Core.Hash.{Hash}
use settled.Core.Merkle.{tree_hash}
use settled.Core.Merkle.Mth.{mth-eq-tree_hash}
use settled.Core.Proof
use settled.Core.Proof.Consistency.{consistency_complete}
use settled.Storage.Types.{LogEntry, SignedTreeHead}
use settled.Storage.HeadStore.Lookups.{find_head, All-find_head}
use settled.Storage.HeadStore.Writes.{IsHead}
use settled.Sdk.Verifier
use settled.Sdk.Verifier.SameAsCore.{verify_consistency-eq_small}
use settled.Server.Deps.{Deps}
use settled.Server.State.{AppState}
use settled.Server.Messages.{ConsistencyProofResponse, sth_to_proto}
use settled.Server.Status.{no_sth_at_old_size, no_sth_at_new_size}
use settled.Server.Proofs.{consistency_proof, consistency_response}
use settled.Server.Invariant.{leaves_of, IsServer, IsHonest}
use settled.Server.Reads.Heads.{
  asked, asked-find_head, size_or_latest-ok, leaf_hashes-ok, head_at-ok, IsHonest-find_head,
}

done_injective : {A : Type 0} (a b : A) → done a ≡ done b → a ≡ b
done_injective a b e = cc

some_injective : {A : Type 0} (a b : A) → some a ≡ some b → a ≡ b
some_injective a b e = cc

abbrev pub consistency_of : SignedTreeHead → SignedTreeHead → List Hash → ConsistencyProofResponse
consistency_of old_head new_head path = record {
  old_size = old_head.tree_size;
  new_size = new_head.tree_size;
  proof = path;
  old_sth = some (sth_to_proto old_head);
  new_sth = some (sth_to_proto new_head);
}

module _ (d : Deps) where
  -- The proof between two prefixes of the leaves, and the client's verdict on it.
  proof-accepted :
      (leaves : List Hash) (m n : ℕ)
      → IsU64 n
      → 0 < m
      → m ≤ n
      → n ≤ length leaves
      → (path : List Hash) × (Proof.consistency_proof d.sha256 (take n leaves) m
          ≡ done (Proof.ok path))
        × (Proof.verify_consistency d.sha256 m n path
              (tree_hash d.sha256 (take m leaves))
              (tree_hash d.sha256 (take n leaves))
            ≡ done true)
  proof-accepted leaves m n hn pos' le fits =
      let xs = take n leaves in
      let size : length xs ≡ n = omega (arith, length-take n leaves) in
      let (path, old_root, new_root, made, old_mth, new_mth, accepted) =
        consistency_complete d.sha256 xs m (omega (arith, size, hn)) pos' (omega (arith, size)) in
      let old_hash =
        mth-eq-tree_hash d.sha256 (take m xs) (omega (arith, length-take m xs, size))
          (omega (arith, length-take m xs, size, hn)) in
      let new_hash = mth-eq-tree_hash d.sha256 xs (omega (arith, size)) (omega (arith, size, hn)) in
      let old_is : old_root ≡ tree_hash d.sha256 (take m leaves) =
        some_injective old_root (tree_hash d.sha256 (take m xs)) (
          done_injective (some old_root) (some (tree_hash d.sha256 (take m xs)))
            (sym old_mth ∙ old_hash))
        ∙ ap (tree_hash d.sha256) (take-take m n leaves le) in
      let new_is : new_root ≡ tree_hash d.sha256 xs =
        some_injective new_root (tree_hash d.sha256 xs) (
          done_injective (some new_root) (some (tree_hash d.sha256 xs)) (sym new_mth ∙ new_hash)) in
      let same =
        ap (λ k. Proof.verify_consistency d.sha256 m k path old_root new_root) (sym size)
        ∙ accepted in
      (
        path,
        made,
        ap (λ r. Proof.verify_consistency d.sha256 m n path r (tree_hash d.sha256 xs)) (sym old_is)
            ∙ ap (λ r. Proof.verify_consistency d.sha256 m n path old_root r) (sym new_is)
            ∙ same,
      )

  old_facts :
      (s : AppState d) (es : List LogEntry) (hs : List SignedTreeHead) (n : ℕ) (h : SignedTreeHead)
      → IsServer d s es hs
      → find_head n hs ≡ some h
      → IsHead h × IsHonest d (leaves_of es) h × (h.tree_size ≡ n)
  old_facts s es hs n h v found =
      let (is_head, honest) = IsHonest-find_head d s es hs v n h found in
      (is_head, honest, (All-find_head IsHead n hs h v.heads found).1)

  -- On a sound server, for the tree head of an old size and the one that a request asks for as the
  -- new (by its size, or 0 for the latest), not a smaller one and not above 2^63, `consistency_proof` answers with a
  -- proof and the two tree heads, and the client's `verify_consistency` accepts the proof for
  -- their two roots.
  pub consistency_proof-verify_consistency :
      (s : AppState d) (es : List LogEntry) (hs : List SignedTreeHead) (old_size req_size : ℕ)
      (old_head new_head : SignedTreeHead)
      → IsServer d s es hs
      → find_head old_size hs ≡ some old_head
      → asked req_size hs ≡ some new_head
      → old_size ≤ new_head.tree_size
      → new_head.tree_size ≤ 2 ^ 63
      → (path : List Hash) × (consistency_proof d s old_size req_size
          ≡ done (ok (consistency_of old_head new_head path)))
        × (Verifier.verify_consistency d.sha256 old_size new_head.tree_size path old_head.root_hash
              new_head.root_hash
            ≡ done true)
  unfolding consistency_proof consistency_response
  consistency_proof-verify_consistency s es hs old_size req_size old_head new_head v found asked_for
        le most =
      let here = asked-find_head d s es hs v req_size new_head asked_for in
      let (old_is, old_honest, at) = old_facts s es hs old_size old_head v found in
      let (new_is, new_honest) = IsHonest-find_head d s es hs v new_head.tree_size new_head here in
      let leaves = leaves_of es in
      let (path, made, accepted) =
        proof-accepted leaves old_size new_head.tree_size new_is.0
          (omega (arith, at, old_honest.some_leaves)) le new_honest.fits in
      (
        path,
        rw (
          ==_ne old_size 0 (λ z. omega (arith, at, old_honest.some_leaves)),
          size_or_latest-ok d s es hs v req_size new_head asked_for,
          ltb_ge new_head.tree_size old_size le,
          leaf_hashes-ok d s es hs v new_head.tree_size,
          made,
          head_at-ok d s es hs v no_sth_at_old_size old_size old_head (omega (arith, at, old_is.0))
              found,
          head_at-ok d s es hs v no_sth_at_new_size new_head.tree_size new_head new_is.0 here,
          ← at,
        ),
        verify_consistency-eq_small d.sha256 old_size new_head.tree_size path old_head.root_hash
              new_head.root_hash most
            ∙ ap
                (λ r.
                  Proof.verify_consistency d.sha256 old_size new_head.tree_size path r
                    new_head.root_hash)
                (old_honest.rooted ∙ ap (λ n. tree_hash d.sha256 (take n leaves)) at)
            ∙ ap
                (Proof.verify_consistency d.sha256 old_size new_head.tree_size path
                  (tree_hash d.sha256 (take old_size leaves)))
                new_honest.rooted
            ∙ accepted,
      )
