-- ===== src/Server/Proofs/Inclusion.antt =====
-- What `inclusion_proof` of the service answers on a sound server.
use settled.Prelude.{
  All, All-take, ℕ, zero, suc, ◌≤◌, ◌<◌, List, [], ◌∷◌, none, some, ◌≡◌, ◌≢◌, ap, sym, ◌∙◌, arith,
  true, length, get_elem?, get_elem?-lt, get_elem?-take, take, length-take, done, le→leb, leb_gt,
}
use settled.Prelude.Results.{ok, err}
use settled.Core.Split.{IsU64}
use settled.Core.Hash.{Hash, IsHash}
use settled.Core.Merkle.{tree_hash}
use settled.Core.Proof.{leaf_index_out_of_range}
use settled.Core.Proof
use settled.Core.Proof.Inclusion.{inclusion_proof-Rebuilds}
use settled.Core.Proof.Verify.{verify_inclusion_iff}
use settled.Storage.Types.{LogEntry, SignedTreeHead}
use settled.Storage.HeadStore.{verify_sth}
use settled.Storage.HeadStore.Lookups.{find_head, last_head}
use settled.Sdk.Verifier
use settled.Sdk.Verifier.SameAsCore.{verify_inclusion-eq_core}
use settled.Server.Deps.{Deps}
use settled.Server.State.{AppState}
use settled.Server.Messages.{InclusionProofResponse, sth_to_proto}
use settled.Server.Status.{
  status_from, not_found_error, invalid_argument_error, proof_error, no_sth_available_yet,
  no_sth_at, seq_out_of_range,
}
use settled.Server.Proofs.{inclusion_proof, inclusion_response}
use settled.Server.Invariant.{leaves_of, length-leaves_of, leaves-IsHash, IsServer}
use settled.Server.Reads.Heads.{
  asked, asked-find_head, size_or_latest-ok, size_or_latest_given, size_or_latest_none,
  leaf_hashes-ok, head_at-ok, head_at-none, IsHonest-find_head, IsHonest-verified,
}

get_elem?-leaves_of :
    (es : List LogEntry) (n : ℕ) (e : LogEntry)
    → get_elem? es n ≡ some e
    → get_elem? (leaves_of es) n ≡ some e.leaf_hash
get_elem?-leaves_of [] n e h = absurd (cc)
get_elem?-leaves_of (x ∷ es) zero e h = let same : x ≡ e = cc in rw same
get_elem?-leaves_of (x ∷ es) (suc n) e h = get_elem?-leaves_of es n e h

abbrev pub inclusion_of : ℕ → SignedTreeHead → List Hash → InclusionProofResponse
inclusion_of seq h path = record {
  leaf_index = seq;
  tree_size = h.tree_size;
  proof = path;
  sth = some (sth_to_proto h);
}

module _ (d : Deps) where
  -- On a sound server, for an entry below the size of the tree head that a request asks for (by its
  -- size, or 0 for the latest), `inclusion_proof` answers with a proof and that tree head, and the
  -- client's `verify_inclusion` accepts the entry's leaf hash, the proof and the head's root; the
  -- head's signature passes the server's and the client's verification.
  pub inclusion_proof-verify_inclusion :
      (s : AppState d) (es : List LogEntry) (hs : List SignedTreeHead) (seq req_size : ℕ)
      (h : SignedTreeHead) (e : LogEntry)
      → IsServer d s es hs
      → asked req_size hs ≡ some h
      → seq < h.tree_size
      → get_elem? es seq ≡ some e
      → (path : List Hash) × (inclusion_proof d s seq req_size
          ≡ done (ok (inclusion_of seq h path)))
        × (Verifier.verify_inclusion d.sha256 e.leaf_hash seq h.tree_size path h.root_hash ≡ true)
        × (verify_sth d.ed25519 h ≡ true)
        × (Verifier.verify_tree_head d.ed25519 h.tree_size h.root_hash h.timestamp_ns h.signature
              h.public_key
            ≡ true)
        × All IsHash path
  unfolding inclusion_proof inclusion_response
  inclusion_proof-verify_inclusion s es hs seq req_size h e v found below at =
      let here = asked-find_head d s es hs v req_size h found in
      let (is_head, honest) = IsHonest-find_head d s es hs v h.tree_size h here in
      let leaves = leaves_of es in
      let size : length (take h.tree_size leaves) ≡ h.tree_size =
        omega (arith, length-take h.tree_size leaves, honest.fits) in
      let (path, made, rebuilds, hashed) =
        inclusion_proof-Rebuilds d.sha256 seq (take h.tree_size leaves) e.leaf_hash
          (omega (arith, size, is_head.0))
          (get_elem?-take h.tree_size seq leaves below ∙ get_elem?-leaves_of es seq e at) in
      let accepted =
        (verify_inclusion_iff d.sha256 e.leaf_hash seq (length (take h.tree_size leaves)) path
            (tree_hash d.sha256 (take h.tree_size leaves))).1
          (omega (arith, size, below), rebuilds) in
      (
        path,
        rw (
          size_or_latest-ok d s es hs v req_size h found,
          leb_gt h.tree_size seq below,
          leaf_hashes-ok d s es hs v h.tree_size,
          made,
          head_at-ok d s es hs v no_sth_at h.tree_size h is_head.0 here,
        ),
        verify_inclusion-eq_core d.sha256 e.leaf_hash seq h.tree_size path h.root_hash
            ∙ ap (Proof.verify_inclusion d.sha256 e.leaf_hash seq h.tree_size path) honest.rooted
            ∙ ap
                (λ n.
                  Proof.verify_inclusion d.sha256 e.leaf_hash seq n path
                    (tree_hash d.sha256 (take h.tree_size leaves)))
                (sym size)
            ∙ accepted,
        (IsHonest-verified d leaves h honest).0,
        (IsHonest-verified d leaves h honest).1,
        hashed d.length_sha256 (All-take IsHash h.tree_size leaves (leaves-IsHash d es v.hashed)),
      )

  proof_out_of_range :
      (leaves : List Hash) (seq : ℕ)
      → length leaves ≤ seq
      → Proof.inclusion_proof d.sha256 leaves seq
        ≡ done (Proof.err (leaf_index_out_of_range seq (length leaves)))
  unfolding Proof.inclusion_proof
  proof_out_of_range leaves seq h = rw (le→leb (length leaves) seq h)

  -- On a sound server, `inclusion_proof` fails in each of these ways, as the code means to: without
  -- any tree head, a request for the latest is not found; an entry at or past the latest head's size,
  -- or the size asked for, is an invalid argument; a size without a tree head is not found when the
  -- log has the entry, and an internal error when it has not.
  pub inclusion_proof-errors :
      (s : AppState d) (es : List LogEntry) (hs : List SignedTreeHead) (seq : ℕ)
      → IsServer d s es hs
      → (hs ≡ []
          → inclusion_proof d s seq 0
            ≡ done (err (status_from (not_found_error no_sth_available_yet))))
        × ((h : SignedTreeHead)
            → last_head hs ≡ some h
            → h.tree_size ≤ seq
            → inclusion_proof d s seq 0
              ≡ done
                  (err (status_from (invalid_argument_error (seq_out_of_range seq h.tree_size)))))
        × ((n : ℕ)
            → n ≢ 0
            → n ≤ seq
            → inclusion_proof d s seq n
              ≡ done (err (status_from (invalid_argument_error (seq_out_of_range seq n)))))
        × ((n : ℕ)
            → IsU64 n
            → seq < n
            → find_head n hs ≡ none
            → seq < length es
            → inclusion_proof d s seq n ≡ done (err (status_from (not_found_error (no_sth_at n)))))
        × ((n : ℕ)
            → seq < n
            → length es ≤ seq
            → inclusion_proof d s seq n
              ≡ done (err (status_from (proof_error (leaf_index_out_of_range seq (length es))))))
  unfolding inclusion_proof inclusion_response
  inclusion_proof-errors s es hs seq v =
      let leaves = leaves_of es in
      (
        λ empty. rw (size_or_latest_none d s es hs v empty),
        λ h last above. rw (size_or_latest-ok d s es hs v 0 h last, le→leb h.tree_size seq above),
        λ n given above. rw (size_or_latest_given d s es hs v n given, le→leb n seq above),
        λ n hn below no_head inside.
            let (x, at) =
              get_elem?-lt (take n leaves) seq
                (omega (arith, length-take n leaves, length-leaves_of es)) in
            let (path, made, rebuilds, hashed) =
              inclusion_proof-Rebuilds d.sha256 seq (take n leaves) x
                (omega (arith, length-take n leaves, hn)) at in
            rw (
              size_or_latest_given d s es hs v n (λ none_asked. omega arith),
              leb_gt n seq below,
              leaf_hashes-ok d s es hs v n,
              made,
              head_at-none d s es hs v no_sth_at n hn no_head,
            ),
        λ n below outside.
            let short : length (take n leaves) ≡ length es =
              omega (arith, length-take n leaves, length-leaves_of es) in
            rw (
              size_or_latest_given d s es hs v n (λ none_asked. omega arith),
              leb_gt n seq below,
              leaf_hashes-ok d s es hs v n,
              proof_out_of_range (take n leaves) seq (omega (arith, short)),
              short,
            ),
      )
