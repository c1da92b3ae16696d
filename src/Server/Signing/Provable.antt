-- ===== src/Server/Signing/Provable.antt =====
-- A tree head is signed, and then every entry has a proof.
use settled.Prelude.{
  ℕ, ◌<◌, ◌^◌, List, [], ◌∷◌, ◌++◌, none, some, ◌≡◌, ◌⊎◌, inl, inr, arith, true, length, get_elem?,
  get_elem?-lt_length, ℤ, IsI64, done,
}
use settled.Prelude.Results.{ok, err}
use settled.Core.Hash.{Hash}
use settled.Storage.Types.{LogEntry, SignedTreeHead, rocks_db}
use settled.Storage.HeadStore.Writes.{head_puts}
use settled.Sdk.Verifier
use settled.Server.Deps.{Deps}
use settled.Server.State.{AppState}
use settled.Server.Signing.{sign_and_store}
use settled.Server.Signing.Keep.{head_of, IsCovered, sign_and_store-IsServer}
use settled.Server.Proofs.{inclusion_proof}
use settled.Server.Proofs.Inclusion.{inclusion_of, inclusion_proof-verify_inclusion}
use settled.Server.Invariant.{IsServer}

module _ (d : Deps) where
  -- An entry's proof against the latest tree head, which is of the log's length and has a signature
  -- that the client accepts.
  abbrev pub HasProof : AppState d → ℕ → List LogEntry → LogEntry → Type 0
  HasProof s seq es e =
      (h : SignedTreeHead) × (path : List Hash) × (h.tree_size ≡ length es)
      × (inclusion_proof d s seq 0 ≡ done (ok (inclusion_of seq h path)))
      × (Verifier.verify_inclusion d.sha256 e.leaf_hash seq h.tree_size path h.root_hash ≡ true)
      × (Verifier.verify_tree_head d.ed25519 h.tree_size h.root_hash h.timestamp_ns h.signature
            h.public_key
          ≡ true)

  covered-HasProof :
      (s : AppState d) (es : List LogEntry) (hs : List SignedTreeHead) (seq : ℕ) (e : LogEntry)
      → IsServer d s es hs
      → get_elem? es seq ≡ some e
      → IsCovered (length es) hs
      → HasProof s seq es e
  covered-HasProof s es hs seq e v at (inl empty) =
      absurd (omega (arith, get_elem?-lt_length es seq e at))
  covered-HasProof s es hs seq e v at (inr (h, last, same)) =
      let inside = get_elem?-lt_length es seq e at in
      let (path, answer, accepted, strictly, signed, nodes) =
        inclusion_proof-verify_inclusion d s es hs seq 0 h e v last (omega (arith, same, inside))
          at in
      (h, path, same, answer, accepted, signed)

  -- On a sound server with a clock of 64 bits and a key version of 32, for every entry of the log:
  -- `sign_and_store` fails exactly by the database refusing the new tree head; or it leaves a sound
  -- server where a request for a proof of the entry in the latest tree is answered, with a tree head
  -- of the whole log, and the client accepts the proof and the tree head's signature.
  pub sign_and_store-HasProof :
      (t : ℤ) (s : AppState d) (es : List LogEntry) (hs : List SignedTreeHead) (seq : ℕ)
      (e : LogEntry)
      → IsServer d s es hs
      → IsI64 t
      → s.signer.version < 2 ^ 32
      → get_elem? es seq ≡ some e
      → ((d.rocks.write s.inner.db (head_puts d.rocks d.head_messages (head_of d s es t)) ≡ none)
          × (sign_and_store d t s ≡ done (err rocks_db)))
        ⊎ ((s' : AppState d) × (hs' : List SignedTreeHead) × (sign_and_store d t s ≡ done (ok s'))
            × IsServer d s' es hs'
            × HasProof s' seq es e)
  sign_and_store-HasProof t s es hs seq e v ht hv at =
      elim (sign_and_store-IsServer d t s es hs v ht hv) [
        | inl (covered, result) ↦
            inr (s, hs, result, v, covered-HasProof s es hs seq e v at covered)
        | inr (inl refused) ↦ inl refused
        | inr (inr (s', result, v', covered)) ↦ inr (
          s',
          hs ++ head_of d s es t ∷ [],
          result,
          v',
          covered-HasProof s' es (hs ++ head_of d s es t ∷ []) seq e v' at covered,
        )
      ]
