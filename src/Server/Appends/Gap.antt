-- ===== src/Server/Appends/Gap.antt =====
-- What `append` does after a write that the database refused.
use settled.Prelude.{
  ℕ, true, ◌≤◌, ◌+◌, ◌^◌, ◌<◌, List, [], ◌∷◌, ◌++◌, none, some, ◌≡◌, refl, arith, length, ℤ, done,
  ==_ne, le→leb,
}
use settled.Prelude.Results.{ok, err}
use settled.Core.Hash.{leaf_hash}
use settled.Core.Merkle.Tree.{IsTreeOf, append-IsTreeOf}
use settled.Storage.Types.{LogEntry, SignedTreeHead, rocks_db}
use settled.Storage.LogStore.Appends.{counted, append-written, append-refused}
use settled.Server.Deps.{Deps}
use settled.Server.State.{AppState}
use settled.Server.Messages.{AppendRequest}
use settled.Server.Status.{status_from, storage, invalid_argument_error, seq_out_of_range}
use settled.Server.Appends.{append, appended, admit, response}
use settled.Server.Appends.Keep.{puts_for, limited, with_entry}
use settled.Server.Proofs.{inclusion_proof, size_or_latest}
use settled.Server.Invariant.{leaves_of, length-leaves_of, IsServer}

module _ (d : Deps) where
  too_small :
      (s : AppState d) (seq n : ℕ)
      → 0 < n
      → n < seq + 1
      → inclusion_proof d s seq n
        ≡ done (err (status_from (invalid_argument_error (seq_out_of_range seq n))))
  unfolding inclusion_proof size_or_latest
  too_small s seq n pos' above = rw (==_ne n 0 (λ z. omega arith), le→leb n seq (omega arith))

  -- The state that `append` leaves when the limiter passes and the database refuses the write.
  abbrev refused_state : AppState d → ℕ → ℕ → AppState d
  refused_state s now n = record (limited d s now) {
    inner = counted d.rocks d.log_messages d.sha256 s.inner.db n;
  }

  append-refused_lem :
      (now : ℕ) (t : ℤ) (s : AppState d) (es : List LogEntry) (hs : List SignedTreeHead)
      (req : AppendRequest)
      → IsServer d s es hs
      → length es + 1 < 2 ^ 64
      → (admit d now s.rate_limiter).0 ≡ true
      → d.rocks.write s.inner.db (puts_for d t (length es) req) ≡ none
      → append d now t s req
        ≡ done (err (status_from (storage rocks_db)), refused_state s now (length es))
  unfolding append appended
  append-refused_lem now t s es hs req v few passes refused = rw (
    passes,
    append-refused d.rocks d.log_messages d.sha256 t s.inner req.key req.data_bytes (length es)
        v.log.4 few refused,
  )

  -- Two requests on a sound server, the limiter passing both: the database refuses the write of the
  -- first and takes that of the second. The first is answered with an error; the second is answered
  -- with the number one above the log's length, though the tree has exactly the log's leaves and its
  -- own, at the log's length. So `inclusion_proof` refuses the number that was answered, as out of
  -- range, at every size that this tree has reached.
  pub append-gap :
      (now now' : ℕ) (t t' : ℤ) (s : AppState d) (es : List LogEntry) (hs : List SignedTreeHead)
      (req req' : AppendRequest) (db' : d.rocks.Db) (n : ℕ)
      → IsServer d s es hs
      → length es + 2 < 2 ^ 64
      → (admit d now s.rate_limiter).0 ≡ true
      → (admit d now' (admit d now s.rate_limiter).1).0 ≡ true
      → d.rocks.write s.inner.db (puts_for d t (length es) req) ≡ none
      → d.rocks.write s.inner.db (puts_for d t' (length es + 1) req') ≡ some db'
      → 0 < n
      → n ≤ length es + 1
      → (s₁ s₂ : AppState d) × (append d now t s req
          ≡ done (err (status_from (storage rocks_db)), s₁))
        × (append d now' t' s₁ req'
            ≡ done (ok (response req' (length es + 1, t', leaf_hash d.sha256 req'.data_bytes)), s₂))
        × IsTreeOf d.sha256 (leaves_of es ++ leaf_hash d.sha256 req'.data_bytes ∷ []) s₂.merkle
        × (inclusion_proof d s₂ (length es + 1) n
            ≡ done
                (err (status_from (invalid_argument_error (seq_out_of_range (length es + 1) n)))))
  unfolding append appended
  append-gap now now' t t' s es hs req req' db' n v few passes passes' refused w some_leaves
        reached =
      let lh = leaf_hash d.sha256 req'.data_bytes in
      let s₁ = refused_state s now (length es) in
      let (merkle', runs, tree') =
        append-IsTreeOf d.sha256 (leaves_of es) s.merkle lh v.tree
          (omega (arith, length-leaves_of es)) in
      let wrote =
        append-written d.rocks d.log_messages d.sha256 t' s₁.inner req'.key req'.data_bytes db'
          (length es + 1) refl (omega arith) w in
      (
        s₁,
        with_entry d (limited d s₁ now') req' t' (length es + 1) db' merkle',
        append-refused_lem now t s es hs req v (omega arith) passes refused,
        rw (passes', wrote, runs),
        tree',
        too_small _ (length es + 1) n some_leaves (omega arith),
      )
