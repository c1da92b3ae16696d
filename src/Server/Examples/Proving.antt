-- ===== src/Server/Examples/Proving.antt =====
-- Proofs, tree heads and keys on a small server.
use settled.Prelude.{
  ℕ, ◌<◌, ◌≤◌, List, [], ◌∷◌, ◌++◌, none, some, Option, ◌≡◌, ◌≢◌, ◌⊎◌, refl, arith, length, done,
}
use settled.Prelude.Results.{ok, err}
use settled.Core.Split.{IsU64}
use settled.Core.Examples.{the_key}
use settled.Core.Proof.{leaf_index_out_of_range}
use settled.Storage.Types.{SignedTreeHead, rocks_db}
use settled.Storage.HeadStore.{get}
use settled.Storage.HeadStore.Writes.{head_puts}
use settled.Storage.HeadStore.Lookups.{find_head, last_head}
use settled.Server.Status.{
  status_from, not_found_error, invalid_argument_error, proof_error, no_sth_available_yet,
  no_sth_at, seq_out_of_range,
}
use settled.Server.State.{AppState}
use settled.Server.Proofs.{inclusion_proof}
use settled.Server.Proofs.Inclusion.{inclusion_proof-errors}
use settled.Server.Signing.{sign_and_store, written, failed}
use settled.Storage.HeadStore.Keys.{key_puts}
use settled.Core.Hash.{Bytes}
use settled.Server.Signing.Keep.{head_of, IsCovered, sign_and_store-IsServer}
use settled.Server.Signing.Provable.{HasProof, sign_and_store-HasProof}
use settled.Server.Admin.{
  force_sth, sth_json, rotate_key, key_record_json, internal_server_error, no_content,
}
use settled.Server.Admin.Force.{force_sth-IsServer}
use settled.Server.Admin.Rotate.{rotate_key-IsServer, with_key, new_record, next_version}
use settled.Server.Invariant.{IsServer}
use settled.Server.Examples.{
  deps, clock, first_entry, one_server, one_server-IsServer, first_head, headed_server,
  headed_server-IsServer,
}

abbrev second_size : ℕ
second_size = 2

inclusion_proof-errors_example :
    ((first_head ∷ []) ≡ []
      → inclusion_proof deps headed_server 5 0
        ≡ done (err (status_from (not_found_error no_sth_available_yet))))
    × ((h : SignedTreeHead)
        → last_head (first_head ∷ []) ≡ some h
        → h.tree_size ≤ 5
        → inclusion_proof deps headed_server 5 0
          ≡ done (err (status_from (invalid_argument_error (seq_out_of_range 5 h.tree_size)))))
    × ((n : ℕ)
        → n ≢ 0
        → n ≤ 5
        → inclusion_proof deps headed_server 5 n
          ≡ done (err (status_from (invalid_argument_error (seq_out_of_range 5 n)))))
    × ((n : ℕ)
        → IsU64 n
        → 5 < n
        → find_head n (first_head ∷ []) ≡ none
        → 5 < length (first_entry ∷ [])
        → inclusion_proof deps headed_server 5 n
          ≡ done (err (status_from (not_found_error (no_sth_at n)))))
    × ((n : ℕ)
        → 5 < n
        → length (first_entry ∷ []) ≤ 5
        → inclusion_proof deps headed_server 5 n
          ≡ done (
              err (
                status_from (proof_error (leaf_index_out_of_range 5 (length (first_entry ∷ [])))))))
inclusion_proof-errors_example =
    inclusion_proof-errors deps headed_server (first_entry ∷ []) (first_head ∷ []) 5
      headed_server-IsServer

sign_and_store-IsServer_example :
    (IsCovered (length (first_entry ∷ [])) []
      × (sign_and_store deps clock one_server ≡ done (ok one_server)))
    ⊎ (((deps.rocks.write one_server.inner.db (
              head_puts deps.rocks deps.head_messages
                (head_of deps one_server (first_entry ∷ []) clock))
            ≡ none)
          × (sign_and_store deps clock one_server ≡ done (err rocks_db)))
        ⊎ ((s' : AppState deps) × (sign_and_store deps clock one_server ≡ done (ok s'))
            × IsServer deps s'
                (first_entry ∷ [])
                ([] ++ head_of deps one_server (first_entry ∷ []) clock ∷ [])
            × IsCovered
                (length (first_entry ∷ []))
                ([] ++ head_of deps one_server (first_entry ∷ []) clock ∷ [])))
sign_and_store-IsServer_example =
    sign_and_store-IsServer deps clock one_server (first_entry ∷ []) [] one_server-IsServer
      (omega arith) (omega arith)

sign_and_store-HasProof_example :
    ((deps.rocks.write one_server.inner.db (
          head_puts deps.rocks deps.head_messages
            (head_of deps one_server (first_entry ∷ []) clock))
        ≡ none)
      × (sign_and_store deps clock one_server ≡ done (err rocks_db)))
    ⊎ ((s' : AppState deps) × (hs' : List SignedTreeHead) × (sign_and_store deps clock one_server
          ≡ done (ok s'))
        × IsServer deps s' (first_entry ∷ []) hs'
        × HasProof deps s' 0 (first_entry ∷ []) first_entry)
sign_and_store-HasProof_example =
    sign_and_store-HasProof deps clock one_server (first_entry ∷ []) [] 0 first_entry
      one_server-IsServer (omega arith) (omega arith) refl

force_sth-IsServer_example :
    ((length (first_entry ∷ []) ≡ 0)
      × (force_sth deps clock one_server ≡ done (err no_content, one_server)))
    ⊎ (((deps.rocks.write one_server.inner.db (
              head_puts deps.rocks deps.head_messages
                (head_of deps one_server (first_entry ∷ []) clock))
            ≡ none)
          × (force_sth deps clock one_server ≡ done (err internal_server_error, one_server)))
        ⊎ ((s' : AppState deps) × (hs' : List SignedTreeHead) × (h : SignedTreeHead) × (force_sth
                deps clock one_server
              ≡ done (ok (sth_json deps h), s'))
            × IsServer deps s' (first_entry ∷ []) hs'
            × (last_head hs' ≡ some h)
            × (h.tree_size ≡ length (first_entry ∷ []))))
force_sth-IsServer_example =
    force_sth-IsServer deps clock one_server (first_entry ∷ []) [] one_server-IsServer (omega arith)
      (omega arith)

rotate_key-IsServer_example :
    ((left : Option Bytes) × (written ≡ failed left)
      × (rotate_key deps the_key written headed_server
          ≡ (err internal_server_error, record headed_server { key_file = left }))
      × IsServer deps
          (record headed_server { key_file = left })
          (first_entry ∷ [])
          (first_head ∷ []))
    ⊎ (((written ≡ written)
          × (deps.rocks.write headed_server.inner.db (
                key_puts deps.rocks deps.key_messages
                  (new_record deps headed_server (length (first_entry ∷ [])) the_key))
              ≡ none)
          × (rotate_key deps the_key written headed_server
              ≡ (err internal_server_error, with_key deps headed_server the_key))
          × IsServer deps
              (with_key deps headed_server the_key)
              (first_entry ∷ [])
              (first_head ∷ []))
        ⊎ ((s' : AppState deps) × (written ≡ written)
            × (rotate_key deps the_key written headed_server ≡ (
              ok (
                  key_record_json deps
                    (new_record deps headed_server (length (first_entry ∷ [])) the_key)),
              s',
            ))
            × IsServer deps s' (first_entry ∷ []) (first_head ∷ [])
            × (s'.signer ≡ (with_key deps headed_server the_key).signer)
            × (s'.key_file ≡ (with_key deps headed_server the_key).key_file)
            × (get deps.rocks deps.key_messages s'.inner.db (next_version deps headed_server)
                ≡ ok (some (new_record deps headed_server (length (first_entry ∷ [])) the_key)))))
rotate_key-IsServer_example =
    rotate_key-IsServer deps the_key written headed_server (first_entry ∷ []) (first_head ∷ [])
      headed_server-IsServer
