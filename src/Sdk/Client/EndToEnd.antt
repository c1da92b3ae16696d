-- ===== src/Sdk/Client/EndToEnd.antt =====
-- The client against the server: its requests pass the interceptor, and what it receives verifies.
use settled.Prelude.{
  All-get_elem?, ℕ, ◌<◌, ◌≤◌, List, ◌++◌, Option, none, some, ◌≡◌, ◌≢◌, refl, ◌∙◌, true, get_elem?,
  done, panic, ◌⊎◌, inl, inr, ap, sym, ◌^◌, Option-cases,
}
use settled.Prelude.Results.{Result, ok, err}
use settled.Core.Hash.{Bytes}
use settled.Core.Hash
use settled.Core.Hash.Collisions.{bytes_eq_iff}
use settled.Storage.Types.{LogEntry}
use settled.Storage.Types
use settled.Storage.HeadStore.Lookups.{find_head}
use settled.Sdk.Verifier
use settled.Sdk.Client.{
  Stub, SettledClient, HeaderText, client_of, expect_header, Request, InclusionProofResult,
  ConsistencyProofResult, build, make_request, inclusion_proof, consistency_proof, sth_or_default,
  from_pb_sth,
}
use settled.Server.Deps.{Deps}
use settled.Server.State.{AppState}
use settled.Server.Status.{Status, unauthenticated, invalid_api_key}
use settled.Server.Messages.{InclusionProofResponse, ConsistencyProofResponse, sth_to_proto}
use settled.Server.Access.{bearer, carries, intercept}
use settled.Server.Invariant.{IsServer, IsHashed}
use settled.Server.Proofs
use settled.Server.Proofs.Inclusion.{inclusion_proof-verify_inclusion, inclusion_of}
use settled.Server.Proofs.Consistency.{consistency_proof-verify_consistency, consistency_of}
use settled.Server.Reads.Heads.{asked}

-- What the interceptor of a server with the key `key`, and of one without a key, says to a header.
abbrev Intercepted : Bytes → Option Bytes → SettledClient → Type 0
Intercepted key client_key c =
    (intercept none c.auth_header ≡ ok tt)
    × (((client_key ≡ some key) × (intercept (some key) c.auth_header ≡ ok tt))
        ⊎ ((client_key ≢ some key)
            × (intercept (some key) c.auth_header ≡ err (unauthenticated invalid_api_key))))

done-panic : (c : SettledClient) → done c ≢ panic
done-panic c e = cc

done_injective : (a b : SettledClient) → done a ≡ done b → a ≡ b
done_injective a b e = cc

module _ (d : Deps) where
  -- The stub brings a request that passes the interceptor to the server, and the handler's answer
  -- back.
  pub record IsServedBy (s : AppState d) (api_key : Option Bytes) (stub : Stub) : Type 0 where
    pub inclusion_served :
        (req : Request (ℕ × ℕ)) (answer : Result Status InclusionProofResponse)
        → intercept api_key req.authorization ≡ ok tt
        → Proofs.inclusion_proof d s req.body.0 req.body.1 ≡ done answer
        → stub.inclusion_proof req ≡ answer
    pub consistency_served :
        (req : Request (ℕ × ℕ)) (answer : Result Status ConsistencyProofResponse)
        → intercept api_key req.authorization ≡ ok tt
        → Proofs.consistency_proof d s req.body.0 req.body.1 ≡ done answer
        → stub.consistency_proof req ≡ answer

  -- What a client with the server's key, or with none where the server has none, is.
  built :
      (h : HeaderText) (stub : Stub) (api_key : Option Bytes) (c : SettledClient)
      → build h stub api_key ≡ done c
      → (authorization : Option Bytes) × (c ≡ client_of stub authorization)
        × (intercept api_key authorization ≡ ok tt)
  unfolding build expect_header intercept carries
  built h stub none c makes = (none, done_injective c (client_of stub none) (sym makes), refl)
  built h stub (some k) c makes = elim (Option-cases (h.try_from (bearer ++ k))) [
    | inl fails ↦ absurd (done-panic c (sym makes ∙ ap (expect_header stub) fails))
    | inr (value, holds) ↦
        let same = h.bytes-try_from (bearer ++ k) value holds in
        (
          some value,
          done_injective c (client_of stub (some value))
              (sym makes ∙ ap (expect_header stub) holds),
          rw (same, (bytes_eq_iff (bearer ++ k) (bearer ++ k)).1 refl),
        )
  ]

  leaf_hash-eq_core :
      (bytes : Bytes) → Hash.leaf_hash d.sha256 bytes ≡ Verifier.leaf_hash d.sha256 bytes
  unfolding Hash.leaf_hash Verifier.leaf_hash
  leaf_hash-eq_core bytes = refl

  -- A client that `build` makes with the server's key (or none, where the server has none), over a stub that brings its
  -- requests to a sound server, asks for the proof of an entry below the size of a tree head that it
  -- names (by its size, or 0 for the latest): it receives a result for that entry's number and that
  -- size, `verify_inclusion` accepts the leaf hash that the client computes of the entry's data, and
  -- `verify_tree_head` accepts the tree head that came along.
  pub client-inclusion_proof :
      (s : AppState d) (es : List LogEntry) (hs : List Types.SignedTreeHead)
      (api_key : Option Bytes) (text : HeaderText) (stub : Stub) (c : SettledClient)
      (seq req_size : ℕ) (h : Types.SignedTreeHead) (e : LogEntry)
      → IsServer d s es hs
      → IsServedBy s api_key stub
      → build text stub api_key ≡ done c
      → asked req_size hs ≡ some h
      → seq < h.tree_size
      → get_elem? es seq ≡ some e
      → (r : InclusionProofResult) × (inclusion_proof c seq req_size ≡ ok r)
        × (r.leaf_index ≡ seq)
        × (r.tree_size ≡ h.tree_size)
        × (Verifier.verify_inclusion d.sha256
              (Verifier.leaf_hash d.sha256 e.data_bytes)
              r.leaf_index
              r.tree_size
              r.proof
              r.sth.root_hash
            ≡ true)
        × (Verifier.verify_tree_head d.ed25519 r.sth.tree_size r.sth.root_hash r.sth.timestamp_ns
              r.sth.signature r.sth.public_key
            ≡ true)
  unfolding inclusion_proof sth_or_default from_pb_sth sth_to_proto make_request
  client-inclusion_proof s es hs api_key text stub c seq req_size h e v served makes found below
        at =
      let (authorization, is, passes) = built text stub api_key c makes in
      let (path, answer, accepted, strictly, signed, nodes) =
        inclusion_proof-verify_inclusion d s es hs seq req_size h e v found below at in
      let leaf : e.leaf_hash ≡ Verifier.leaf_hash d.sha256 e.data_bytes =
        All-get_elem? (IsHashed d) es seq e v.hashed at ∙ leaf_hash-eq_core e.data_bytes in
      (
        record {
          leaf_index = seq;
          tree_size = h.tree_size;
          proof = path;
          sth = from_pb_sth (sth_to_proto h);
        },
        rw (
          is,
          served.inclusion_served (make_request (client_of stub authorization) (seq, req_size))
              (ok (inclusion_of seq h path)) passes answer,
        ),
        refl,
        refl,
        rw (← leaf) accepted,
        signed,
      )

  -- Such a client asks for the proof between two tree heads of the server, the second not the
  -- smaller and not above 2^63: `verify_consistency` accepts what it receives.
  pub client-consistency_proof :
      (s : AppState d) (es : List LogEntry) (hs : List Types.SignedTreeHead)
      (api_key : Option Bytes) (text : HeaderText) (stub : Stub) (c : SettledClient)
      (old_size req_size : ℕ) (old_head new_head : Types.SignedTreeHead)
      → IsServer d s es hs
      → IsServedBy s api_key stub
      → build text stub api_key ≡ done c
      → find_head old_size hs ≡ some old_head
      → asked req_size hs ≡ some new_head
      → old_size ≤ new_head.tree_size
      → new_head.tree_size ≤ 2 ^ 63
      → (r : ConsistencyProofResult) × (consistency_proof c old_size req_size ≡ ok r)
        × (r.new_size ≡ new_head.tree_size)
        × (Verifier.verify_consistency d.sha256 old_size r.new_size r.proof r.old_sth.root_hash
              r.new_sth.root_hash
            ≡ done true)
  unfolding consistency_proof sth_or_default from_pb_sth sth_to_proto make_request
  client-consistency_proof s es hs api_key text stub c old_size req_size old_head new_head v served
        makes found asked_for le most =
      let (authorization, is, passes) = built text stub api_key c makes in
      let (path, answer, accepted) =
        consistency_proof-verify_consistency d s es hs old_size req_size old_head new_head v found
          asked_for le most in
      (
        record {
          old_size = old_head.tree_size;
          new_size = new_head.tree_size;
          proof = path;
          old_sth = from_pb_sth (sth_to_proto old_head);
          new_sth = from_pb_sth (sth_to_proto new_head);
        },
        rw (
          is,
          served.consistency_served
              (make_request (client_of stub authorization) (old_size, req_size))
              (ok (consistency_of old_head new_head path)) passes answer,
        ),
        refl,
        accepted,
      )
