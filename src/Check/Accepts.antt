-- ===== src/Check/Accepts.antt =====
-- The check of a sound server succeeds, and what its success leaves open.
use settled.Prelude.{
  All-get_elem?, ap, ◌∙◌, ◌==◌, ℕ, ◌<◌, List, [], ◌∷◌, none, some, ◌≡◌, refl, arith, true,
  get_elem?, length, done, All, ==_iff, ==_ne,
}
use settled.Prelude.Results.{Result, ok}
use settled.Core.Hash.{Bytes, IsHash}
use settled.Core.Split.{IsU64}
use settled.Storage.Types.{LogEntry}
use settled.Storage.Types
use settled.Storage.LogStore.Reads.{reads-IsLog}
use settled.Storage.HeadStore.Lookups.{last_head, All-last_head}
use settled.Storage.HeadStore.Writes.{IsHead}
use settled.Storage.LogStore.Log.{IsEntry}
use settled.Sdk.Verifier.{verify_inclusion}
use settled.Sdk.Client.{
  Stub, client_of, make_request, get_sth, get, inclusion_proof, sth_or_default, from_pb_sth,
  entry_or_default, from_pb_entry,
}
use settled.Server.Deps.{Deps}
use settled.Server.State.{AppState}
use settled.Server.Status.{Status}
use settled.Server.Messages.{Entry, InclusionProofResponse, sth_to_proto, entry_to_proto}
use settled.Server.Invariant.{IsServer}
use settled.Server.Reads
use settled.Server.Reads.Heads.{asked, latest_head-ok, asked-find_head, IsHonest-find_head}
use settled.Server.Proofs
use settled.Server.Proofs.Inclusion.{inclusion_of, inclusion_proof-verify_inclusion}
use settled.Check.{proof_nodes, check_entry, cmd_verify}

proof_nodes-IsHash : (hs : List Bytes) → All IsHash hs → proof_nodes hs ≡ ok hs
unfolding proof_nodes
proof_nodes-IsHash [] all = refl
proof_nodes-IsHash (h ∷ hs) (size, all) =
    rw ((==_iff (length h) 32).1 size, proof_nodes-IsHash hs all)

module _ (d : Deps) where
  -- The stub brings requests to a server without an API key, and the handlers' answers back.
  pub record IsOpen (s : AppState d) (stub : Stub) : Type 0 where
    pub sth_served :
        (n : ℕ) → stub.get_sth (record { authorization = none; body = n }) ≡ Reads.get_sth d s n
    pub entry_served :
        (n : ℕ) → stub.get (record { authorization = none; body = n }) ≡ Reads.get d s n
    pub proof_served :
        (seq n : ℕ) (answer : Result Status InclusionProofResponse)
        → Proofs.inclusion_proof d s seq n ≡ done answer
        → stub.inclusion_proof (record { authorization = none; body = (seq, n) }) ≡ answer

  get_sth-ok :
      (s : AppState d) (es : List LogEntry) (hs : List Types.SignedTreeHead)
      (h : Types.SignedTreeHead)
      → IsServer d s es hs
      → last_head hs ≡ some h
      → Reads.get_sth d s 0 ≡ ok (some (sth_to_proto h))
  unfolding Reads.get_sth
  get_sth-ok s es hs h v last = rw (latest_head-ok d s es hs v h last)

  get-ok :
      (s : AppState d) (es : List LogEntry) (hs : List Types.SignedTreeHead) (seq : ℕ)
      (e : LogEntry)
      → IsServer d s es hs
      → IsU64 seq
      → get_elem? es seq ≡ some e
      → Reads.get d s seq ≡ ok (some (entry_to_proto e))
  unfolding Reads.get
  get-ok s es hs seq e v small at =
      rw ((reads-IsLog d.rocks d.log_messages s.inner es seq 0 0 v.log small).0, at)

  -- What the check makes of the answers of a stub: the latest tree head, the proof of an entry, and an
  -- entry of its leaf hash.
  cmd_verify-answered :
      (s : AppState d) (es : List LogEntry) (hs : List Types.SignedTreeHead) (stub : Stub)
      (seq i : ℕ) (h : Types.SignedTreeHead) (e : LogEntry) (x : Entry)
      → IsServer d s es hs
      → last_head hs ≡ some h
      → i < h.tree_size
      → get_elem? es i ≡ some e
      → x.leaf_hash ≡ e.leaf_hash
      → stub.get_sth (record { authorization = none; body = 0 }) ≡ Reads.get_sth d s 0
      → ((answer : Result Status InclusionProofResponse)
          → Proofs.inclusion_proof d s i h.tree_size ≡ done answer
          → stub.inclusion_proof (record { authorization = none; body = (seq, h.tree_size) })
            ≡ answer)
      → stub.get (record { authorization = none; body = seq }) ≡ ok (some x)
      → (cmd_verify d.ed25519 d.sha256 (client_of stub none) none ≡ ok none)
        × (cmd_verify d.ed25519 d.sha256 (client_of stub none) (some seq) ≡ ok (some i))
  unfolding cmd_verify check_entry get_sth get inclusion_proof make_request sth_or_default
      entry_or_default from_pb_sth from_pb_entry sth_to_proto
  cmd_verify-answered s es hs stub seq i h e x v last below at same sth_answer proof_served
        entry_answer =
      let here = asked-find_head d s es hs v 0 h last in
      let (is_head, honest) = IsHonest-find_head d s es hs v h.tree_size h here in
      let found : asked h.tree_size hs ≡ some h =
        rw (==_ne h.tree_size 0 (λ z. omega (arith, honest.some_leaves))) here in
      let (path, answer, accepted, strictly, signed, nodes) =
        inclusion_proof-verify_inclusion d s es hs i h.tree_size h e v found below at in
      let root_size = (==_iff (length h.root_hash) 32).1 is_head.3.0 in
      let latest = get_sth-ok s es hs h v last in
      let proof_answer = proof_served (ok (inclusion_of i h path)) answer in
      let leaf : IsEntry e = All-get_elem? IsEntry es i e v.log.2 at in
      let leaf_size : (length x.leaf_hash == 32) ≡ true =
        (==_iff (length x.leaf_hash) 32).1 (ap length same ∙ leaf.2) in
      let x_accepted =
        ap (λ l. verify_inclusion d.sha256 l i h.tree_size path h.root_hash) same ∙ accepted in
      (
        rw (sth_answer, latest, root_size, signed),
        rw (
          sth_answer,
          latest,
          root_size,
          signed,
          proof_answer,
          proof_nodes-IsHash path nodes,
          entry_answer,
          leaf_size,
          x_accepted,
        ),
      )

  -- Over a stub that brings its requests to a sound server without an API key that has a tree head,
  -- `cmd_verify` succeeds without an entry, and for an entry below the latest tree head's size it
  -- succeeds with the entry's number as its leaf index.
  pub cmd_verify-accepts :
      (s : AppState d) (es : List LogEntry) (hs : List Types.SignedTreeHead) (stub : Stub) (seq : ℕ)
      (h : Types.SignedTreeHead) (e : LogEntry)
      → IsServer d s es hs
      → IsOpen s stub
      → last_head hs ≡ some h
      → seq < h.tree_size
      → get_elem? es seq ≡ some e
      → (cmd_verify d.ed25519 d.sha256 (client_of stub none) none ≡ ok none)
        × (cmd_verify d.ed25519 d.sha256 (client_of stub none) (some seq) ≡ ok (some seq))
  unfolding entry_to_proto
  cmd_verify-accepts s es hs stub seq h e v served last below at =
      let is_head : IsHead h = All-last_head IsHead hs h v.heads last in
      cmd_verify-answered s es hs stub seq seq h e (entry_to_proto e) v last below at refl
        (served.sth_served 0) (λ answer made. served.proof_served seq h.tree_size answer made)
        (served.entry_served seq ∙ get-ok s es hs seq e v (omega (arith, is_head.0)) at)

  -- A server can answer a check of one number with another entry: over a stub that gives a sound
  -- server's latest tree head, but answers for the number with the proof of any entry below that
  -- head's size, and with any message, of whatever number, key and data, that has that entry's leaf
  -- hash, `cmd_verify` succeeds all the same.
  pub cmd_verify-other :
      (s : AppState d) (es : List LogEntry) (hs : List Types.SignedTreeHead) (stub : Stub)
      (seq i : ℕ) (h : Types.SignedTreeHead) (e : LogEntry) (x : Entry)
      → IsServer d s es hs
      → last_head hs ≡ some h
      → i < h.tree_size
      → get_elem? es i ≡ some e
      → x.leaf_hash ≡ e.leaf_hash
      → stub.get_sth (record { authorization = none; body = 0 }) ≡ Reads.get_sth d s 0
      → ((answer : Result Status InclusionProofResponse)
          → Proofs.inclusion_proof d s i h.tree_size ≡ done answer
          → stub.inclusion_proof (record { authorization = none; body = (seq, h.tree_size) })
            ≡ answer)
      → stub.get (record { authorization = none; body = seq }) ≡ ok (some x)
      → cmd_verify d.ed25519 d.sha256 (client_of stub none) (some seq) ≡ ok (some i)
  cmd_verify-other s es hs stub seq i h e x v last below at same sth_answer proof_served
        entry_answer =
      (cmd_verify-answered s es hs stub seq i h e x v last below at same sth_answer proof_served
        entry_answer).1
