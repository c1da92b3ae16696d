-- ===== src/Sdk/Client/Examples.antt =====
-- A client of a small server.
use settled.Prelude.{
  [], ◌∷◌, Option, none, some, true, ◌≡◌, ◌≢◌, refl, arith, Run, done, panic, Bool, leb, ltb, ◌&&◌,
  if◌then◌else◌, inl, inr, Bool-cases, sym, ◌∙◌, ◌++◌,
}
use settled.Prelude.Results.{Result, ok, err}
use settled.Core.Hash.{Bytes}
use settled.Storage.HeadStore.Lookups.{last_head, find_head}
use settled.Server.Status.{Status, internal, no_sth_available_yet}
use settled.Server.Access.{bearer, intercept}
use settled.Server.Proofs
use settled.Server.Signing.{signed_head}
use settled.Server.Examples.{deps, first_entry, first_head, headed_server, headed_server-IsServer}
use settled.Sdk.Verifier
use settled.Sdk.Client.{
  Stub, SettledClient, HeaderText, client_of, expect_header, build, inclusion_proof,
  consistency_proof, InclusionProofResult, ConsistencyProofResult,
}
use settled.Sdk.Client.EndToEnd.{IsServedBy, client-inclusion_proof, client-consistency_proof}

abbrev first_secret : Bytes
first_secret = 115 ∷ 51 ∷ []

abbrev secret : Option Bytes
secret = some first_secret

some_injective : (a b : Bytes) → some a ≡ some b → a ≡ b
some_injective a b e = cc

none-some : (a : Bytes) → none ≢ some a
none-some a e = cc

abbrev finished : {A : Type 0} → Run (Result Status A) → Result Status A
finished (done answer) = answer
finished panic = err (internal no_sth_available_yet)

-- What the interceptor lets pass is answered.
abbrev passed : {A : Type 0} → Result Status (Unit {0}) → Result Status A → Result Status A
passed (ok u) answer = answer
passed (err e) answer = err e

abbrev the_stub : Stub
the_stub = record {
  append = λ req. err (internal no_sth_available_yet);
  batch_append = λ req. err (internal no_sth_available_yet);
  get = λ req. err (internal no_sth_available_yet);
  get_latest = λ req. err (internal no_sth_available_yet);
  get_sth = λ req. err (internal no_sth_available_yet);
  inclusion_proof = λ req.
      passed (intercept secret req.authorization)
        (finished (Proofs.inclusion_proof deps headed_server req.body.0 req.body.1));
  list_entries = λ req. err (internal no_sth_available_yet);
  get_by_key = λ req. err (internal no_sth_available_yet);
  consistency_proof = λ req.
      passed (intercept secret req.authorization)
        (finished (Proofs.consistency_proof deps headed_server req.body.0 req.body.1));
}

the_stub-IsServedBy : IsServedBy deps headed_server secret the_stub
the_stub-IsServedBy = record {
  inclusion_served = λ req answer passes answers. rw (passes, answers);
  consistency_served = λ req answer passes answers. rw (passes, answers);
}

first_found : find_head 1 (first_head ∷ []) ≡ some first_head
unfolding find_head signed_head
first_found = refl

last_found : last_head (first_head ∷ []) ≡ some first_head
unfolding last_head
last_found = refl

abbrev other_key : Bytes
other_key = 2 ∷ []

is_visible : Bytes → Bool
is_visible [] = true
is_visible (b ∷ text) = leb 32 b && ltb b 127 && is_visible text

visible_text : Bytes → Option Bytes
unfolding is_visible
visible_text text = if is_visible text then some text else none

visible_same : (text value : Bytes) → visible_text text ≡ some value → value ≡ text
unfolding visible_text
visible_same text value holds = elim (Bool-cases (is_visible text)) [
  | inl visible ↦ some_injective value text (sym holds ∙ rw visible)
  | inr hidden ↦ absurd (none-some value (sym (rw hidden) ∙ holds))
]

abbrev printable : HeaderText
printable = record { try_from = visible_text; bytes-try_from = visible_same }

abbrev the_client : SettledClient
the_client = client_of the_stub (some (bearer ++ first_secret))

the_client-built : build printable the_stub secret ≡ done the_client
unfolding build expect_header visible_text is_visible
the_client-built = refl

-- A key with a line feed makes `build` panic.
no_client : build printable the_stub (some (10 ∷ [])) ≡ panic
unfolding build expect_header visible_text is_visible
no_client = refl

client-inclusion_proof_example :
    (r : InclusionProofResult) × (inclusion_proof the_client 0 0 ≡ ok r)
    × (r.leaf_index ≡ 0)
    × (r.tree_size ≡ first_head.tree_size)
    × (Verifier.verify_inclusion deps.sha256
          (Verifier.leaf_hash deps.sha256 first_entry.data_bytes)
          r.leaf_index
          r.tree_size
          r.proof
          r.sth.root_hash
        ≡ true)
    × (Verifier.verify_tree_head deps.ed25519 r.sth.tree_size r.sth.root_hash r.sth.timestamp_ns
          r.sth.signature r.sth.public_key
        ≡ true)
unfolding signed_head
client-inclusion_proof_example =
    client-inclusion_proof deps headed_server (first_entry ∷ []) (first_head ∷ []) secret printable
      the_stub the_client 0 0 first_head first_entry headed_server-IsServer the_stub-IsServedBy
      the_client-built last_found (omega arith) refl

client-consistency_proof_example :
    (r : ConsistencyProofResult) × (consistency_proof the_client 1 0 ≡ ok r)
    × (r.new_size ≡ first_head.tree_size)
    × (Verifier.verify_consistency deps.sha256 1 r.new_size r.proof r.old_sth.root_hash
          r.new_sth.root_hash
        ≡ done true)
unfolding signed_head
client-consistency_proof_example =
    client-consistency_proof deps headed_server (first_entry ∷ []) (first_head ∷ []) secret
      printable the_stub the_client 1 0 first_head first_head headed_server-IsServer
      the_stub-IsServedBy the_client-built first_found last_found (omega arith) (omega arith)
