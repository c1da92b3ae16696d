-- ===== src/Check/Examples.antt =====
-- The check against a small server.
use settled.Prelude.{[], ◌∷◌, none, some, ◌≡◌, refl, arith, Run, done, panic, pos}
use settled.Prelude.Results.{Result, ok, err}
use settled.Core.Examples.{toy, one_key}
use settled.Storage.HeadStore.Lookups.{last_head}
use settled.Server.Status.{Status, internal, no_sth_available_yet}
use settled.Server.Messages.{Entry}
use settled.Server.Reads
use settled.Server.Proofs
use settled.Server.Signing.{signed_head}
use settled.Server.Examples.{deps, first_entry, first_head, headed_server, headed_server-IsServer}
use settled.Sdk.Client.{Stub, client_of}
use settled.Check.{cmd_verify}
use settled.Check.Accepts.{IsOpen, cmd_verify-accepts, cmd_verify-other}

abbrev unserved : {A : Type 0} → Result Status A
unserved = err (internal no_sth_available_yet)

abbrev finished : {A : Type 0} → Run (Result Status A) → Result Status A
finished (done answer) = answer
finished panic = unserved

abbrev open_stub : Stub
open_stub = record {
  append = λ req. unserved;
  batch_append = λ req. unserved;
  get = λ req. Reads.get deps headed_server req.body;
  get_latest = λ req. unserved;
  get_sth = λ req. Reads.get_sth deps headed_server req.body;
  inclusion_proof =
      λ req. finished (Proofs.inclusion_proof deps headed_server req.body.0 req.body.1);
  list_entries = λ req. unserved;
  get_by_key = λ req. unserved;
  consistency_proof = λ req. unserved;
}

open_stub-IsOpen : IsOpen deps headed_server open_stub
open_stub-IsOpen = record {
  sth_served = λ n. refl;
  entry_served = λ n. refl;
  proof_served = λ seq n answer made. rw made;
}

-- Every number is answered with the first entry's proof, and with other data under its leaf hash.
abbrev forged_entry : Entry
forged_entry = record {
  seq = 7;
  timestamp_ns = pos 1;
  key = 9 ∷ [];
  data_bytes = 9 ∷ 9 ∷ [];
  leaf_hash = first_entry.leaf_hash;
}

abbrev lying_stub : Stub
lying_stub = record {
  append = λ req. unserved;
  batch_append = λ req. unserved;
  get = λ req. ok (some forged_entry);
  get_latest = λ req. unserved;
  get_sth = λ req. Reads.get_sth deps headed_server req.body;
  inclusion_proof = λ req. finished (Proofs.inclusion_proof deps headed_server 0 req.body.1);
  list_entries = λ req. unserved;
  get_by_key = λ req. unserved;
  consistency_proof = λ req. unserved;
}

last_found : last_head (first_head ∷ []) ≡ some first_head
unfolding last_head
last_found = refl

cmd_verify-accepts_example :
    (cmd_verify one_key toy (client_of open_stub none) none ≡ ok none)
    × (cmd_verify one_key toy (client_of open_stub none) (some 0) ≡ ok (some 0))
unfolding signed_head
cmd_verify-accepts_example =
    cmd_verify-accepts deps headed_server (first_entry ∷ []) (first_head ∷ []) open_stub 0
      first_head first_entry headed_server-IsServer open_stub-IsOpen last_found (omega arith) refl

cmd_verify-other_example : cmd_verify one_key toy (client_of lying_stub none) (some 7) ≡ ok (some 0)
unfolding signed_head
cmd_verify-other_example =
    cmd_verify-other deps headed_server (first_entry ∷ []) (first_head ∷ []) lying_stub 7 0
      first_head first_entry forged_entry headed_server-IsServer last_found (omega arith) refl refl
      refl (λ answer made. rw made) refl
