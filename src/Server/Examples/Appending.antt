-- ===== src/Server/Examples/Appending.antt =====
-- Appends, limits and the gap on a small server.
use settled.Prelude.{
  Bool, Option, none, some, ◌≢◌, inl, inr, sym, ◌∙◌, ◌||◌, if◌then◌else◌, Bool-cases, ◌+◌, List, [],
  ◌∷◌, ◌++◌, true, false, ◌≡◌, ◌⊎◌, refl, arith, length, map, done,
}
use settled.Prelude.Results.{ok, err}
use settled.Core.Hash.{leaf_hash}
use settled.Core.Merkle.Tree.{IsTreeOf}
use settled.Storage.Rows.{Rows, u64_key}
use settled.Storage.Rocks.{ColumnFamily, Put, Rocks, put_all}
use settled.Storage.Examples.{table}
use settled.Core.Hash.{bytes_eq}
use settled.Core.Examples.{the_key}
use settled.Server.Deps.{Deps}
use settled.Storage.Types.{rocks_db, LogEntry}
use settled.Storage.LogStore.Appends.{counted}
use settled.Server.Status.{
  resource_exhausted, rate_limit_exceeded, status_from, storage, invalid_argument_error,
  seq_out_of_range,
}
use settled.Server.State.{AppState}
use settled.Server.Messages.{AppendRequest, entry_to_proto}
use settled.Server.RateLimit.{try_consume, take_tokens, refill}
use settled.Server.Appends.{admit, admit_n, append, batch_append, response, sent_entry}
use settled.Server.Appends.Keep.{append-IsServer, limited, entry_of, puts_for}
use settled.Server.Appends.Batch.{
  batch_append-IsServer, limited_n, puts_for_all, answer, entries_for,
}
use settled.Server.Appends.Gap.{append-gap}
use settled.Server.Proofs.{inclusion_proof}
use settled.Server.Invariant.{leaves_of, IsServer}
use settled.Server.Examples.{
  deps, clock, empty_server, empty_server-IsServer, request, first_entry, full_bucket, one_server,
  one_server-IsServer,
}

abbrev no_entries : List LogEntry
no_entries = []

abbrev second_request : AppendRequest
second_request = record { key = 1 ∷ []; data_bytes = 4 ∷ [] }

append-IsServer_example :
    (((admit deps 7 empty_server.rate_limiter).0 ≡ false)
      × (append deps 7 clock empty_server request
          ≡ done (err (resource_exhausted rate_limit_exceeded), limited deps empty_server 7)))
    ⊎ ((((admit deps 7 empty_server.rate_limiter).0 ≡ true)
          × (deps.rocks.write empty_server.inner.db
                (puts_for deps clock (length no_entries) request)
              ≡ none)
          × (append deps 7 clock empty_server request
              ≡ done (
                err (status_from (storage rocks_db)),
                record (limited deps empty_server 7) {
                  inner =
                      counted deps.rocks deps.log_messages deps.sha256 empty_server.inner.db
                        (length no_entries);
                },
              )))
        ⊎ ((s' : AppState deps) × ((admit deps 7 empty_server.rate_limiter).0 ≡ true)
            × (append deps 7 clock empty_server request
                ≡ done (
                  ok (
                      response request
                        (length no_entries, clock, leaf_hash deps.sha256 request.data_bytes)),
                  s',
                ))
            × IsServer deps s'
                (no_entries ++ entry_of deps clock (length no_entries) request ∷ [])
                []
            × (s'.sent
                ≡ empty_server.sent
                  ++ sent_entry request
                      (length no_entries, clock, leaf_hash deps.sha256 request.data_bytes)
                    ∷ [])))
append-IsServer_example =
    append-IsServer deps 7 clock empty_server no_entries [] request empty_server-IsServer
      (omega arith) (omega arith)

abbrev two_requests : List AppendRequest
two_requests = request ∷ (second_request ∷ [])

batch_append-IsServer_example :
    (((admit_n deps 7 (length two_requests) one_server.rate_limiter).0 ≡ false)
      × (batch_append deps 7 clock one_server two_requests
          ≡ done (
            err (resource_exhausted rate_limit_exceeded),
            limited_n deps one_server 7 (length two_requests),
          )))
    ⊎ ((((admit_n deps 7 (length two_requests) one_server.rate_limiter).0 ≡ true)
          × (deps.rocks.write one_server.inner.db
                (puts_for_all deps clock (length (first_entry ∷ [])) two_requests)
              ≡ none)
          × (batch_append deps 7 clock one_server two_requests
              ≡ done (
                err (status_from (storage rocks_db)),
                record (limited_n deps one_server 7 (length two_requests)) {
                  inner = record {
                    db = one_server.inner.db;
                    next_seq = length (first_entry ∷ []) + length two_requests;
                  };
                },
              )))
        ⊎ ((s' : AppState deps) × ((admit_n deps 7 (length two_requests) one_server.rate_limiter).0
              ≡ true)
            × (batch_append deps 7 clock one_server two_requests
                ≡ done (
                  ok (map answer (entries_for deps clock (length (first_entry ∷ [])) two_requests)),
                  s',
                ))
            × IsServer deps s'
                ((first_entry ∷ [])
                  ++ entries_for deps clock (length (first_entry ∷ [])) two_requests)
                []
            × (s'.sent
                ≡ one_server.sent
                  ++ map entry_to_proto
                      (entries_for deps clock (length (first_entry ∷ [])) two_requests))))
batch_append-IsServer_example =
    batch_append-IsServer deps 7 clock one_server (first_entry ∷ []) [] request
      (second_request ∷ []) one_server-IsServer (omega arith) (omega arith) (omega arith)

-- A database that refuses a write to the key 9.
has_nine : List Put → Bool
has_nine [] = false
has_nine (put ∷ puts) = bytes_eq put.key (9 ∷ []) || has_nine puts

fussy_write : (ColumnFamily → Rows) → List Put → Option (ColumnFamily → Rows)
unfolding has_nine
fussy_write db puts = if has_nine puts then none else table.write db puts

none-some : {A : Type 0} (a : A) → none ≢ some a
none-some a e = cc

fussy_write-write :
    (db db' : ColumnFamily → Rows) (puts : List Put)
    → fussy_write db puts ≡ some db'
    → table.write db puts ≡ some db'
unfolding fussy_write
fussy_write-write db db' puts w = elim (Bool-cases (has_nine puts)) [
  | inl refuses ↦ absurd (none-some db' (sym (rw refuses) ∙ w))
  | inr takes ↦ sym (rw takes) ∙ w
]

abbrev fussy : Rocks
fussy = record table {
  write = fussy_write;
  rows-write = λ db db' puts w. table.rows-write db db' puts (fussy_write-write db db' puts w);
  write-IsReadable = λ db db' puts w h. tt;
}

abbrev fussy_deps : Deps
fussy_deps = record deps { rocks = fussy }

abbrev fussy_server : AppState fussy_deps
fussy_server = record {
  inner = record { db = empty_server.inner.db; next_seq = 0 };
  merkle = empty_server.merkle;
  signer = record { key = the_key; version = 1 };
  key_file = none;
  max_get_latest = 1000;
  rate_limiter = some full_bucket;
  sent = [];
}

fussy_server-IsServer : IsServer fussy_deps fussy_server [] []
fussy_server-IsServer = record {
  log = empty_server-IsServer.log;
  tree = empty_server-IsServer.tree;
  hashed = tt;
  head_rows = empty_server-IsServer.head_rows;
  heads = tt;
  ascending = tt;
  honest = tt;
}

abbrev refused_request : AppendRequest
refused_request = record { key = 9 ∷ []; data_bytes = 1 ∷ [] }

refused : fussy.write fussy_server.inner.db (puts_for fussy_deps clock 0 refused_request) ≡ none
unfolding fussy_write has_nine bytes_eq u64_key
refused = refl

abbrev second_db : ColumnFamily → Rows
second_db c = put_all c (puts_for fussy_deps clock 1 second_request) (fussy_server.inner.db c)

taken :
    fussy.write fussy_server.inner.db (puts_for fussy_deps clock 1 second_request) ≡ some second_db
unfolding fussy_write has_nine bytes_eq u64_key
taken = refl

first_passes : (admit fussy_deps 7 fussy_server.rate_limiter).0 ≡ true
unfolding admit try_consume take_tokens refill
first_passes = refl

second_passes : (admit fussy_deps 8 (admit fussy_deps 7 fussy_server.rate_limiter).1).0 ≡ true
unfolding admit try_consume take_tokens refill
second_passes = refl

append-gap_example :
    (s₁ s₂ : AppState fussy_deps) × (append fussy_deps 7 clock fussy_server refused_request
      ≡ done (err (status_from (storage rocks_db)), s₁))
    × (append fussy_deps 8 clock s₁ second_request
        ≡ done (
          ok (
              response second_request (
                length no_entries + 1,
                clock,
                leaf_hash fussy_deps.sha256 second_request.data_bytes,
              )),
          s₂,
        ))
    × IsTreeOf fussy_deps.sha256
        (leaves_of no_entries ++ leaf_hash fussy_deps.sha256 second_request.data_bytes ∷ [])
        s₂.merkle
    × (inclusion_proof fussy_deps s₂ (length no_entries + 1) 1
        ≡ done (
            err
              (status_from (invalid_argument_error (seq_out_of_range (length no_entries + 1) 1)))))
append-gap_example =
    append-gap fussy_deps 7 8 clock clock fussy_server no_entries [] refused_request second_request
      second_db 1 fussy_server-IsServer (omega arith) first_passes second_passes refused taken
      (omega arith) (omega arith)
