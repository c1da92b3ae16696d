-- ===== src/Server/Examples/Starting.antt =====
-- A restart, and what watchers are sent, on small servers.
use settled.Prelude.{
  List, [], ◌∷◌, ◌++◌, Option, none, some, true, ◌≡◌, ◌⊎◌, refl, arith, drop, be_bytes, done, pos,
}
use settled.Prelude.Results.{ok, err}
use settled.Core.Hash.{bytes_eq, leaf_hash}
use settled.Core.Merkle.{root}
use settled.Core.Examples.{the_key, toy_length}
use settled.Storage.Types.{LogEntry, KeyRecord, rocks_db}
use settled.Storage.Rows.{find_row, put_row, lex_lt, u64_key, rows_in}
use settled.Storage.Rocks.{put_all, cf_default}
use settled.Storage.LogStore.{DbInner}
use settled.Storage.Database.{schema_version_key}
use settled.Storage.HeadStore.{get, latest_key, first_key}
use settled.Storage.HeadStore.Keys.{key_puts}
use settled.Storage.Examples.{table, lengths_first}
use settled.Storage.HeadStore.Examples.{plain_keys}
use settled.Server.State.{AppState}
use settled.Server.Messages.{Entry}
use settled.Server.Build.{build, storage_failed, version_of}
use settled.Server.Build.Restart.{build-IsServer, first_record}
use settled.Server.Signing.{load_or_generate}
use settled.Server.Watch.{watch, live, received, lagged}
use settled.Server.Watch.Complete.{watch_complete}
use settled.Server.Watch.Live.{live-drops, events_of, sent_of}
use settled.Server.Appends.Keep.{entry_of, puts_for}
use settled.Server.Invariant.{IsServer}
use settled.Server.Examples.{
  deps, clock, request, first_entry, first_head, headed_db, headed_server, headed_server-IsServer,
}

abbrev no_key : Option KeyRecord
no_key = none

schema_row : find_row schema_version_key (headed_db cf_default) ≡ some (be_bytes 4 1)
unfolding find_row put_row put_all bytes_eq
schema_row = refl

no_keys : latest_key table plain_keys headed_db ≡ ok no_key
unfolding latest_key rows_in put_all put_row first_key
no_keys = refl

loaded :
    load_or_generate deps the_key true headed_server.key_file 1
    ≡ ok (headed_server.signer, deps.ed25519.signing_key_bytes the_key)
unfolding load_or_generate
loaded = refl

build-IsServer_example :
    ((no_key ≡ none)
      × (deps.rocks.write headed_server.inner.db
            (key_puts deps.rocks deps.key_messages (first_record deps headed_server.signer))
          ≡ none)
      × (build deps 7 the_key true headed_server.key_file 1000 none headed_server.inner.db
          ≡ done (err (storage_failed rocks_db))))
    ⊎ ((s' : AppState deps) × (build deps 7 the_key true headed_server.key_file 1000 none
            headed_server.inner.db
          ≡ done (ok s'))
        × IsServer deps s' (first_entry ∷ []) (first_head ∷ [])
        × (root deps.sha256 s'.merkle ≡ root deps.sha256 headed_server.merkle)
        × (s'.signer ≡ headed_server.signer)
        × (no_key ≡ none
            → get deps.rocks deps.key_messages s'.inner.db 1
              ≡ ok (some (first_record deps headed_server.signer))))
unfolding version_of
build-IsServer_example =
    build-IsServer deps headed_server (first_entry ∷ []) (first_head ∷ []) headed_server-IsServer
      schema_row 7 the_key true 1000 none no_key headed_server.signer
      (deps.ed25519.signing_key_bytes the_key) no_keys loaded

abbrev three_entries : List LogEntry
three_entries =
    entry_of deps clock 0 request
    ∷ entry_of deps clock 1 request
    ∷ entry_of deps clock 2 request
    ∷ []

abbrev two_log : DbInner table lengths_first
two_log = record {
  db =
      λ c. put_all c (puts_for deps clock 1 request) (put_all c (puts_for deps clock 0 request) []);
  next_seq = 2;
}

watch_complete_example :
    (watch deps (two_log ∷ []) (events_of (drop 2 three_entries)) 1
      ≡ sent_of (drop 1 three_entries))
    × (watch deps (two_log ∷ []) (events_of (drop 2 three_entries)) 0
        ≡ sent_of (drop 2 three_entries))
unfolding put_all put_row lex_lt leaf_hash u64_key bytes_eq
watch_complete_example =
    watch_complete deps three_entries (refl, (refl, (refl, tt))) (omega arith) (two_log ∷ []) 1 2
      (omega arith) (omega arith) (omega arith)
      (
        2,
        omega arith,
        omega arith,
        (
          tt,
          refl,
          (
            (omega arith, omega arith, toy_length (0 ∷ 2 ∷ 3 ∷ [])),
            ((omega arith, omega arith, toy_length (0 ∷ 2 ∷ 3 ∷ [])), tt),
          ),
          (refl, (refl, tt)),
          refl,
          omega arith,
        ),
        tt,
      )
      (omega arith)

abbrev later_entry : Entry
later_entry = record { seq = 4; timestamp_ns = pos 1; key = []; data_bytes = []; leaf_hash = [] }

abbrev earlier_entry : Entry
earlier_entry = record { seq = 3; timestamp_ns = pos 1; key = []; data_bytes = []; leaf_hash = [] }

abbrev between_entry : Entry
between_entry = record { seq = 6; timestamp_ns = pos 1; key = []; data_bytes = []; leaf_hash = [] }

live-drops_example :
    live none (
      (received between_entry ∷ [])
      ++ received later_entry ∷ (received between_entry ∷ [])
      ++ received earlier_entry ∷ (lagged 2 ∷ []))
    ≡ live none (
        (received between_entry ∷ [])
        ++ received later_entry ∷ (received between_entry ∷ [])
        ++ (lagged 2 ∷ []))
live-drops_example =
    live-drops none later_entry earlier_entry (received between_entry ∷ [])
      (received between_entry ∷ []) (lagged 2 ∷ []) (omega arith)
