-- ===== src/Server/Watch.antt =====
-- `watch` of crates/settled-server/src/service.rs: what the stream is sent. Each round of the replay
-- reads the log as it stands then, so the logs that the rounds read are an argument, and so is what
-- the channel gives after the subscription. A client that hangs up only cuts the stream off.
pub mod Live
pub mod Complete
use settled.Prelude.{
  ℕ, List, [], ◌∷◌, ◌++◌, Option, none, some, Bool, false, ltb, leb, ◌==◌, if◌then◌else◌, map,
}
use settled.Prelude.Results.{Result, ok, err}
use settled.Storage.Types.{LogEntry}
use settled.Storage.Types
use settled.Storage.LogStore.{DbInner, seq_range_paged}
use settled.Server.Status.{Status, internal, resource_exhausted, storage_text, stream_lagged}
use settled.Server.Messages.{Entry, entry_to_proto}
use settled.Server.Deps.{Deps}

-- What `watch_rx.recv()` gives.
pub data Received : Type 0 where
  received : Entry → Received
  lagged : ℕ → Received
  closed : Received

-- `last_sent` after a replay, its failure, or no end with the given rounds.
pub data Replayed : Type 0 where
  replayed : Option ℕ → Replayed
  failed : Types.Error → Replayed
  unfinished : Replayed

-- `last_sent` after the loop over a page.
unfoldable pub last_of : Option ℕ → List LogEntry → Option ℕ
last_of last [] = last
last_of last (e ∷ es) = last_of (some e.seq) es

-- `last_sent.is_some_and(|last| entry.seq <= last)`.
unfoldable pub is_sent : Option ℕ → ℕ → Bool
is_sent none seq = false
is_sent (some last) seq = leb seq last

-- Phase 2: the live stream.
unfoldable pub live : Option ℕ → List Received → List (Result Status Entry)
live last [] = []
live last (received e ∷ events) =
    let skipped = live last events in
    let sent = ok e ∷ live (some e.seq) events in if is_sent last e.seq then skipped else sent
live last (lagged n ∷ events) = err (resource_exhausted (stream_lagged n)) ∷ []
live last (closed ∷ events) = []

-- Phase 1 and then phase 2, or the error of phase 1.
unfoldable pub replay_then_live : List Entry × Replayed → List Received → List (Result Status Entry)
replay_then_live (sent, replayed last) events = map ok sent ++ live last events
replay_then_live (sent, failed e) events = map ok sent ++ err (internal (storage_text e)) ∷ []
replay_then_live (sent, unfinished) events = map ok sent

abbrev pub put_before : List Entry → List Entry × Replayed → List Entry × Replayed
put_before first (sent, end) = (first ++ sent, end)

module _ (d : Deps) where
  -- One round of the loop, from its page on; `more` is the loop from a cursor.
  unfoldable pub replay_page :
      (ℕ → Option ℕ → List Entry × Replayed)
      → Option ℕ
      → Result Types.Error (List LogEntry × ℕ)
      → List Entry × Replayed
  replay_page more last (err e) = ([], failed e)
  replay_page more last (ok (entries, next)) =
      let sent = map entry_to_proto entries in
      let last' = last_of last entries in
      let rest = put_before sent (more next last') in
      if next == 0 then (sent, replayed last') else rest

  -- Phase 1: the replay.
  unfoldable pub replay :
      List (DbInner d.rocks d.log_messages) → ℕ → Option ℕ → List Entry × Replayed
  replay [] cursor last = ([], unfinished)
  replay (log ∷ logs) cursor last =
      replay_page (replay logs) last (seq_range_paged d.rocks d.log_messages log cursor 0 200)

  unfoldable pub watch :
      List (DbInner d.rocks d.log_messages) → List Received → ℕ → List (Result Status Entry)
  watch logs events from_seq =
      let history = replay_then_live (replay logs from_seq none) events in
      if ltb 0 from_seq then history else live none events
