-- ===== src/Server/Appends/Batch.antt =====
-- `batch_append` keeps the server's invariant, and how it can end.
use settled.Prelude.{
  none, true, false, ℕ, suc, ◌+◌, ◌%◌, ◌^◌, ◌<◌, ◌≤◌, List, [], ◌∷◌, ◌++◌, some, ◌≡◌, ◌⊎◌, inl, inr,
  refl, ap, sym, ◌∙◌, arith, Bool-cases, length, map, All, All-append, ℤ, IsI64, done, ltb_ge,
  lt→ltb, ==_ne,
}
use native.Mathlib.Nat.{mod-eq_of_lt}
use mathlib.Core.Path.{subst}
use mathlib.Core.List.{map-append}
use settled.Prelude.Results.{ok, err}
use settled.Core.Hash.{Bytes}
use settled.Core.Merkle.{MerkleTree}
use settled.Core.Merkle.Tree.{IsTreeOf}
use settled.Core.Merkle.Incremental.{append_all-IsTreeOf}
use settled.Storage.Types.{LogEntry, SignedTreeHead, rocks_db}
use settled.Storage.Rocks.{Put, put_all, cf_heads}
use settled.Storage.LogStore.Log.{IsLog}
use settled.Storage.LogStore.Batch.{
  append_batch, new_entries, all_puts, result_of, length-new_entries, append_batch-outcome,
}
use settled.Server.Status.{
  resource_exhausted, rate_limit_exceeded, status_from, storage, invalid_argument_error,
  batch_too_large,
}
use settled.Server.Messages.{AppendRequest, AppendResponse, entry_to_proto}
use settled.Server.Deps.{Deps}
use settled.Server.State.{AppState}
use settled.Server.Appends.{batch_append, batch_appended, admit_n, response, sent_entry, zip_with}
use settled.Server.Appends.Keep.{limited-IsServer}
use settled.Server.Invariant.{
  leaves_of, length-leaves_of, IsServer, IsHashed, IsHonest, IsHonest-append,
}

-- What is answered for an entry.
abbrev pub answer : LogEntry → AppendResponse
answer e = record {
  seq = e.seq;
  timestamp_ns = e.timestamp_ns;
  leaf_hash = e.leaf_hash;
  key = e.key;
}

abbrev pub pairs_of : List AppendRequest → List (Bytes × Bytes)
pairs_of reqs = map (λ e. (e.key, e.data_bytes)) reqs

length-pairs_of : (reqs : List AppendRequest) → length (pairs_of reqs) ≡ length reqs
length-pairs_of [] = refl
length-pairs_of (x ∷ reqs) = ap suc (length-pairs_of reqs)

module _ (d : Deps) where
  -- The entries that a batch becomes.
  abbrev pub entries_for : ℤ → ℕ → List AppendRequest → List LogEntry
  entries_for t seq reqs = new_entries d.rocks d.log_messages d.sha256 t seq (pairs_of reqs)

  abbrev pub puts_for_all : ℤ → ℕ → List AppendRequest → List Put
  puts_for_all t seq reqs = all_puts d.rocks d.log_messages d.sha256 (entries_for t seq reqs)

  responses_lem :
      (t : ℤ) (seq : ℕ) (reqs : List AppendRequest)
      → zip_with response reqs
          (map (result_of d.rocks d.log_messages d.sha256) (entries_for t seq reqs))
        ≡ map answer (entries_for t seq reqs)
  unfolding response
  responses_lem t seq [] = refl
  responses_lem t seq (x ∷ reqs) = rw (responses_lem t (seq + 1) reqs)

  sent_lem :
      (t : ℤ) (seq : ℕ) (reqs : List AppendRequest)
      → zip_with sent_entry reqs
          (map (result_of d.rocks d.log_messages d.sha256) (entries_for t seq reqs))
        ≡ map entry_to_proto (entries_for t seq reqs)
  unfolding sent_entry entry_to_proto
  sent_lem t seq [] = refl
  sent_lem t seq (x ∷ reqs) = rw (sent_lem t (seq + 1) reqs)

  hashes_lem :
      (news : List LogEntry)
      → map (λ x. x.2) (map (result_of d.rocks d.log_messages d.sha256) news) ≡ leaves_of news
  hashes_lem [] = refl
  hashes_lem (x ∷ news) = ap (◌∷◌ x.leaf_hash) (hashes_lem news)

  hashed_lem :
      (t : ℤ) (seq : ℕ) (reqs : List AppendRequest) → All (IsHashed d) (entries_for t seq reqs)
  hashed_lem t seq [] = tt
  hashed_lem t seq (x ∷ reqs) = (refl, hashed_lem t (seq + 1) reqs)

  heads-all_puts :
      (news : List LogEntry) (rows : List (Bytes × Bytes))
      → put_all cf_heads (all_puts d.rocks d.log_messages d.sha256 news) rows ≡ rows
  unfolding put_all
  heads-all_puts [] rows = refl
  heads-all_puts (x ∷ news) rows = heads-all_puts news rows

  -- The state after a written batch.
  abbrev pub with_entries :
      AppState d → ℤ → ℕ → List AppendRequest → d.rocks.Db → MerkleTree → AppState d
  with_entries s t seq reqs db' merkle' = record s {
    inner = record { db = db'; next_seq = seq + length (pairs_of reqs) };
    merkle = merkle';
    sent = s.sent ++ map entry_to_proto (entries_for t seq reqs);
  }

  with_entries-IsServer :
      (s : AppState d) (es : List LogEntry) (hs : List SignedTreeHead) (reqs : List AppendRequest)
      (t : ℤ) (db' : d.rocks.Db) (merkle' : MerkleTree)
      → IsServer d s es hs
      → d.rocks.write s.inner.db
          (all_puts d.rocks d.log_messages d.sha256 (entries_for t (length es) reqs))
        ≡ some db'
      → IsLog d.rocks d.log_messages
          (record { db = db'; next_seq = length es + length (pairs_of reqs) })
          (es ++ entries_for t (length es) reqs)
      → IsTreeOf d.sha256 (leaves_of es ++ leaves_of (entries_for t (length es) reqs)) merkle'
      → IsServer d
          (with_entries s t (length es) reqs db' merkle')
          (es ++ entries_for t (length es) reqs)
          hs
  with_entries-IsServer s es hs reqs t db' merkle' v w log' tree' =
      let news = entries_for t (length es) reqs in
      let more = map-append (λ (e : LogEntry). e.leaf_hash) es news in
      record {
        log = log';
        tree = subst (λ ls. IsTreeOf d.sha256 ls merkle') (sym more) tree';
        hashed = All-append (IsHashed d) es news v.hashed (hashed_lem t (length es) reqs);
        head_rows =
            d.rocks.rows-write s.inner.db db' (all_puts d.rocks d.log_messages d.sha256 news) w
              cf_heads
            ∙ heads-all_puts news (d.rocks.rows s.inner.db cf_heads)
            ∙ v.head_rows;
        heads = v.heads;
        ascending = v.ascending;
        honest =
            subst (λ ls. All (IsHonest d ls) hs) (sym more)
              (IsHonest-append d (leaves_of es) (leaves_of news) hs v.honest);
      }

  -- From the answer of the log on.
  batch_appended-outcome :
      (s : AppState d) (es : List LogEntry) (hs : List SignedTreeHead) (req : AppendRequest)
      (reqs : List AppendRequest) (t : ℤ)
      → IsServer d s es hs
      → IsI64 t
      → length es + length (req ∷ reqs) < 2 ^ 64
      → ((d.rocks.write s.inner.db (puts_for_all t (length es) (req ∷ reqs)) ≡ none)
          × (batch_appended d s
                (req ∷ reqs)
                (append_batch d.rocks d.log_messages d.sha256 t s.inner (pairs_of (req ∷ reqs)))
              ≡ done (
                err (status_from (storage rocks_db)),
                record s {
                  inner = record { db = s.inner.db; next_seq = length es + length (req ∷ reqs) };
                },
              )))
        ⊎ ((s' : AppState d) × (batch_appended d s
                (req ∷ reqs)
                (append_batch d.rocks d.log_messages d.sha256 t s.inner (pairs_of (req ∷ reqs)))
              ≡ done (ok (map answer (entries_for t (length es) (req ∷ reqs))), s'))
            × IsServer d s' (es ++ entries_for t (length es) (req ∷ reqs)) hs
            × (s'.sent ≡ s.sent ++ map entry_to_proto (entries_for t (length es) (req ∷ reqs))))
  unfolding batch_appended
  batch_appended-outcome s es hs req reqs t v ht few =
      let pairs = pairs_of reqs in
      let same = length-pairs_of reqs in
      let news = entries_for t (length es) (req ∷ reqs) in
      elim (append_batch-outcome d.rocks d.log_messages d.sha256 d.length_sha256 t s.inner es
        (req.key, req.data_bytes) pairs ht v.log (omega (arith, same))) [
          | inl (refused, result) ↦ inl (refused, rw (result, same))
          | inr (db', w, result, log') ↦
              let (merkle', runs, tree') =
                append_all-IsTreeOf d.sha256 (leaves_of news) (leaves_of es) s.merkle v.tree (
                  omega (
                    arith,
                    same,
                    length-leaves_of es,
                    length-leaves_of news,
                    length-new_entries d.rocks d.log_messages d.sha256 t (length es)
                        (pairs_of (req ∷ reqs)),
                  )) in
              inr (
                with_entries s t (length es) (req ∷ reqs) db' merkle',
                rw (
                  result,
                  responses_lem t (length es) (req ∷ reqs),
                  sent_lem t (length es) (req ∷ reqs),
                  hashes_lem news,
                  runs,
                ),
                with_entries-IsServer s es hs (req ∷ reqs) t db' merkle' v w log' tree',
                refl,
              )
        ]

  abbrev pub limited_n : AppState d → ℕ → ℕ → AppState d
  limited_n s now n = record s { rate_limiter = (admit_n d now n s.rate_limiter).1 }

  -- An empty batch is answered with nothing, and a batch of more than 1000 entries is refused, with
  -- no change of the state.
  pub batch_append-sizes :
      (now : ℕ) (t : ℤ) (s : AppState d) (reqs : List AppendRequest)
      → (batch_append d now t s [] ≡ done (ok [], s))
        × (1000 < length reqs
            → batch_append d now t s reqs
              ≡ done
                  (err (status_from (invalid_argument_error (batch_too_large (length reqs)))), s))
  unfolding batch_append
  batch_append-sizes now t s reqs = (
    refl,
    λ large. rw (
      ==_ne (length reqs) 0 (λ none_left. omega (arith, large)),
      lt→ltb 1000 (length reqs) large,
    ),
  )

  -- On a sound server whose log has room for them, a batch of 1 to 1000 entries never panics. If the
  -- limiter, asked for as many tokens as there are entries, refuses, so does `batch_append`, and only
  -- the limiter's state changes. If it passes and the database refuses the write, no entry, leaf or
  -- notice is added though the counter moves on. If both pass, there is an answer for each entry in
  -- order, the log ends with exactly these entries, the state is sound for it, and exactly these
  -- entries are sent to the watchers in order.
  pub batch_append-IsServer :
      (now : ℕ) (t : ℤ) (s : AppState d) (es : List LogEntry) (hs : List SignedTreeHead)
      (req : AppendRequest) (reqs : List AppendRequest)
      → IsServer d s es hs
      → IsI64 t
      → length (req ∷ reqs) ≤ 1000
      → length es + length (req ∷ reqs) < 2 ^ 64
      → (((admit_n d now (length (req ∷ reqs)) s.rate_limiter).0 ≡ false)
          × (batch_append d now t s (req ∷ reqs)
              ≡ done (
                err (resource_exhausted rate_limit_exceeded),
                limited_n s now (length (req ∷ reqs)),
              )))
        ⊎ ((((admit_n d now (length (req ∷ reqs)) s.rate_limiter).0 ≡ true)
              × (d.rocks.write s.inner.db (puts_for_all t (length es) (req ∷ reqs)) ≡ none)
              × (batch_append d now t s (req ∷ reqs)
                  ≡ done (
                    err (status_from (storage rocks_db)),
                    record (limited_n s now (length (req ∷ reqs))) {
                      inner = record {
                        db = s.inner.db;
                        next_seq = length es + length (req ∷ reqs);
                      };
                    },
                  )))
            ⊎ ((s' : AppState d) × ((admit_n d now (length (req ∷ reqs)) s.rate_limiter).0 ≡ true)
                × (batch_append d now t s (req ∷ reqs)
                    ≡ done (ok (map answer (entries_for t (length es) (req ∷ reqs))), s'))
                × IsServer d s' (es ++ entries_for t (length es) (req ∷ reqs)) hs
                × (s'.sent
                    ≡ s.sent ++ map entry_to_proto (entries_for t (length es) (req ∷ reqs)))))
  unfolding batch_append
  batch_append-IsServer now t s es hs req reqs v ht small few =
      let n = length (req ∷ reqs) in
      let limiter = (admit_n d now n s.rate_limiter).1 in
      let as_u32 : n % 2 ^ 32 ≡ n = mod-eq_of_lt (omega arith) in
      let some_entries = ==_ne n 0 (λ empty. omega arith) in
      let not_large = ltb_ge 1000 n small in
      let v' = limited-IsServer d s es hs limiter v in
      elim (Bool-cases (admit_n d now n s.rate_limiter).0) [
        | inr refuses ↦ inl (refuses, rw (some_entries, not_large, as_u32, refuses) refl)
        | inl passes ↦
            elim (batch_appended-outcome (limited_n s now n) es hs req reqs t v' ht few) [
              | inl (refused, result) ↦
                  inr (inl (passes, refused, rw (some_entries, not_large, as_u32, passes) result))
              | inr (s', result, v'', sent') ↦ inr (
                  inr (s', passes, rw (some_entries, not_large, as_u32, passes) result, v'', sent'))
            ]
      ]
