-- ===== src/Server/Appends/Keep.antt =====
-- `append` keeps the server's invariant, and how it can end.
use settled.Prelude.{
  ℕ, ◌+◌, ◌^◌, ◌<◌, List, [], ◌∷◌, ◌++◌, none, some, ◌≡◌, ◌⊎◌, inl, inr, refl, sym, ◌∙◌, arith,
  Bool-cases, length, All, All-append, ℤ, IsI64, done, Option, true, false,
}
use mathlib.Core.Path.{subst}
use mathlib.Core.List.{map-append}
use settled.Prelude.Results.{ok, err}
use settled.Core.Hash.{leaf_hash}
use settled.Core.Merkle.{MerkleTree}
use settled.Core.Merkle.Tree.{IsTreeOf, append-IsTreeOf}
use settled.Storage.Types.{LogEntry, SignedTreeHead, rocks_db}
use settled.Storage.Rocks.{Put, put_all, cf_heads}
use settled.Storage.LogStore
use settled.Storage.LogStore.{DbInner}
use settled.Storage.LogStore.Log.{IsLog}
use settled.Storage.LogStore.Appends.{new_entry, puts_of, counted, append-outcome}
use settled.Server.Status.{resource_exhausted, rate_limit_exceeded, status_from, storage}
use settled.Server.Messages.{AppendRequest}
use settled.Server.Deps.{Deps}
use settled.Server.RateLimit.{Bucket}
use settled.Server.State.{AppState}
use settled.Server.Appends.{append, appended, admit, response, sent_entry}
use settled.Server.Invariant.{
  leaves_of, length-leaves_of, IsServer, IsHashed, IsHonest, IsHonest-append,
}

module _ (d : Deps) where
  -- The entry that a request becomes.
  abbrev pub entry_of : ℤ → ℕ → AppendRequest → LogEntry
  entry_of t seq req = new_entry d.rocks d.log_messages d.sha256 t seq req.key req.data_bytes

  abbrev pub puts_for : ℤ → ℕ → AppendRequest → List Put
  puts_for t seq req = puts_of d.rocks d.log_messages d.sha256 (entry_of t seq req)

  abbrev pub limited : AppState d → ℕ → AppState d
  limited s now = record s { rate_limiter = (admit d now s.rate_limiter).1 }

  -- The state after a written entry.
  abbrev pub with_entry : AppState d → AppendRequest → ℤ → ℕ → d.rocks.Db → MerkleTree → AppState d
  with_entry s req t seq db' merkle' = record s {
    inner = counted d.rocks d.log_messages d.sha256 db' seq;
    merkle = merkle';
    sent = s.sent ++ sent_entry req (seq, t, leaf_hash d.sha256 req.data_bytes) ∷ [];
  }

  leaves_of-append :
      (es : List LogEntry) (t : ℤ) (seq : ℕ) (req : AppendRequest)
      → leaves_of (es ++ entry_of t seq req ∷ [])
        ≡ leaves_of es ++ leaf_hash d.sha256 req.data_bytes ∷ []
  leaves_of-append es t seq req = map-append (λ e. e.leaf_hash) es (entry_of t seq req ∷ [])

  pub with_entry-IsServer :
      (s : AppState d) (es : List LogEntry) (hs : List SignedTreeHead) (req : AppendRequest) (t : ℤ)
      (db' : d.rocks.Db) (merkle' : MerkleTree)
      → IsServer d s es hs
      → d.rocks.write s.inner.db (puts_for t (length es) req) ≡ some db'
      → IsLog d.rocks d.log_messages
          (counted d.rocks d.log_messages d.sha256 db' (length es))
          (es ++ entry_of t (length es) req ∷ [])
      → IsTreeOf d.sha256 (leaves_of es ++ leaf_hash d.sha256 req.data_bytes ∷ []) merkle'
      → IsServer d
          (with_entry s req t (length es) db' merkle')
          (es ++ entry_of t (length es) req ∷ [])
          hs
  unfolding put_all
  with_entry-IsServer s es hs req t db' merkle' v w log' tree' =
      let more = leaves_of-append es t (length es) req in
      record {
        log = log';
        tree = subst (λ ls. IsTreeOf d.sha256 ls merkle') (sym more) tree';
        hashed = All-append (IsHashed d) es (entry_of t (length es) req ∷ []) v.hashed (refl, tt);
        head_rows =
            d.rocks.rows-write s.inner.db db' (puts_for t (length es) req) w cf_heads ∙ v.head_rows;
        heads = v.heads;
        ascending = v.ascending;
        honest =
            subst (λ ls. All (IsHonest d ls) hs) (sym more)
              (IsHonest-append d (leaves_of es) (leaf_hash d.sha256 req.data_bytes ∷ []) hs
                v.honest);
      }

  -- From the answer of the log on.
  appended-outcome :
      (s : AppState d) (es : List LogEntry) (hs : List SignedTreeHead) (req : AppendRequest) (t : ℤ)
      → IsServer d s es hs
      → IsI64 t
      → length es + 1 < 2 ^ 64
      → ((d.rocks.write s.inner.db (puts_for t (length es) req) ≡ none)
          × (appended d s req
                (LogStore.append d.rocks d.log_messages d.sha256 t s.inner req.key req.data_bytes)
              ≡ done (
                err (status_from (storage rocks_db)),
                record s { inner = counted d.rocks d.log_messages d.sha256 s.inner.db (length es) },
              )))
        ⊎ ((s' : AppState d) × (appended d s req
                (LogStore.append d.rocks d.log_messages d.sha256 t s.inner req.key req.data_bytes)
              ≡ done (ok (response req (length es, t, leaf_hash d.sha256 req.data_bytes)), s'))
            × IsServer d s' (es ++ entry_of t (length es) req ∷ []) hs
            × (s'.sent
                ≡ s.sent ++ sent_entry req (length es, t, leaf_hash d.sha256 req.data_bytes) ∷ []))
  unfolding appended
  appended-outcome s es hs req t v ht few =
      let lh = leaf_hash d.sha256 req.data_bytes in
      elim (append-outcome d.rocks d.log_messages d.sha256 d.length_sha256 t s.inner es req.key
        req.data_bytes ht v.log few) [
          | inl (refused, result) ↦ inl (refused, rw result)
          | inr (db', w, result, log') ↦
              let (merkle', runs, tree') =
                append-IsTreeOf d.sha256 (leaves_of es) s.merkle lh v.tree
                  (omega (arith, length-leaves_of es)) in
              inr (
                with_entry s req t (length es) db' merkle',
                rw (result, runs),
                with_entry-IsServer s es hs req t db' merkle' v w log' tree',
                refl,
              )
        ]

  -- The limiter is no part of the invariant.
  pub limited-IsServer :
      (s : AppState d) (es : List LogEntry) (hs : List SignedTreeHead)
      (limiter : Option (Bucket d.floats))
      → IsServer d s es hs
      → IsServer d (record s { rate_limiter = limiter }) es hs
  limited-IsServer s es hs limiter v = record {
    log = v.log;
    tree = v.tree;
    hashed = v.hashed;
    head_rows = v.head_rows;
    heads = v.heads;
    ascending = v.ascending;
    honest = v.honest;
  }

  -- On a server whose log has fewer than 2^64 - 1 entries and whose state is sound (tree over the
  -- log's leaf hashes, tree heads that are signed and true of prefixes), with a clock of 64 bits,
  -- `append` never panics. If the limiter refuses, so does `append`, and only the limiter's state
  -- changes. If it passes and the database refuses the write, no entry, leaf or notice is added
  -- though the counter moves on. If both pass, the response has the log's length as its number, the
  -- state is sound with the entry at the end of the log, and exactly that entry is sent to the
  -- watchers.
  pub append-IsServer :
      (now : ℕ) (t : ℤ) (s : AppState d) (es : List LogEntry) (hs : List SignedTreeHead)
      (req : AppendRequest)
      → IsServer d s es hs
      → IsI64 t
      → length es + 1 < 2 ^ 64
      → (((admit d now s.rate_limiter).0 ≡ false)
          × (append d now t s req
              ≡ done (err (resource_exhausted rate_limit_exceeded), limited s now)))
        ⊎ ((((admit d now s.rate_limiter).0 ≡ true)
              × (d.rocks.write s.inner.db (puts_for t (length es) req) ≡ none)
              × (append d now t s req
                  ≡ done (
                    err (status_from (storage rocks_db)),
                    record (limited s now) {
                      inner = counted d.rocks d.log_messages d.sha256 s.inner.db (length es);
                    },
                  )))
            ⊎ ((s' : AppState d) × ((admit d now s.rate_limiter).0 ≡ true)
                × (append d now t s req
                    ≡ done
                        (ok (response req (length es, t, leaf_hash d.sha256 req.data_bytes)), s'))
                × IsServer d s' (es ++ entry_of t (length es) req ∷ []) hs
                × (s'.sent
                    ≡ s.sent
                      ++ sent_entry req (length es, t, leaf_hash d.sha256 req.data_bytes) ∷ [])))
  unfolding append
  append-IsServer now t s es hs req v ht few =
      let v' = limited-IsServer s es hs (admit d now s.rate_limiter).1 v in
      elim (Bool-cases (admit d now s.rate_limiter).0) [
        | inr refuses ↦ inl (refuses, rw refuses refl)
        | inl passes ↦ elim (appended-outcome (limited s now) es hs req t v' ht few) [
          | inl (refused, result) ↦ inr (inl (passes, refused, rw passes result))
          | inr (s', result, v'', sent') ↦ inr (inr (s', passes, rw passes result, v'', sent'))
        ]
      ]
