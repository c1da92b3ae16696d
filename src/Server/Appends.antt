-- ===== src/Server/Appends.antt =====
-- crates/settled-server/src/service.rs: `append` and `batch_append`, from the lock to the notice of
-- the watchers in one step. The clock readings are arguments: `now` for the rate limiter, and
-- `timestamp_ns` for the entry.
pub mod Keep
pub mod Gap
pub mod Batch
use settled.Prelude.{
  ℕ, ◌%◌, ◌^◌, List, [], ◌∷◌, ◌++◌, Option, none, some, Bool, true, false, ltb, ◌==◌, if◌then◌else◌,
  length, map, ℤ, Run, done, ◌>>=◌,
}
use settled.Prelude.Results.{Result, ok, err}
use settled.Core.Hash.{Bytes, Hash, leaf_hash}
use settled.Core.Merkle.{append_all}
use settled.Core.Merkle
use settled.Storage.Types
use settled.Storage.LogStore
use settled.Storage.LogStore.{DbInner}
use settled.Storage.LogStore.Batch.{append_batch}
use settled.Server.RateLimit.{Bucket, try_consume, try_consume_n}
use settled.Server.Status.{
  Status, resource_exhausted, invalid_argument_error, status_from, storage, rate_limit_exceeded,
  batch_too_large,
}
use settled.Server.Messages.{Entry, AppendRequest, AppendResponse}
use settled.Server.Deps.{Deps}
use settled.Server.State.{AppState}

abbrev pub max_batch : ℕ
max_batch = 1000

-- What is sent to the watchers, and what is answered, for one entry.
unfoldable pub sent_entry : AppendRequest → ℕ × ℤ × Hash → Entry
sent_entry req (seq, timestamp_ns, lh) = record {
  seq = seq;
  timestamp_ns = timestamp_ns;
  key = req.key;
  data_bytes = req.data_bytes;
  leaf_hash = lh;
}

unfoldable pub response : AppendRequest → ℕ × ℤ × Hash → AppendResponse
response req (seq, timestamp_ns, lh) = record {
  seq = seq;
  timestamp_ns = timestamp_ns;
  leaf_hash = lh;
  key = req.key;
}

-- `req.entries.iter().zip(results.iter())`.
abbrev pub zip_with {ℓ κ ι} :
    {A : Type ℓ} {B : Type κ} {C : Type ι} → (A → B → C) → List A → List B → List C
zip_with f [] ys = []
zip_with f (x ∷ xs) [] = []
zip_with f (x ∷ xs) (y ∷ ys) = f x y ∷ zip_with f xs ys

module _ (d : Deps) where
  -- The limiter's test, which passes when there is no limiter.
  unfoldable pub admit : ℕ → Option (Bucket d.floats) → Bool × Option (Bucket d.floats)
  admit now none = (true, none)
  admit now (some b) = let (passes, b') = try_consume d.floats now b in (passes, some b')

  unfoldable pub admit_n : ℕ → ℕ → Option (Bucket d.floats) → Bool × Option (Bucket d.floats)
  admit_n now n none = (true, none)
  admit_n now n (some b) = let (passes, b') = try_consume_n d.floats now n b in (passes, some b')

  -- From the answer of `log.append` on: the leaf, the notice and the response.
  unfoldable pub appended :
      AppState d
      → AppendRequest
      → Result Types.Error (ℕ × ℤ) × DbInner d.rocks d.log_messages
      → Run (Result Status AppendResponse × AppState d)
  appended s req (err e, inner') = done (err (status_from (storage e)), record s { inner = inner' })
  appended s req (ok (seq, ts), inner') = do
    let lh = leaf_hash d.sha256 req.data_bytes
    (index, merkle') ← Merkle.append d.sha256 s.merkle lh
    done (
      ok (response req (seq, ts, lh)),
      record s {
        inner = inner';
        merkle = merkle';
        sent = s.sent ++ sent_entry req (seq, ts, lh) ∷ [];
      },
    )

  unfoldable pub append :
      ℕ → ℤ → AppState d → AppendRequest → Run (Result Status AppendResponse × AppState d)
  append now timestamp_ns s req =
      let (passes, limiter) = admit now s.rate_limiter in
      let s' = record s { rate_limiter = limiter } in
      let logged = appended s' req (
        LogStore.append d.rocks d.log_messages d.sha256 timestamp_ns s.inner req.key
          req.data_bytes) in
      if passes then logged else done (err (resource_exhausted rate_limit_exceeded), s')

  -- The same of `batch_append`.
  unfoldable pub batch_appended :
      AppState d
      → List AppendRequest
      → Result Types.Error (List (ℕ × ℤ × Hash)) × DbInner d.rocks d.log_messages
      → Run (Result Status (List AppendResponse) × AppState d)
  batch_appended s reqs (err e, inner') =
      done (err (status_from (storage e)), record s { inner = inner' })
  batch_appended s reqs (ok results, inner') = do
    merkle' ← append_all d.sha256 s.merkle (map (λ x. x.2) results)
    done (
      ok (zip_with response reqs results),
      record s {
        inner = inner';
        merkle = merkle';
        sent = s.sent ++ zip_with sent_entry reqs results;
      },
    )

  unfoldable pub batch_append :
      ℕ
      → ℤ
      → AppState d
      → List AppendRequest
      → Run (Result Status (List AppendResponse) × AppState d)
  batch_append now timestamp_ns s reqs =
      let n = length reqs in
      let (passes, limiter) = admit_n now (n % 2 ^ 32) s.rate_limiter in
      let s' = record s { rate_limiter = limiter } in
      let logged = batch_appended s' reqs (
        append_batch d.rocks d.log_messages d.sha256 timestamp_ns s.inner
          (map (λ e. (e.key, e.data_bytes)) reqs)) in
      if n == 0
      then done (ok [], s)
      else if ltb max_batch n
      then done (err (status_from (invalid_argument_error (batch_too_large n))), s)
      else if passes
      then logged
      else done (err (resource_exhausted rate_limit_exceeded), s')
