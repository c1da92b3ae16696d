-- ===== src/Server/Reads/Heads.antt =====
-- The tree heads that the handlers find, and the leaf hashes that they read, on a sound server.
use settled.Prelude.{
  ℕ, zero, suc, ◌-◌, List, [], ◌∷◌, Option, none, some, ◌≡◌, ◌≢◌, refl, ap, sym, ◌∙◌, arith, true,
  map, take, if◌then◌else◌, ◌==◌, ==_ne, ==_iff, eq-cases, inl, inr,
}
use settled.Prelude.Results.{ok, err}
use settled.Core.Split.{IsU64}
use settled.Core.Hash.{Hash}
use settled.Storage.Types.{LogEntry, SignedTreeHead}
use settled.Storage.LogStore.Reads.{seq_range-IsLog}
use settled.Storage.HeadStore.{verify_sth}
use settled.Storage.HeadStore.Writes.{IsHead, verify_sth-sign_tree_head}
use settled.Storage.HeadStore.Lookups.{
  find_head, last_head, at_size-find_head, latest-last_head, All-find_head, find_head-last_head,
}
use settled.Sdk.Verifier
use settled.Sdk.Verifier.Heads.{verify_tree_head-sign_tree_head}
use settled.Server.Deps.{Deps}
use settled.Server.State.{AppState}
use settled.Server.Status.{Text, status_from, not_found_error, no_sth_available_yet}
use settled.Server.Reads.{latest_head, head_at}
use settled.Server.Proofs.{leaf_hashes, size_or_latest}
use settled.Server.Invariant.{leaves_of, IsServer, IsHonest}

-- The tree head that a request is about: the one of that size, or the last for 0.
abbrev pub asked : ℕ → List SignedTreeHead → Option SignedTreeHead
asked n hs = if n == 0 then last_head hs else find_head n hs

map-take : (n : ℕ) (es : List LogEntry) → map (λ e. e.leaf_hash) (take n es) ≡ take n (leaves_of es)
map-take zero es = refl
map-take (suc n) [] = refl
map-take (suc n) (e ∷ es) = ap (◌∷◌ e.leaf_hash) (map-take n es)

module _ (d : Deps) (s : AppState d) (es : List LogEntry) (hs : List SignedTreeHead)
    (v : IsServer d s es hs) where
  pub latest_head-ok : (h : SignedTreeHead) → last_head hs ≡ some h → latest_head d s ≡ ok h
  unfolding latest_head
  latest_head-ok h e =
      rw (latest-last_head d.rocks d.head_messages s.inner.db hs v.log.0 v.head_rows v.heads, e)

  pub latest_head-none :
      last_head hs ≡ none
      → latest_head d s ≡ err (status_from (not_found_error no_sth_available_yet))
  unfolding latest_head
  latest_head-none e =
      rw (latest-last_head d.rocks d.head_messages s.inner.db hs v.log.0 v.head_rows v.heads, e)

  pub head_at-ok :
      (msg : ℕ → Text) (n : ℕ) (h : SignedTreeHead)
      → IsU64 n
      → find_head n hs ≡ some h
      → head_at d msg s n ≡ ok h
  unfolding head_at
  head_at-ok msg n h hn e =
      rw (
        at_size-find_head d.rocks d.head_messages s.inner.db hs n v.log.0 v.head_rows v.heads hn,
        e,
      )

  pub head_at-none :
      (msg : ℕ → Text) (n : ℕ)
      → IsU64 n
      → find_head n hs ≡ none
      → head_at d msg s n ≡ err (status_from (not_found_error (msg n)))
  unfolding head_at
  head_at-none msg n hn e =
      rw (
        at_size-find_head d.rocks d.head_messages s.inner.db hs n v.log.0 v.head_rows v.heads hn,
        e,
      )

  pub asked-find_head :
      (n : ℕ) (h : SignedTreeHead) → asked n hs ≡ some h → find_head h.tree_size hs ≡ some h
  asked-find_head n h e = elim (eq-cases n 0) [
    | inl zero_asked ↦ find_head-last_head 0 hs h v.ascending (rw ((==_iff n 0).1 zero_asked) at e)
    | inr other ↦
        let found = rw (==_ne n 0 other) at e in
        ap (λ m. find_head m hs) (All-find_head IsHead n hs h v.heads found).1 ∙ found
  ]

  pub size_or_latest-ok :
      (n : ℕ) (h : SignedTreeHead) → asked n hs ≡ some h → size_or_latest d s n ≡ ok h.tree_size
  unfolding size_or_latest
  size_or_latest-ok n h e = elim (eq-cases n 0) [
    | inl zero_asked ↦
        let is_zero = (==_iff n 0).1 zero_asked in rw (is_zero, latest_head-ok h (rw is_zero at e))
    | inr other ↦
        rw
          (==_ne n 0 other, sym (All-find_head IsHead n hs h v.heads (rw (==_ne n 0 other) at e)).1)
  ]

  pub size_or_latest_given : (n : ℕ) → n ≢ 0 → size_or_latest d s n ≡ ok n
  unfolding size_or_latest
  size_or_latest_given n other = rw (==_ne n 0 other)

  pub size_or_latest_none :
      hs ≡ [] → size_or_latest d s 0 ≡ err (status_from (not_found_error no_sth_available_yet))
  unfolding size_or_latest last_head
  size_or_latest_none empty = rw (latest_head-none (rw empty))

  pub leaf_hashes-ok : (n : ℕ) → leaf_hashes d s n ≡ ok (take n (leaves_of es))
  unfolding leaf_hashes
  leaf_hashes-ok n =
      let whole : n - 0 ≡ n = omega arith in
      rw (seq_range-IsLog d.rocks d.log_messages s.inner es 0 n v.log (omega arith), whole)
        (ap ok (map-take n es))

  pub IsHonest-find_head :
      (n : ℕ) (h : SignedTreeHead)
      → find_head n hs ≡ some h
      → IsHead h × IsHonest d (leaves_of es) h
  IsHonest-find_head n h e = (
    (All-find_head IsHead n hs h v.heads e).0,
    (All-find_head (IsHonest d (leaves_of es)) n hs h v.honest e).0,
  )

-- A tree head that is signed is verified by the server's code and by the client's.
pub IsHonest-verified :
    (d : Deps) (leaves : List Hash) (h : SignedTreeHead)
    → IsHonest d leaves h
    → (verify_sth d.ed25519 h ≡ true)
      × (Verifier.verify_tree_head d.ed25519 h.tree_size h.root_hash h.timestamp_ns h.signature
            h.public_key
          ≡ true)
IsHonest-verified d leaves h v =
    let (key, signed, by) = v.signed in
    (
      verify_sth-sign_tree_head d.ed25519 key h signed by,
      rw (signed, by)
          (verify_tree_head-sign_tree_head d.ed25519 key h.tree_size h.root_hash h.timestamp_ns),
    )
