-- ===== src/Server/Signing/Keep.antt =====
-- `sign_and_store` keeps the server's invariant, and the tree head that it leaves covers the log.
use settled.Prelude.{
  ℕ, ◌≤◌, ◌<◌, ◌^◌, List, [], ◌∷◌, ◌++◌, none, some, ◌≡◌, ◌≢◌, ◌⊎◌, inl, inr, refl, ap, sym, ◌∙◌,
  arith, false, length, take_all, All, All-append, ℤ, IsI64, done, ==_ne, ==_iff, eq-cases,
  Option-cases,
}
use mathlib.Core.List.{map-append}
use settled.Prelude.Results.{ok, err}
use settled.Core.Hash.{Hash}
use settled.Core.Merkle.{tree_hash}
use settled.Core.Merkle.Spec.{tree_hash-IsHash}
use settled.Core.Merkle.Tree.{root-IsTreeOf}
use settled.Core.Sth.{sign_tree_head}
use settled.Storage.Types.{LogEntry, SignedTreeHead, rocks_db, signed_tree_head_proto_from}
use settled.Storage.Rows.{u64_key, put_row}
use settled.Storage.Rocks.{put_all, cf_heads, cf_log}
use settled.Storage.HeadStore.Writes.{
  IsHead, head_row, head_puts, put_row-larger, write-ok, write-refused,
}
use settled.Storage.HeadStore.Lookups.{
  last_head, last_head-cases, last_head-largest, All-last_head, IsAscending, IsAscending-append,
  latest-last_head,
}
use settled.Server.Deps.{Deps}
use settled.Server.State.{AppState}
use settled.Server.Signing.{
  sign_and_store, sign_after, signed_head, stored, is_of_size, sign, public_key, key_version,
}
use settled.Server.Invariant.{leaves_of, length-leaves_of, leaves-IsHash, IsServer, IsHonest}

pub last_head-append :
    (hs : List SignedTreeHead) (h : SignedTreeHead) → last_head (hs ++ h ∷ []) ≡ some h
unfolding last_head
last_head-append [] h = refl
last_head-append (x ∷ []) h = refl
last_head-append (x ∷ y ∷ hs) h = last_head-append (y ∷ hs) h

-- A bound of every head, from one of the last.
below :
    (m n : ℕ) (hs : List SignedTreeHead)
    → All (λ h. h.tree_size ≤ m) hs
    → m < n
    → All (λ h. h.tree_size < n) hs
below m n [] all lt = tt
below m n (h ∷ hs) (le, all) lt = (omega (arith, le), below m n hs all lt)

-- What decides whether a tree head is signed: the log is not empty, and the last head is not of its
-- length.
abbrev pub IsCovered : ℕ → List SignedTreeHead → Type 0
IsCovered n hs = (n ≡ 0) ⊎ ((h : SignedTreeHead) × (last_head hs ≡ some h) × (h.tree_size ≡ n))

IsCovered-cases :
    (n : ℕ) (hs : List SignedTreeHead)
    → IsAscending 0 hs
    → All (λ h. h.tree_size ≤ n) hs
    → IsCovered n hs
      ⊎ ((n ≢ 0) × (is_of_size n (last_head hs) ≡ false) × All (λ h. h.tree_size < n) hs)
unfolding is_of_size
IsCovered-cases n hs up fits = elim (eq-cases n 0) [
  | inl empty ↦ inl (inl empty)
  | inr some_leaves ↦ elim (last_head-cases hs) [
    | inl (no_heads, none_last) ↦ inr (some_leaves, rw none_last, rw no_heads tt)
    | inr (before, h, shape, last) ↦ elim (eq-cases h.tree_size n) [
      | inl same ↦ inl (inr (h, last, same))
      | inr other ↦ inr (
        some_leaves,
        rw (last, ==_ne h.tree_size n other),
        below h.tree_size n hs (last_head-largest 0 hs h up last)
            (omega (arith, other, All-last_head (λ x. x.tree_size ≤ n) hs h fits last)),
      )
    ]
  ]
]

module _ (d : Deps) where
  -- The tree head of all leaves.
  abbrev pub head_of : AppState d → List LogEntry → ℤ → SignedTreeHead
  head_of s es t = signed_head d s.signer (length es) (tree_hash d.sha256 (leaves_of es)) t

  pub head_of-IsHead :
      (s : AppState d) (es : List LogEntry) (hs : List SignedTreeHead) (t : ℤ)
      → IsServer d s es hs
      → IsI64 t
      → s.signer.version < 2 ^ 32
      → 0 < length es
      → IsHead (head_of s es t)
  unfolding signed_head sign public_key key_version
  head_of-IsHead s es hs t v ht hv some_leaves = (
    v.log.5,
    ht,
    hv,
    (
      tree_hash-IsHash d.sha256 d.length_sha256 (leaves_of es) (omega (arith, length-leaves_of es))
          (leaves-IsHash d es v.hashed),
      d.ed25519.length-sign s.signer.key _,
      d.ed25519.length-to_bytes (d.ed25519.verifying_key s.signer.key),
    ),
  )

  pub head_of-IsHonest :
      (s : AppState d) (es : List LogEntry) (t : ℤ)
      → 0 < length es
      → IsHonest d (leaves_of es) (head_of s es t)
  unfolding signed_head sign public_key sign_tree_head
  head_of-IsHonest s es t some_leaves =
      let size = length-leaves_of es in
      record {
        some_leaves = some_leaves;
        fits = omega (arith, size);
        rooted =
            ap (tree_hash d.sha256)
              (sym (take_all (length es) (leaves_of es) (omega (arith, size))));
        signed = (s.signer.key, refl, refl);
      }

  -- The state after a written tree head.
  abbrev pub with_head : AppState d → d.rocks.Db → AppState d
  with_head s db' = record s { inner = record s.inner { db = db' } }

  pub with_head-IsServer :
      (s : AppState d) (es : List LogEntry) (hs : List SignedTreeHead) (h : SignedTreeHead)
      (db' : d.rocks.Db)
      → IsServer d s es hs
      → IsHead h
      → IsHonest d (leaves_of es) h
      → All (λ x. x.tree_size < h.tree_size) hs
      → d.rocks.write s.inner.db (head_puts d.rocks d.head_messages h) ≡ some db'
      → IsServer d (with_head s db') es (hs ++ h ∷ [])
  unfolding put_all
  with_head-IsServer s es hs h db' v is_head honest larger w =
      let puts = head_puts d.rocks d.head_messages h in
      record {
        log = (
          d.rocks.write-IsReadable s.inner.db db' puts w v.log.0,
          d.rocks.rows-write s.inner.db db' puts w cf_log ∙ v.log.1,
          v.log.2,
          v.log.3,
          v.log.4,
          v.log.5,
        );
        tree = v.tree;
        hashed = v.hashed;
        head_rows =
            d.rocks.rows-write s.inner.db db' puts w cf_heads
            ∙ ap
                (put_row (u64_key h.tree_size)
                  (d.head_messages.encoded (signed_tree_head_proto_from h)))
                v.head_rows
            ∙ put_row-larger d.rocks d.head_messages h.tree_size
                (d.head_messages.encoded (signed_tree_head_proto_from h)) hs is_head.0 larger
            ∙ sym (map-append (head_row d.rocks d.head_messages) hs (h ∷ []));
        heads = All-append IsHead hs (h ∷ []) v.heads (is_head, tt);
        ascending = IsAscending-append 0 hs h v.ascending honest.some_leaves larger;
        honest = All-append (IsHonest d (leaves_of es)) hs (h ∷ []) v.honest (honest, tt);
      }

  fits_all :
      (leaves : List Hash) (n : ℕ) (hs : List SignedTreeHead)
      → length leaves ≡ n
      → All (IsHonest d leaves) hs
      → All (λ h. h.tree_size ≤ n) hs
  fits_all leaves n [] e all = tt
  fits_all leaves n (h ∷ hs) e (v, all) = (omega (arith, v.fits), fits_all leaves n hs e all)

  all_positive :
      (leaves : List Hash) (hs : List SignedTreeHead)
      → All (IsHonest d leaves) hs
      → All (λ h. 0 < h.tree_size) hs
  all_positive leaves [] all = tt
  all_positive leaves (h ∷ hs) (v, all) = (v.some_leaves, all_positive leaves hs all)

  covered_does_nothing :
      (s : AppState d) (es : List LogEntry) (hs : List SignedTreeHead) (t : ℤ)
      → IsServer d s es hs
      → IsCovered (length es) hs
      → sign_and_store d t s ≡ done (ok s)
  unfolding sign_and_store sign_after is_of_size
  covered_does_nothing s es hs t v (inl empty) =
      let size : s.merkle.size ≡ 0 = omega (arith, v.tree.sized, length-leaves_of es) in
      rw ((==_iff s.merkle.size 0).1 size)
  covered_does_nothing s es hs t v (inr (h, last, same)) =
      let size : s.merkle.size ≡ length es = omega (arith, v.tree.sized, length-leaves_of es) in
      let some_leaves : s.merkle.size ≢ 0 = (λ z. omega (
        arith,
        All-last_head (λ x. 0 < x.tree_size) hs h (all_positive (leaves_of es) hs v.honest) last,
      )) in
      rw (
        ==_ne s.merkle.size 0 some_leaves,
        latest-last_head d.rocks d.head_messages s.inner.db hs v.log.0 v.head_rows v.heads,
        last,
        (==_iff h.tree_size s.merkle.size).1 (same ∙ sym size),
      )

  -- On a sound server with a clock of 64 bits and a key version of 32, `sign_and_store` never panics.
  -- When the log is empty or its last tree head is of its length, nothing changes. Otherwise the
  -- database refuses, and nothing changes either; or the new state is sound, with one more tree head
  -- of the whole log.
  pub sign_and_store-IsServer :
      (t : ℤ) (s : AppState d) (es : List LogEntry) (hs : List SignedTreeHead)
      → IsServer d s es hs
      → IsI64 t
      → s.signer.version < 2 ^ 32
      → (IsCovered (length es) hs × (sign_and_store d t s ≡ done (ok s)))
        ⊎ (((d.rocks.write s.inner.db (head_puts d.rocks d.head_messages (head_of s es t)) ≡ none)
              × (sign_and_store d t s ≡ done (err rocks_db)))
            ⊎ ((s' : AppState d) × (sign_and_store d t s ≡ done (ok s'))
                × IsServer d s' es (hs ++ head_of s es t ∷ [])
                × IsCovered (length es) (hs ++ head_of s es t ∷ [])))
  unfolding sign_and_store sign_after stored signed_head
  sign_and_store-IsServer t s es hs v ht hv =
      let leaves = leaves_of es in
      let size : s.merkle.size ≡ length es = omega (arith, v.tree.sized, length-leaves_of es) in
      elim (IsCovered-cases (length es) hs v.ascending
        (fits_all leaves (length es) hs (length-leaves_of es) v.honest)) [
          | inl covered ↦ inl (covered, covered_does_nothing s es hs t v covered)
          | inr (some_leaves, not_latest, larger) ↦
              let h = head_of s es t in
              let is_head = head_of-IsHead s es hs t v ht hv (omega arith) in
              let not_empty = ==_ne s.merkle.size 0 (λ z. omega arith) in
              let lookup =
                latest-last_head d.rocks d.head_messages s.inner.db hs v.log.0 v.head_rows
                  v.heads in
              let hashed =
                root-IsTreeOf d.sha256 leaves s.merkle v.tree
                  (omega (arith, length-leaves_of es)) in
              inr
                (elim (Option-cases
                  (d.rocks.write s.inner.db (head_puts d.rocks d.head_messages h))) [
                    | inl refused ↦ inl (
                      refused,
                      rw (
                        not_empty,
                        lookup,
                        hashed,
                        size,
                        not_latest,
                        write-refused d.rocks d.head_messages s.inner.db h refused,
                      ),
                    )
                    | inr (db', w) ↦ inr (
                      with_head s db',
                      rw (
                        not_empty,
                        lookup,
                        hashed,
                        size,
                        not_latest,
                        write-ok d.rocks d.head_messages s.inner.db h db' w,
                      ),
                      with_head-IsServer s es hs h db' v is_head
                          (head_of-IsHonest s es t (omega arith)) larger w,
                      inr (h, last_head-append hs h, refl),
                    )
                  ])
        ]
