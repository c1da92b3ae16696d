-- ===== src/Server/Invariant.antt =====
-- What holds of the server's state between requests: the log, the tree over its leaves, and tree
-- heads that are signed and tell the truth about prefixes of the log.
use settled.Prelude.{
  ℕ, zero, suc, ◌≤◌, ◌<◌, List, [], ◌∷◌, ◌++◌, ◌≡◌, refl, ap, sym, ◌∙◌, arith, length,
  length-append, take, map, All,
}
use settled.Core.Hash.{Hash, IsHash, leaf_hash}
use settled.Core.Merkle.{tree_hash}
use settled.Core.Merkle.Tree.{IsTreeOf}
use settled.Storage.Types.{LogEntry, SignedTreeHead}
use settled.Storage.Rocks.{cf_heads}
use settled.Storage.LogStore.Log.{IsLog}
use settled.Core.Sth.{sign_tree_head}
use settled.Storage.HeadStore.Writes.{IsHead, head_row}
use settled.Storage.HeadStore.Lookups.{IsAscending}
use settled.Server.Deps.{Deps}
use settled.Server.State.{AppState}

abbrev pub leaves_of : List LogEntry → List Hash
leaves_of es = map (λ e. e.leaf_hash) es

pub length-leaves_of : (es : List LogEntry) → length (leaves_of es) ≡ length es
length-leaves_of [] = refl
length-leaves_of (e ∷ es) = omega (arith, length-leaves_of es)

take-append_short : (n : ℕ) (xs ys : List Hash) → n ≤ length xs → take n (xs ++ ys) ≡ take n xs
take-append_short zero xs ys h = refl
take-append_short (suc n) [] ys h = absurd (omega arith)
take-append_short (suc n) (x ∷ xs) ys h = ap (◌∷◌ x) (take-append_short n xs ys (omega arith))

module _ (d : Deps) where
  -- The leaf hash of an entry is its data's.
  abbrev pub IsHashed : LogEntry → Type 0
  IsHashed e = e.leaf_hash ≡ leaf_hash d.sha256 e.data_bytes

  -- A tree head of the first leaves: its size, the root of that many leaves, and a signature by the
  -- key that it names.
  pub record IsHonest (leaves : List Hash) (h : SignedTreeHead) : Type 0 where
    pub some_leaves : 0 < h.tree_size
    pub fits : h.tree_size ≤ length leaves
    pub rooted : h.root_hash ≡ tree_hash d.sha256 (take h.tree_size leaves)
    pub signed :
        (key : d.ed25519.SigningKey) × (h.signature
          ≡ sign_tree_head d.ed25519 key h.tree_size h.root_hash h.timestamp_ns)
        × (h.public_key ≡ d.ed25519.to_bytes (d.ed25519.verifying_key key))

  pub record IsServer (s : AppState d) (es : List LogEntry) (hs : List SignedTreeHead)
      : Type 0 where
    pub log : IsLog d.rocks d.log_messages s.inner es
    pub tree : IsTreeOf d.sha256 (leaves_of es) s.merkle
    pub hashed : All IsHashed es
    pub head_rows : d.rocks.rows s.inner.db cf_heads ≡ map (head_row d.rocks d.head_messages) hs
    pub heads : All IsHead hs
    pub ascending : IsAscending 0 hs
    pub honest : All (IsHonest (leaves_of es)) hs

  -- More leaves do not change what a tree head says.
  pub IsHonest-append :
      (leaves more : List Hash) (hs : List SignedTreeHead)
      → All (IsHonest leaves) hs
      → All (IsHonest (leaves ++ more)) hs
  IsHonest-append leaves more [] all = tt
  IsHonest-append leaves more (h ∷ hs) (v, all) = (
    record {
      some_leaves = v.some_leaves;
      fits = omega (arith, v.fits, length-append leaves more);
      rooted =
          v.rooted
          ∙ ap (tree_hash d.sha256) (sym (take-append_short h.tree_size leaves more v.fits));
      signed = v.signed;
    },
    IsHonest-append leaves more hs all,
  )

  -- The leaves are hashes of 32 bytes.
  pub leaves-IsHash : (es : List LogEntry) → All IsHashed es → All IsHash (leaves_of es)
  unfolding leaf_hash
  leaves-IsHash [] all = tt
  leaves-IsHash (e ∷ es) (h, all) =
      (rw h (d.length_sha256 (0x00 ∷ e.data_bytes)), leaves-IsHash es all)
