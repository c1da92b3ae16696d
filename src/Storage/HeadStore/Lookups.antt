-- ===== src/Storage/HeadStore/Lookups.antt =====
-- What `at_size` and `latest` give on a store of tree heads with growing sizes.
use settled.Prelude.{
  ℕ, ◌≤◌, ◌<◌, List, [], ◌∷◌, ◌++◌, Option, none, some, ◌≡◌, ◌⊎◌, inl, inr, refl, ap, ◌∙◌, arith,
  map, All, if◌then◌else◌, ◌==◌, ==_iff, ==_ne, eq-cases,
}
use mathlib.Core.Option
use mathlib.Core.List.{map-append}
use settled.Prelude.Results.{ok}
use settled.Core.Split.{IsU64}
use settled.Core.Hash.Collisions.{bytes_eq_iff}
use settled.Storage.Types.{SignedTreeHead, signed_tree_head_proto_from}
use settled.Storage.Rows.{u64_key, find_row, rows_in, end}
use settled.Storage.Rows.Put.{bytes_eq_ne}
use settled.Storage.Rocks.{Rocks, cf_heads}
use settled.Storage.LogStore.Reads.{u64_key_injective}
use settled.Storage.HeadStore.{HeadProst, first_head, latest, found_head, at_size}
use settled.Storage.HeadStore.Writes.{IsHead, head_row, head_of_value-encoded, first_head-last}

unfoldable pub find_head : ℕ → List SignedTreeHead → Option SignedTreeHead
find_head n [] = none
find_head n (h ∷ hs) = if h.tree_size == n then some h else find_head n hs

unfoldable pub last_head : List SignedTreeHead → Option SignedTreeHead
last_head [] = none
last_head (h ∷ []) = some h
last_head (h ∷ x ∷ hs) = last_head (x ∷ hs)

-- Every size is above the one before, the first above the number.
abbrev pub IsAscending : ℕ → List SignedTreeHead → Type 0
IsAscending n [] = Unit {0}
IsAscending n (h ∷ hs) = (n < h.tree_size) × IsAscending h.tree_size hs

pub last_head-cases :
    (hs : List SignedTreeHead)
    → ((hs ≡ []) × (last_head hs ≡ none))
      ⊎ ((before : List SignedTreeHead) × (h : SignedTreeHead) × (hs ≡ before ++ h ∷ [])
          × (last_head hs ≡ some h))
unfolding last_head
last_head-cases [] = inl (refl, refl)
last_head-cases (h ∷ []) = inr ([], h, refl, refl)
last_head-cases (h ∷ x ∷ hs) = elim (last_head-cases (x ∷ hs)) [
  | inl (empty, none_last) ↦ absurd (cc)
  | inr (before, l, shape, found) ↦ inr (h ∷ before, l, ap (◌∷◌ h) shape, found)
]

pub All-find_head {ℓ} :
    (P : SignedTreeHead → Type ℓ) (n : ℕ) (hs : List SignedTreeHead) (h : SignedTreeHead)
    → All P hs
    → find_head n hs ≡ some h
    → P h × (h.tree_size ≡ n)
unfolding find_head
All-find_head P n [] h all e = absurd (cc)
All-find_head P n (x ∷ hs) h (px, all) e = elim (eq-cases x.tree_size n) [
  | inl same ↦
      let e' = rw ((==_iff x.tree_size n).1 same) at e in
      let same_head : h ≡ x = cc in
      (rw same_head px, ap (λ (z : SignedTreeHead). z.tree_size) same_head ∙ same)
  | inr other ↦ All-find_head P n hs h all (rw (==_ne x.tree_size n other) at e)
]

pub All-last_head {ℓ} :
    (P : SignedTreeHead → Type ℓ) (hs : List SignedTreeHead) (h : SignedTreeHead)
    → All P hs
    → last_head hs ≡ some h
    → P h
unfolding last_head
All-last_head P [] h all e = absurd (cc)
All-last_head P (x ∷ []) h (px, all) e = let same : h ≡ x = cc in rw same px
All-last_head P (x ∷ y ∷ hs) h (px, all) e = All-last_head P (y ∷ hs) h all e

ascending_above :
    (n : ℕ) (hs : List SignedTreeHead) (h : SignedTreeHead)
    → IsAscending n hs
    → last_head hs ≡ some h
    → n < h.tree_size
unfolding last_head
ascending_above n [] h up e = absurd (cc)
ascending_above n (x ∷ []) h (lt, up) e = let same : h ≡ x = cc in rw same lt
ascending_above n (x ∷ y ∷ hs) h (lt, up) e =
    omega (arith, lt, ascending_above x.tree_size (y ∷ hs) h up e)

-- The last head is the one that a lookup at its size finds.
pub find_head-last_head :
    (n : ℕ) (hs : List SignedTreeHead) (h : SignedTreeHead)
    → IsAscending n hs
    → last_head hs ≡ some h
    → find_head h.tree_size hs ≡ some h
unfolding find_head last_head
find_head-last_head n [] h up e = absurd (cc)
find_head-last_head n (x ∷ []) h (lt, up) e =
    let same : x ≡ h = cc in rw (same, (==_iff h.tree_size h.tree_size).1 refl)
find_head-last_head n (x ∷ y ∷ hs) h (lt, up) e =
    rw
      (==_ne x.tree_size h.tree_size
        (λ same. omega (arith, ascending_above x.tree_size (y ∷ hs) h up e)))
      (find_head-last_head x.tree_size (y ∷ hs) h up e)

-- No head has a size above the last one's.
pub last_head-largest :
    (n : ℕ) (hs : List SignedTreeHead) (h : SignedTreeHead)
    → IsAscending n hs
    → last_head hs ≡ some h
    → All (λ x. x.tree_size ≤ h.tree_size) hs
unfolding last_head
last_head-largest n [] h up e = tt
last_head-largest n (x ∷ []) h (lt, up) e =
    let same : x ≡ h = cc in (omega (arith, ap (λ (z : SignedTreeHead). z.tree_size) same), tt)
last_head-largest n (x ∷ y ∷ hs) h (lt, up) e = (
  omega (arith, ascending_above x.tree_size (y ∷ hs) h up e),
  last_head-largest x.tree_size (y ∷ hs) h up e,
)

pub IsAscending-append :
    (n : ℕ) (hs : List SignedTreeHead) (h : SignedTreeHead)
    → IsAscending n hs
    → n < h.tree_size
    → All (λ x. x.tree_size < h.tree_size) hs
    → IsAscending n (hs ++ h ∷ [])
IsAscending-append n [] h up lt all = (lt, tt)
IsAscending-append n (x ∷ hs) h (first, up) lt (below, all) =
    (first, IsAscending-append x.tree_size hs h up below all)

module _ (r : Rocks) (m : HeadProst) where
  find_row-heads :
      (n : ℕ) (hs : List SignedTreeHead)
      → IsU64 n
      → All IsHead hs
      → find_row (u64_key n) (map (head_row r m) hs)
        ≡ Option.map (λ h. m.encoded (signed_tree_head_proto_from h)) (find_head n hs)
  unfolding find_row find_head
  find_row-heads n [] hn all = refl
  find_row-heads n (h ∷ hs) hn (hh, all) = elim (eq-cases h.tree_size n) [
    | inl here ↦ rw (
      (bytes_eq_iff (u64_key h.tree_size) (u64_key n)).1 (ap u64_key here),
      (==_iff h.tree_size n).1 here,
    )
    | inr other ↦
        rw
          (
            bytes_eq_ne (u64_key h.tree_size) (u64_key n)
                (λ same. other (u64_key_injective h.tree_size n hh.0 hn same)),
            ==_ne h.tree_size n other,
          )
          (find_row-heads n hs hn all)
  ]

  found_head-encoded :
      (o : Option SignedTreeHead)
      → ((h : SignedTreeHead) → o ≡ some h → IsHead h)
      → found_head r m (Option.map (λ h. m.encoded (signed_tree_head_proto_from h)) o) ≡ ok o
  unfolding found_head
  found_head-encoded none v = refl
  found_head-encoded (some h) v = rw (head_of_value-encoded r m h (v h refl))

  pub at_size-find_head :
      (db : r.Db) (hs : List SignedTreeHead) (n : ℕ)
      → r.IsReadable db
      → r.rows db cf_heads ≡ map (head_row r m) hs
      → All IsHead hs
      → IsU64 n
      → at_size r m db n ≡ ok (find_head n hs)
  unfolding at_size
  at_size-find_head db hs n readable rows all hn =
      rw (r.get_cf-IsReadable db cf_heads (u64_key n) readable, rows, find_row-heads n hs hn all)
        (found_head-encoded (find_head n hs) (λ h e. (All-find_head IsHead n hs h all e).0))

  pub latest-last_head :
      (db : r.Db) (hs : List SignedTreeHead)
      → r.IsReadable db
      → r.rows db cf_heads ≡ map (head_row r m) hs
      → All IsHead hs
      → latest r m db ≡ ok (last_head hs)
  unfolding latest rows_in first_head
  latest-last_head db hs readable rows all = elim (last_head-cases hs) [
    | inl (empty, none_last) ↦
        rw (r.iterator_cf-IsReadable db cf_heads end readable, rows, none_last, empty)
    | inr (before, h, shape, last) ↦
        rw
          (
            r.iterator_cf-IsReadable db cf_heads end readable,
            rows,
            last,
            shape,
            map-append (head_row r m) before (h ∷ []),
          )
          (first_head-last r m before h (All-last_head IsHead hs h all last))
  ]
