-- ===== src/Storage/LogStore/Reads.antt =====
-- What the reads of log_store.rs give on a log.
use settled.Prelude.{
  ℕ, zero, suc, ◌+◌, ◌-◌, ◌≤◌, List, [], ◌∷◌, ◌++◌, Option, none, some, ◌≡◌, refl, ap, sym, ◌∙◌,
  arith, inl, inr, length, take, drop, get_elem?, map, All, All-drop, All-append,
  be_bytes_injective, ==_ne, eq-cases,
}
use mathlib.Core.List.{reverse, reverse-cons, map-append}
use settled.Prelude.Results.{ok}
use settled.Core.Split.{IsU64}
use mathlib.Core.Option
use settled.Core.Hash.Collisions.{bytes_eq_iff}
use settled.Storage.Types.{LogEntry, log_entry_proto_from}
use settled.Storage.Rows.Put.{bytes_eq_ne}
use settled.Storage.Rows.{Row, u64_key, find_row, rows_from, rows_in, end, from_forward}
use settled.Storage.Rocks.{Rocks, Prost, cf_log}
use settled.Storage.LogStore.{DbInner, get_by_seq, seq_range, latest, count, found_entry}
use settled.Storage.LogStore.Log.{
  IsEntry, IsNumbered, log_row, IsLog, rows_from-numbered, range_loop-numbered, latest_loop-rows,
  entry_of_value-encoded,
}

pub IsNumbered-drop :
    (s n k : ℕ) (es : List LogEntry) → k ≡ n + s → IsNumbered n es → IsNumbered k (drop s es)
IsNumbered-drop zero n k es e num = let same : k ≡ n = omega arith in rw same num
IsNumbered-drop (suc s) n k [] e num = tt
IsNumbered-drop (suc s) n k (x ∷ es) e (at, num) = IsNumbered-drop s (n + 1) k es (omega arith) num

reverse-map : (f : LogEntry → Row) (es : List LogEntry) → reverse (map f es) ≡ map f (reverse es)
reverse-map f [] = refl
reverse-map f (e ∷ es) =
    reverse-cons (f e) (map f es)
    ∙ ap (λ (xs : List Row). xs ++ f e ∷ []) (reverse-map f es)
    ∙ sym (map-append f (reverse es) (e ∷ []))
    ∙ ap (map f) (sym (reverse-cons e es))

All-reverse : (es : List LogEntry) → All IsEntry es → All IsEntry (reverse es)
All-reverse [] h = tt
All-reverse (e ∷ es) (he, h) =
    rw (reverse-cons e es) (All-append IsEntry (reverse es) (e ∷ []) (All-reverse es h) (he, tt))

pub u64_key_injective : (a b : ℕ) → IsU64 a → IsU64 b → u64_key a ≡ u64_key b → a ≡ b
unfolding u64_key
u64_key_injective a b ha hb e = be_bytes_injective 8 a b ha hb e

All-get_elem? :
    (es : List LogEntry) (i : ℕ) (e : LogEntry)
    → All IsEntry es
    → get_elem? es i ≡ some e
    → IsEntry e
All-get_elem? [] i e h at = cc
All-get_elem? (x ∷ es) zero e h at = let same : e ≡ x = cc in rw same h.0
All-get_elem? (x ∷ es) (suc i) e h at = All-get_elem? es i e h.1 at

module _ (r : Rocks) (m : Prost) where
  -- The rows a forward scan gives.
  pub scan_from :
      (inner : DbInner r m) (es : List LogEntry) (s : ℕ)
      → IsLog r m inner es
      → IsU64 s
      → r.iterator_cf inner.db cf_log (from_forward (u64_key s))
        ≡ map some (map (log_row r m) (drop s es))
  unfolding rows_in
  scan_from inner es s (readable, rows, entries, numbered, next, few) h =
      r.iterator_cf-IsReadable inner.db cf_log (from_forward (u64_key s)) readable
      ∙ ap (map some) (
          ap (rows_from (u64_key s)) rows
          ∙ rows_from-numbered r m s 0 es h entries numbered
          ∙ ap (λ (t : ℕ). map (log_row r m) (drop t es)) (omega arith))

  pub seq_range-IsLog :
      (inner : DbInner r m) (es : List LogEntry) (s e : ℕ)
      → IsLog r m inner es
      → IsU64 s
      → seq_range r m inner s e ≡ ok (take (e - s) (drop s es))
  unfolding seq_range
  seq_range-IsLog inner es s e log h = rw (scan_from inner es s log h) (
      range_loop-numbered r m e s (drop s es) (All-drop IsEntry s es log.2)
        (IsNumbered-drop s 0 s es (omega arith) log.3))

  -- The rows a backward scan gives.
  pub scan_back :
      (inner : DbInner r m) (es : List LogEntry)
      → IsLog r m inner es
      → r.iterator_cf inner.db cf_log end ≡ map some (map (log_row r m) (reverse es))
  unfolding rows_in
  scan_back inner es (readable, rows, entries, numbered, next, few) =
      r.iterator_cf-IsReadable inner.db cf_log end readable
      ∙ ap (map some) (ap reverse rows ∙ reverse-map (log_row r m) es)

  latest-IsLog :
      (inner : DbInner r m) (es : List LogEntry) (n : ℕ)
      → IsLog r m inner es
      → latest r m inner n ≡ ok (take n (reverse es))
  unfolding latest
  latest-IsLog inner es zero log = refl
  latest-IsLog inner es (suc n) log =
      rw (==_ne (suc n) 0 (omega arith), scan_back inner es log)
        (latest_loop-rows r m (suc n) 0 (reverse es) (All-reverse es log.2) (omega arith)
          ∙ ap (λ (t : ℕ). ok (take t (reverse es))) {y = suc n} (omega arith))

  find_row-numbered :
      (s n : ℕ) (es : List LogEntry)
      → IsU64 s
      → n ≤ s
      → All IsEntry es
      → IsNumbered n es
      → find_row (u64_key s) (map (log_row r m) es)
        ≡ Option.map (λ e. m.encoded (log_entry_proto_from e)) (get_elem? es (s - n))
  unfolding find_row
  find_row-numbered s n [] hs l all num = refl
  find_row-numbered s n (e ∷ es) hs l (he, all) (at, num) = elim (eq-cases e.seq s) [
    | inl here ↦
        let first : s - n ≡ 0 = omega arith in
        rw ((bytes_eq_iff (u64_key e.seq) (u64_key s)).1 (ap u64_key here), first)
    | inr other ↦
        let later : s - n ≡ suc (s - (n + 1)) = omega arith in
        rw
          (
            bytes_eq_ne (u64_key e.seq) (u64_key s)
                (λ same. other (u64_key_injective e.seq s he.0 hs same)),
            later,
          )
          (find_row-numbered s (n + 1) es hs (omega arith) all num)
  ]

  found_entry-entry :
      (o : Option LogEntry)
      → ((e : LogEntry) → o ≡ some e → IsEntry e)
      → found_entry r m (Option.map (λ e. m.encoded (log_entry_proto_from e)) o) ≡ ok o
  unfolding found_entry
  found_entry-entry none h = refl
  found_entry-entry (some e) h = rw (entry_of_value-encoded r m e (h e refl))

  get_by_seq-IsLog :
      (inner : DbInner r m) (es : List LogEntry) (s : ℕ)
      → IsLog r m inner es
      → IsU64 s
      → get_by_seq r m inner s ≡ ok (get_elem? es s)
  unfolding get_by_seq
  get_by_seq-IsLog inner es s log h =
      rw
        (
          r.get_cf-IsReadable inner.db cf_log (u64_key s) log.0,
          log.1,
          find_row-numbered s 0 es h (omega arith) log.2 log.3,
        )
        (found_entry-entry (get_elem? es (s - 0)) (λ e at. All-get_elem? es (s - 0) e log.2 at)
          ∙ ap (λ (t : ℕ). ok (get_elem? es t)) (omega arith))

  -- On a database that holds a log, and a start of 64 bits, the reads are those of a list: `get_by_seq` its element,
  -- `seq_range` a segment, `latest` its last elements from the end, and `count` its length.
  pub reads-IsLog :
      (inner : DbInner r m) (es : List LogEntry) (s e n : ℕ)
      → IsLog r m inner es
      → IsU64 s
      → (get_by_seq r m inner s ≡ ok (get_elem? es s))
        × (seq_range r m inner s e ≡ ok (take (e - s) (drop s es)))
        × (latest r m inner n ≡ ok (take n (reverse es)))
        × (count r m inner ≡ length es)
  unfolding count
  reads-IsLog inner es s e n log h = (
    get_by_seq-IsLog inner es s log h,
    seq_range-IsLog inner es s e log h,
    latest-IsLog inner es n log,
    log.4,
  )
