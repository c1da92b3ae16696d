-- ===== src/Storage/LogStore/Pages.antt =====
-- A page of the log, and the cursor to the next one.
use settled.Prelude.{
  ℕ, suc, ◌+◌, ◌-◌, ◌%◌, ◌^◌, ◌≤◌, ◌<◌, List, [], ◌∷◌, ◌++◌, ◌⊎◌, take-append-drop, some, ◌≡◌, refl,
  ap, sym, ◌∙◌, arith, inl, inr, leb, ltb, if◌then◌else◌, ==_ne, le-cases, le→leb, leb_gt, length,
  length-drop, length-take, take, drop, map, All, All-drop,
}
use native.Mathlib.Nat.{mod-eq_of_lt}
use settled.Prelude.Results.{Result, ok, ◌>>=◌}
use settled.Core.Split.{IsU64}
use settled.Storage.Types.{Error, LogEntry}
use settled.Storage.Rocks.{Rocks, Prost}
use settled.Storage.LogStore.{DbInner, paged_loop, seq_range_paged, seq_range}
use settled.Storage.LogStore.Log.{
  IsEntry, IsNumbered, log_row, IsLog, take_nil, entry_of_value-encoded, seq_of_key-u64_key,
}
use settled.Storage.LogStore.Reads.{scan_from, seq_range-IsLog, IsNumbered-drop}
use settled.Storage.LogStore.Cursor.{
  bound, past_end, before_end, page_cursor, page_cursor_nil, page_cursor_one, page_cursor_cons,
  page_cursor-last, page_cursor-bounded, page_cursor-next, drop_past, drop-drop, drop-take,
}

module _ (r : Rocks) (m : Prost) where
  paged_loop_nil : (end_seq limit found : ℕ) → paged_loop r m [] end_seq limit found ≡ ok ([], 0)
  unfolding paged_loop
  paged_loop_nil end_seq limit found = refl

  -- One round of the loop, on an entry before the end.
  paged_loop-entry :
      (end_seq limit found : ℕ) (e : LogEntry) (es : List LogEntry)
      → IsEntry e
      → e.seq + 1 < 2 ^ 64
      → e.seq < bound end_seq
      → paged_loop r m (map some (map (log_row r m) (e ∷ es))) end_seq limit found ≡ (
          if leb limit (found + 1)
          then ok (e ∷ [], (if ltb (e.seq + 1) (bound end_seq) then e.seq + 1 else 0))
          else (do
            (entries, cursor) ←
                paged_loop r m (map some (map (log_row r m) es)) end_seq limit (found + 1)
            ok (e ∷ entries, cursor)))
  unfolding paged_loop
  paged_loop-entry end_seq limit found e es he few before =
      let next : (e.seq + 1) % 2 ^ 64 ≡ e.seq + 1 = mod-eq_of_lt few in
      rw (
        seq_of_key-u64_key r m e.seq he.0,
        past_end end_seq e.seq he.0,
        leb_gt (bound end_seq) e.seq before,
        entry_of_value-encoded r m e he,
        next,
        before_end end_seq (e.seq + 1) few,
      )

  paged_loop-end :
      (end_seq limit found : ℕ) (e : LogEntry) (es : List LogEntry)
      → IsEntry e
      → bound end_seq ≤ e.seq
      → paged_loop r m (map some (map (log_row r m) (e ∷ es))) end_seq limit found ≡ ok ([], 0)
  unfolding paged_loop
  paged_loop-end end_seq limit found e es he past = rw (
    seq_of_key-u64_key r m e.seq he.0,
    past_end end_seq e.seq he.0,
    le→leb (bound end_seq) e.seq past,
  )

  page_of_nothing :
      (b limit n : ℕ)
      → 0 < limit
      → ◌≡◌ {A = Result Error (List LogEntry × ℕ)}
          (ok ([], 0))
          (ok (take limit [], page_cursor b limit n []))
  page_of_nothing b limit n h =
      rw (page_cursor_nil b limit n h) (ap (λ xs. ok (xs, 0)) (take_nil limit))

  paged_loop-numbered :
      (end_seq limit n found : ℕ) (es : List LogEntry)
      → All IsEntry es
      → IsNumbered n es
      → found < limit
      → n + length es < 2 ^ 64
      → paged_loop r m (map some (map (log_row r m) es)) end_seq limit found
        ≡ ok (
          take (limit - found) (take (bound end_seq - n) es),
          page_cursor (bound end_seq) (limit - found) n (take (bound end_seq - n) es),
        )
  paged_loop-numbered end_seq limit n found [] all num room few =
      rw (sym (take_nil {A = LogEntry} (bound end_seq - n))) (
        paged_loop_nil end_seq limit found
        ∙ page_of_nothing (bound end_seq) (limit - found) n (omega arith))
  paged_loop-numbered end_seq limit n found (e ∷ es) (he, all) (at, num) room few =
      elim (le-cases (bound end_seq) n) [
        | inl past ↦
            let none_left : bound end_seq - n ≡ 0 = omega arith in
            rw (paged_loop-end end_seq limit found e es he (omega arith), none_left)
              (page_of_nothing (bound end_seq) (limit - found) n (omega arith))
        | inr before ↦
            let one_more : bound end_seq - n ≡ suc (bound end_seq - (n + 1)) = omega arith in
            let next : e.seq + 1 ≡ n + 1 = omega arith in
            elim (le-cases limit (found + 1)) [
              | inl full ↦
                  let last : limit - found ≡ 1 = omega arith in
                  rw (
                    paged_loop-entry end_seq limit found e es he (omega arith) (omega arith),
                    le→leb limit (found + 1) full,
                    next,
                    one_more,
                    last,
                    page_cursor_one (bound end_seq) n e (take (bound end_seq - (n + 1)) es),
                  )
              | inr more ↦
                  let want : limit - found ≡ suc (limit - (found + 1)) = omega arith in
                  rw (
                    paged_loop-entry end_seq limit found e es he (omega arith) (omega arith),
                    leb_gt limit (found + 1) more,
                    paged_loop-numbered end_seq limit (n + 1) (found + 1) es all num more
                        (omega arith),
                    one_more,
                    want,
                    page_cursor_cons (bound end_seq) (limit - (found + 1)) n e
                        (take (bound end_seq - (n + 1)) es),
                  )
            ]
      ]

  pub seq_range_paged-eq :
      (inner : DbInner r m) (es : List LogEntry) (s end_seq limit : ℕ)
      → IsLog r m inner es
      → IsU64 s
      → 0 < limit
      → seq_range_paged r m inner s end_seq limit
        ≡ ok (
          take limit (take (bound end_seq - s) (drop s es)),
          page_cursor (bound end_seq) limit s (take (bound end_seq - s) (drop s es)),
        )
  unfolding seq_range_paged
  seq_range_paged-eq inner es s end_seq limit log h pos' =
      rw (==_ne limit 0 (omega arith), scan_from r m inner es s log h)
        (paged_loop-numbered end_seq limit s 0 (drop s es) (All-drop IsEntry s es log.2)
            (IsNumbered-drop s 0 s es (omega arith) log.3) (omega arith)
            (omega (arith, length-drop s es, log.5))
          ∙ ap
              (λ (t : ℕ). ok (
                take t (take (bound end_seq - s) (drop s es)),
                page_cursor (bound end_seq) t s (take (bound end_seq - s) (drop s es)),
              ))
              {y = limit} (omega arith))

  cursor_lem :
      (inner : DbInner r m) (es : List LogEntry) (s b limit : ℕ)
      → IsLog r m inner es
      → IsU64 s
      → 0 < limit
      → ((page_cursor b limit s (take (b - s) (drop s es)) ≡ 0)
          × (drop limit (take (b - s) (drop s es)) ≡ []))
        ⊎ ((length (take limit (take (b - s) (drop s es))) ≡ limit)
            × (0 < page_cursor b limit s (take (b - s) (drop s es)))
            × (seq_range r m inner (page_cursor b limit s (take (b - s) (drop s es))) b
                ≡ ok (drop limit (take (b - s) (drop s es)))))
  cursor_lem inner es s b limit log h pos' =
      let size = length-take (b - s) (drop s es) in
      let left = length-drop s es in
      elim (le-cases limit (length (take (b - s) (drop s es)))) [
        | inr short ↦ inl (
          page_cursor-last b limit s _ short,
          drop_past limit (take (b - s) (drop s es)) (omega arith),
        )
        | inl full ↦ elim (le-cases b (s + limit)) [
          | inl at_end ↦ inl (
            page_cursor-bounded b limit s _ at_end,
            drop_past limit (take (b - s) (drop s es)) (omega (arith, size)),
          )
          | inr more ↦
              let cursor = page_cursor-next b limit s (take (b - s) (drop s es)) full more in
              let left_over : b - s - limit ≡ b - (s + limit) = omega arith in
              inr (
                omega (arith, length-take limit (take (b - s) (drop s es))),
                omega (arith, cursor),
                rw (
                  cursor,
                  seq_range-IsLog r m inner es (s + limit) b log (omega (arith, size, left, log.5)),
                  drop-take limit (b - s) (drop s es),
                  drop-drop limit s es,
                  left_over,
                ),
              )
        ]
      ]

  -- On a log, for a positive limit and any end (0 for none): a page of `seq_range_paged` is the
  -- start of what `seq_range` gives for the same bounds; and its cursor is 0 when nothing is left
  -- out, or the page is full and `seq_range` from the cursor gives the rest.
  pub seq_range_paged-seq_range :
      (inner : DbInner r m) (es : List LogEntry) (s end_seq limit : ℕ)
      → IsLog r m inner es
      → IsU64 s
      → 0 < limit
      → (page : List LogEntry) × (rest : List LogEntry) × (cursor : ℕ) × (seq_range_paged r m inner
            s end_seq limit
          ≡ ok (page, cursor))
        × (seq_range r m inner s (bound end_seq) ≡ ok (page ++ rest))
        × (((cursor ≡ 0) × (rest ≡ []))
            ⊎ ((length page ≡ limit)
                × (0 < cursor)
                × (seq_range r m inner cursor (bound end_seq) ≡ ok rest)))
  seq_range_paged-seq_range inner es s end_seq limit log h pos' =
      let b = bound end_seq in
      let segment = take (b - s) (drop s es) in
      (
        take limit segment,
        drop limit segment,
        page_cursor b limit s segment,
        seq_range_paged-eq inner es s end_seq limit log h pos',
        seq_range-IsLog r m inner es s b log h ∙ ap ok (sym (take-append-drop limit segment)),
        cursor_lem inner es s b limit log h pos',
      )
