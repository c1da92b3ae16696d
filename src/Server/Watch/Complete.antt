-- ===== src/Server/Watch/Complete.antt =====
-- What a watcher is sent.
use settled.Prelude.{
  ℕ, ◌+◌, ◌-◌, ◌*◌, ◌≤◌, ◌<◌, ◌^◌, List, [], ◌∷◌, ◌++◌, Option, none, some, ◌≡◌, inl, inr, refl, ap,
  sym, ◌∙◌, arith, length, length-take, length-drop, take, take_all, take-take, take-add,
  take-append-drop, drop, map, lt→ltb, ==_ne, le-cases,
}
use mathlib.Core.List.{map-append}
use settled.Prelude.Results.{ok}
use settled.Storage.Types.{LogEntry}
use settled.Storage.LogStore.{DbInner, seq_range_paged}
use settled.Storage.LogStore.Log.{IsLog, IsNumbered}
use settled.Storage.LogStore.Cursor.{
  bound, page_cursor, page_cursor-last, page_cursor-next, drop-drop, drop-take,
}
use settled.Storage.LogStore.Pages.{seq_range_paged-eq}
use settled.Storage.LogStore.Reads.{IsNumbered-drop}
use settled.Server.Messages.{Entry, entry_to_proto}
use settled.Server.Deps.{Deps}
use settled.Server.Watch.{Replayed, replayed, last_of, replay, replay_page, replay_then_live, watch}
use settled.Server.Watch.Live.{
  events_of, to_sent, sent_of, live-later, live-skips, IsNumbered-take, last_of-numbered,
  last_of-append,
}

module _ (d : Deps) (es : List LogEntry) (num : IsNumbered 0 es) (few : length es < 2 ^ 64) where
  -- The logs that the rounds read: each holds the first entries, at least as many as the one before.
  abbrev pub IsGrowing : ℕ → List (DbInner d.rocks d.log_messages) → Type 0
  IsGrowing low [] = Unit {0}
  IsGrowing low (log ∷ logs) =
      (n : ℕ) × (low ≤ n)
      × (n ≤ length es)
      × IsLog d.rocks d.log_messages log (take n es)
      × IsGrowing n logs

  -- The entries from one number up to another.
  abbrev segment : ℕ → ℕ → List LogEntry
  segment c n = take (n - c) (drop c es)

  length-segment : (c n : ℕ) → n ≤ length es → length (segment c n) ≡ n - c
  length-segment c n h = omega (arith, length-take (n - c) (drop c es), length-drop c es)

  -- The page that a round reads.
  page-segment :
      (log : DbInner d.rocks d.log_messages) (c n : ℕ)
      → c ≤ n
      → n ≤ length es
      → IsLog d.rocks d.log_messages log (take n es)
      → seq_range_paged d.rocks d.log_messages log c 0 200
        ≡ ok (take 200 (segment c n), page_cursor (2 ^ 64) 200 c (segment c n))
  unfolding bound
  page-segment log c n le fits log_ok =
      let whole : take (2 ^ 64 - c) (drop c (take n es)) ≡ segment c n =
        take_all (2 ^ 64 - c) (drop c (take n es))
          (omega (arith, length-drop c (take n es), length-take n es, few))
        ∙ drop-take c n es in
      seq_range_paged-eq d.rocks d.log_messages log (take n es) c 0 200 log_ok (omega (arith, few))
        (omega arith)
      ∙ ap (λ (t : List LogEntry). ok (take 200 t, page_cursor (2 ^ 64) 200 c t)) whole

  last_of-segment : (c n : ℕ) → c < n → n ≤ length es → last_of none (segment c n) ≡ some (n - 1)
  last_of-segment c n lt fits =
      let size = length-segment c n fits in
      elim (last_of-numbered none c (segment c n)
        (IsNumbered-take (n - c) c (drop c es) (IsNumbered-drop c 0 c es (omega arith) num))) [
          | inl (empty, at) ↦ absurd (omega (arith, size, ap length empty))
          | inr (more, at) ↦ at ∙ ap some (omega (arith, size))
        ]

  -- A full page and what comes after it.
  segment-joined :
      (c n : ℕ) (last : Option ℕ)
      → c + 200 ≤ n
      → ◌≡◌ {A = List Entry × Replayed}
          (
            map entry_to_proto (take 200 (drop c es)) ++ map entry_to_proto (segment (c + 200) n),
            replayed (last_of (last_of last (take 200 (drop c es))) (segment (c + 200) n)),
          )
          (map entry_to_proto (segment c n), replayed (last_of last (segment c n)))
  segment-joined c n last le =
      let page = take 200 (drop c es) in
      let joined : page ++ segment (c + 200) n ≡ segment c n =
        ap (λ (t : List LogEntry). page ++ take (n - (c + 200)) t) (sym (drop-drop 200 c es))
        ∙ sym (take-add 200 (n - (c + 200)) (n - c) (drop c es) (omega arith)) in
      rw
        (
          ← map-append entry_to_proto page (segment (c + 200) n),
          ← last_of-append last page (segment (c + 200) n),
        )
        (ap (λ (t : List LogEntry). (map entry_to_proto t, replayed (last_of last t))) joined)

  -- A round that reads a full page, before rounds that read up to `n'`.
  replay_full :
      (log : DbInner d.rocks d.log_messages) (logs : List (DbInner d.rocks d.log_messages))
      (c n n' : ℕ) (last : Option ℕ)
      → 200 ≤ n - c
      → c + 200 ≤ n'
      → n ≤ length es
      → IsLog d.rocks d.log_messages log (take n es)
      → replay d logs (c + 200) (last_of last (take 200 (drop c es))) ≡ (
        map entry_to_proto (segment (c + 200) n'),
        replayed (last_of (last_of last (take 200 (drop c es))) (segment (c + 200) n')),
      )
      → replay d (log ∷ logs) c last
        ≡ (map entry_to_proto (segment c n'), replayed (last_of last (segment c n')))
  unfolding replay replay_page
  replay_full log logs c n n' last full le n_fits log_ok rest =
      let size = length-segment c n n_fits in
      let next =
        page_cursor-next (2 ^ 64) 200 c (segment c n) (omega (arith, size)) (omega (arith, few)) in
      let first : take 200 (segment c n) ≡ take 200 (drop c es) =
        take-take 200 (n - c) (drop c es) full in
      rw
        (
          page-segment log c n (omega arith) n_fits log_ok,
          next,
          first,
          ==_ne (c + 200) 0 (λ z. omega arith),
          rest,
        )
        (segment-joined c n' last le)

  -- Rounds that read more entries than there are left find the end, and send what stands between.
  replay-segment :
      (logs : List (DbInner d.rocks d.log_messages)) (c low : ℕ) (last : Option ℕ)
      → c ≤ low
      → IsGrowing low logs
      → length es < c + 200 * length logs
      → low ≤ length es
      → (n : ℕ) × (low ≤ n)
        × (n ≤ length es)
        × (replay d logs c last
            ≡ (map entry_to_proto (segment c n), replayed (last_of last (segment c n))))
  unfolding replay replay_page
  replay-segment [] c low last le grows enough fits = absurd (omega arith)
  replay-segment (log ∷ logs) c low last le (n, more, n_fits, log_ok, grows) enough fits =
      let page = page-segment log c n (omega arith) n_fits log_ok in
      let size = length-segment c n n_fits in
      elim (le-cases 200 (n - c)) [
        | inr short ↦
            let end = page_cursor-last (2 ^ 64) 200 c (segment c n) (omega (arith, size)) in
            let whole = take_all 200 (segment c n) (omega (arith, size)) in
            (n, more, n_fits, rw (page, end, whole))
        | inl full ↦
            let (n', above, fits', rest) =
              replay-segment logs (c + 200) n (last_of last (take 200 (drop c es))) (omega arith)
                grows (omega arith) n_fits in
            (
              n',
              omega arith,
              fits',
              replay_full log logs c n n' last full (omega arith) n_fits log_ok rest,
            )
      ]

  sent_twice : (xs : List LogEntry) → map ok (map entry_to_proto xs) ≡ sent_of xs
  sent_twice [] = refl
  sent_twice (x ∷ xs) = ap (◌∷◌ (ok (entry_to_proto x))) (sent_twice xs)

  -- For a log whose first `p` entries are there when the channel is subscribed to, where each round
  -- of the replay reads a log of at least those and of no fewer than the round before, and there are
  -- enough rounds for its length, the channel giving the entries from `p` on in order: a watcher from
  -- an entry among the first `p`, but not the very first, is sent every entry from there on, each
  -- once and in order; and a watcher from 0 is sent exactly those from `p` on.
  pub watch_complete :
      (logs : List (DbInner d.rocks d.log_messages)) (from_seq p : ℕ)
      → 0 < from_seq
      → from_seq < p
      → p ≤ length es
      → IsGrowing p logs
      → length es < from_seq + 200 * length logs
      → (watch d logs (events_of (drop p es)) from_seq ≡ sent_of (drop from_seq es))
        × (watch d logs (events_of (drop p es)) 0 ≡ sent_of (drop p es))
  unfolding watch replay_then_live
  watch_complete logs from_seq p pos' before fits grows enough =
      let (n, above, n_fits, replays) =
        replay-segment logs from_seq p none (omega arith) grows enough fits in
      let here = IsNumbered-drop p 0 p es (omega arith) num in
      let size = length-segment from_seq n n_fits in
      let last : last_of none (segment from_seq n) ≡ some (n - 1) =
        last_of-segment from_seq n (omega arith) n_fits in
      let skipped : drop (n - 1 + 1 - p) (drop p es) ≡ drop (n - from_seq) (drop from_seq es) =
        drop-drop (n - 1 + 1 - p) p es
        ∙ ap (λ (t : ℕ). drop t es) (omega arith)
        ∙ sym (drop-drop (n - from_seq) from_seq es) in
      (
        rw (
          lt→ltb 0 from_seq pos',
          replays,
          last,
          live-skips (n - 1) p (drop p es) (omega arith) here,
          skipped,
          sent_twice (segment from_seq n),
          ← map-append to_sent (segment from_seq n) (drop (n - from_seq) (drop from_seq es)),
          take-append-drop (n - from_seq) (drop from_seq es),
        ),
        live-later none p (drop p es) (λ m same. absurd (cc)) here,
      )
