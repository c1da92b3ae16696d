-- ===== src/Server/Watch/Live.antt =====
-- The live stream: what it skips and what it sends.
use settled.Prelude.{
  ℕ, zero, suc, ◌+◌, ◌-◌, ◌≤◌, ◌<◌, List, [], ◌∷◌, ◌++◌, Option, none, some, ◌≡◌, ◌⊎◌, inl, inr,
  refl, ap, arith, length, take, drop, map, le→leb, leb_gt, le-cases,
}
use settled.Prelude.Results.{Result, ok}
use settled.Storage.Types.{LogEntry}
use settled.Storage.LogStore.Log.{IsNumbered}
use settled.Server.Status.{Status}
use settled.Server.Messages.{Entry, entry_to_proto}
use settled.Server.Watch.{Received, received, lagged, closed, live, is_sent, last_of}

-- The entries as the channel gives them, and as the stream is sent them.
abbrev pub events_of : List LogEntry → List Received
events_of es = map (λ e. received (entry_to_proto e)) es

abbrev pub to_sent : LogEntry → Result Status Entry
to_sent e = ok (entry_to_proto e)

abbrev pub sent_of : List LogEntry → List (Result Status Entry)
sent_of es = map to_sent es

-- Entries after the last that was sent are all sent.
pub live-later :
    (last : Option ℕ) (n : ℕ) (es : List LogEntry)
    → ((m : ℕ) → last ≡ some m → m < n)
    → IsNumbered n es
    → live last (events_of es) ≡ sent_of es
unfolding live is_sent entry_to_proto
live-later last n [] after num = refl
live-later none n (e ∷ es) after (here, num) =
    let step : (m : ℕ) → some e.seq ≡ some m → m < n + 1 =
      (λ m same. let at : e.seq ≡ m = cc in omega arith) in
    ap (◌∷◌ (ok (entry_to_proto e))) (live-later (some e.seq) (n + 1) es step num)
live-later (some last) n (e ∷ es) after (here, num) =
    let step : (m : ℕ) → some e.seq ≡ some m → m < n + 1 =
      (λ m same. let at : e.seq ≡ m = cc in omega arith) in
    rw (leb_gt e.seq last (omega (arith, after last refl)))
      (ap (◌∷◌ (ok (entry_to_proto e))) (live-later (some e.seq) (n + 1) es step num))

-- Those up to the last that was sent are skipped.
pub live-skips :
    (last n : ℕ) (es : List LogEntry)
    → n ≤ last + 1
    → IsNumbered n es
    → live (some last) (events_of es) ≡ sent_of (drop (last + 1 - n) es)
unfolding live is_sent entry_to_proto
live-skips last n [] le num = elim (le-cases (last + 1 - n) 0) [
  | inl none_left ↦ let e : last + 1 - n ≡ 0 = omega arith in rw e
  | inr more ↦ let e : last + 1 - n ≡ suc (last - n) = omega arith in rw e
]
live-skips last n (e ∷ es) le (here, num) = elim (le-cases n last) [
  | inl skipped ↦
      let count : last + 1 - n ≡ suc (last + 1 - (n + 1)) = omega arith in
      rw (le→leb e.seq last (omega arith), count) (live-skips last (n + 1) es (omega arith) num)
  | inr later ↦
      let count : last + 1 - n ≡ 0 = omega arith in
      rw (leb_gt e.seq last (omega arith), count)
        (ap (◌∷◌ (ok (entry_to_proto e))) (
          live-later (some e.seq) (n + 1) es (λ m same. let at : e.seq ≡ m = cc in omega arith)
            num))
]

pub IsNumbered-take : (k n : ℕ) (es : List LogEntry) → IsNumbered n es → IsNumbered n (take k es)
IsNumbered-take zero n es num = tt
IsNumbered-take (suc k) n [] num = tt
IsNumbered-take (suc k) n (e ∷ es) (here, num) = (here, IsNumbered-take k (n + 1) es num)

-- Once a number is sent, an entry of that number or a lower one changes nothing.
live-passed :
    (last : ℕ) (b : Entry) (between after : List Received)
    → b.seq ≤ last
    → live (some last) (between ++ received b ∷ after) ≡ live (some last) (between ++ after)
unfolding live is_sent
live-passed last b [] after le = rw (le→leb b.seq last le)
live-passed last b (lagged n ∷ between) after le = refl
live-passed last b (closed ∷ between) after le = refl
live-passed last b (received e ∷ between) after le = elim (le-cases e.seq last) [
  | inl skipped ↦ rw (le→leb e.seq last skipped) (live-passed last b between after le)
  | inr later ↦
      rw (leb_gt e.seq last later)
        (ap (◌∷◌ (ok e)) (live-passed e.seq b between after (omega arith)))
]

live-next :
    (last : Option ℕ) (a b : Entry) (between after : List Received)
    → b.seq ≤ a.seq
    → live last (received a ∷ between ++ received b ∷ after)
      ≡ live last (received a ∷ between ++ after)
unfolding live is_sent
live-next none a b between after le = ap (◌∷◌ (ok a)) (live-passed a.seq b between after le)
live-next (some last) a b between after le = elim (le-cases a.seq last) [
  | inl skipped ↦ rw (le→leb a.seq last skipped) (live-passed last b between after (omega arith))
  | inr later ↦
      rw (leb_gt a.seq last later) (ap (◌∷◌ (ok a)) (live-passed a.seq b between after le))
]

-- An entry that the channel gives anywhere after an entry of the same number or a later one is never
-- sent: whatever was sent before and whatever comes before, between and after, the live stream is
-- the one without that entry.
pub live-drops :
    (last : Option ℕ) (a b : Entry) (before between after : List Received)
    → b.seq ≤ a.seq
    → live last (before ++ received a ∷ between ++ received b ∷ after)
      ≡ live last (before ++ received a ∷ between ++ after)
unfolding live is_sent
live-drops last a b [] between after le = live-next last a b between after le
live-drops last a b (lagged n ∷ before) between after le = refl
live-drops last a b (closed ∷ before) between after le = refl
live-drops none a b (received e ∷ before) between after le =
    ap (◌∷◌ (ok e)) (live-drops (some e.seq) a b before between after le)
live-drops (some last) a b (received e ∷ before) between after le = elim (le-cases e.seq last) [
  | inl skipped ↦
      rw (le→leb e.seq last skipped) (live-drops (some last) a b before between after le)
  | inr later ↦
      rw (leb_gt e.seq last later)
        (ap (◌∷◌ (ok e)) (live-drops (some e.seq) a b before between after le))
]

-- The last number of entries numbered from `n`.
pub last_of-numbered :
    (last : Option ℕ) (n : ℕ) (es : List LogEntry)
    → IsNumbered n es
    → ((es ≡ []) × (last_of last es ≡ last))
      ⊎ ((0 < length es) × (last_of last es ≡ some (n + length es - 1)))
unfolding last_of
last_of-numbered last n [] num = inl (refl, refl)
last_of-numbered last n (e ∷ es) (here, num) = elim (last_of-numbered (some e.seq) (n + 1) es num) [
  | inl (empty, at) ↦
      let count : n + length (e ∷ es) - 1 ≡ e.seq = omega (arith, ap length empty) in
      inr (omega arith, rw (at, count))
  | inr (more, at) ↦
      let count : n + length (e ∷ es) - 1 ≡ n + 1 + length es - 1 = omega arith in
      inr (omega arith, rw (at, count))
]

pub last_of-append :
    (last : Option ℕ) (xs ys : List LogEntry)
    → last_of last (xs ++ ys) ≡ last_of (last_of last xs) ys
unfolding last_of
last_of-append last [] ys = refl
last_of-append last (x ∷ xs) ys = last_of-append (some x.seq) xs ys
