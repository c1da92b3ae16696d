-- ===== src/Storage/LogStore/Cursor.antt =====
-- The bound and the cursor of a page.
use settled.Prelude.{
  ℕ, zero, suc, ◌+◌, ◌-◌, ◌^◌, ◌≤◌, ◌<◌, List, [], ◌∷◌, ◌≡◌, refl, ap, sym, ◌∙◌, arith, inl, inr,
  ◌&&◌, ◌||◌, not, leb, ltb, ◌==◌, if◌then◌else◌, ==_iff, ==_ne, eq-cases, le-cases, le→leb, leb_gt,
  lt→ltb, ltb_ge, Bool-cases, length, take, drop,
}
use settled.Storage.Types.{LogEntry}
use settled.Storage.LogStore.Log.{take_nil, drop_nil}

-- The bound that `end` stands for: 0 is none.
unfoldable pub bound : ℕ → ℕ
bound end_seq = if end_seq == 0 then 2 ^ 64 else end_seq

pub past_end :
    (end_seq seq : ℕ)
    → seq < 2 ^ 64
    → (not (end_seq == 0) && leb end_seq seq) ≡ leb (bound end_seq) seq
unfolding bound
past_end end_seq seq h = elim (eq-cases end_seq 0) [
  | inl z ↦ rw ((==_iff end_seq 0).1 z) (sym (leb_gt (2 ^ 64) seq h))
  | inr nz ↦ rw (==_ne end_seq 0 nz)
]

pub before_end :
    (end_seq seq : ℕ) → seq < 2 ^ 64 → (end_seq == 0 || ltb seq end_seq) ≡ ltb seq (bound end_seq)
unfolding bound
before_end end_seq seq h = elim (eq-cases end_seq 0) [
  | inl z ↦ rw ((==_iff end_seq 0).1 z) (sym (lt→ltb seq (2 ^ 64) h))
  | inr nz ↦ rw (==_ne end_seq 0 nz)
]

-- The cursor after a page of `limit` entries from `n` on, of those that `segment` has: 0 when the
-- page takes all of them.
unfoldable pub page_cursor : ℕ → ℕ → ℕ → List LogEntry → ℕ
page_cursor b limit n segment =
    if leb limit (length segment) && ltb (n + limit) b then n + limit else 0

pub page_cursor_nil : (b limit n : ℕ) → 0 < limit → page_cursor b limit n [] ≡ 0
unfolding page_cursor
page_cursor_nil b limit n h = rw (leb_gt limit 0 h)

pub page_cursor_one :
    (b n : ℕ) (e : LogEntry) (segment : List LogEntry)
    → page_cursor b 1 n (e ∷ segment) ≡ (if ltb (n + 1) b then n + 1 else 0)
unfolding page_cursor
page_cursor_one b n e segment = rw (le→leb 1 (length (e ∷ segment)) (omega arith))

pub page_cursor_cons :
    (b w n : ℕ) (e : LogEntry) (segment : List LogEntry)
    → page_cursor b (suc w) n (e ∷ segment) ≡ page_cursor b w (n + 1) segment
unfolding page_cursor
page_cursor_cons b w n e segment =
    let shift : n + suc w ≡ n + 1 + w = omega arith in
    elim (le-cases w (length segment)) [
      | inl l ↦
          rw (
            le→leb w (length segment) l,
            le→leb (suc w) (length (e ∷ segment)) (omega arith),
            shift,
          )
      | inr g ↦
          rw (leb_gt w (length segment) g, leb_gt (suc w) (length (e ∷ segment)) (omega arith))
    ]

pub page_cursor-last :
    (b limit n : ℕ) (segment : List LogEntry)
    → length segment < limit
    → page_cursor b limit n segment ≡ 0
unfolding page_cursor
page_cursor-last b limit n segment h = rw (leb_gt limit (length segment) h)

pub page_cursor-bounded :
    (b limit n : ℕ) (segment : List LogEntry) → b ≤ n + limit → page_cursor b limit n segment ≡ 0
unfolding page_cursor
page_cursor-bounded b limit n segment h = elim (Bool-cases (leb limit (length segment))) [
  | inl full ↦ rw (full, ltb_ge (n + limit) b h)
  | inr short ↦ rw short
]

pub page_cursor-next :
    (b limit n : ℕ) (segment : List LogEntry)
    → limit ≤ length segment
    → n + limit < b
    → page_cursor b limit n segment ≡ n + limit
unfolding page_cursor
page_cursor-next b limit n segment l h =
    rw (le→leb limit (length segment) l, lt→ltb (n + limit) b h)

pub drop_past : (n : ℕ) (es : List LogEntry) → length es ≤ n → drop n es ≡ []
drop_past zero [] l = refl
drop_past zero (e ∷ es) l = absurd (omega arith)
drop_past (suc n) [] l = refl
drop_past (suc n) (e ∷ es) l = drop_past n es (omega arith)

pub drop-drop : (a b : ℕ) (es : List LogEntry) → drop a (drop b es) ≡ drop (b + a) es
drop-drop a zero es = ap (λ (t : ℕ). drop t es) (omega arith)
drop-drop a (suc b) [] = drop_nil a ∙ sym (drop_nil (suc b + a))
drop-drop a (suc b) (e ∷ es) =
    let shift : suc b + a ≡ suc (b + a) = omega arith in rw shift (drop-drop a b es)

pub drop-take : (a b : ℕ) (es : List LogEntry) → drop a (take b es) ≡ take (b - a) (drop a es)
drop-take zero b es = ap (λ (t : ℕ). take t es) (omega arith)
drop-take (suc a) zero es = let none_left : zero - suc a ≡ 0 = omega arith in rw none_left
drop-take (suc a) (suc b) [] = take_nil (suc b - suc a)
drop-take (suc a) (suc b) (e ∷ es) =
    let shift : suc b - suc a ≡ b - a = omega arith in rw shift (drop-take a b es)
