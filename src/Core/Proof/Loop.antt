-- ===== src/Core/Proof/Loop.antt =====
-- The loop of `verify_inclusion` on shifted indices climbs the same path.
use mathlib.Core.List.{reverse, reverse-append}
use native.Mathlib.Nat.{div-eq_of_lt-le}
use settled.Prelude.{
  ℕ, zero, suc, ◌+◌, ◌-◌, ◌*◌, ◌/◌, ◌%◌, ◌^◌, ◌≤◌, ◌<◌, List, [], ◌∷◌, ◌++◌, append_assoc, ◌≡◌,
  refl, ap, ap₂, sym, ◌∙◌, arith, Bool, true, false, not, ◌||◌, ◌==◌, ==_iff, ==_ne, two_pow-suc,
  two_pow_pos, two_pow-add, two_pow-lt→lt, lt-two_pow,
}
use settled.Core.Hash.{Bytes, Hash, node_hash}
use settled.Core.Split.{split}
use settled.Core.Split.Bounds.{split_bounds, split_unique}
use settled.Core.Merkle.Frontier.{shifted}
use settled.Core.Proof.{strip_loop, strip, inclusion_loop, inclusion_step}
use settled.Core.Proof.Rebuilds.{Rebuilds, leaf, left, right}

strip_loop_lem : (f j c : ℕ) → c % 2 ≡ 1 → j ≤ f → strip_loop f (c * 2 ^ j) (c * 2 ^ j) ≡ (c, c)
unfolding strip_loop
strip_loop_lem zero zero c o l = let e : c * 2 ^ 0 ≡ c = omega arith in rw e
strip_loop_lem zero (suc j) c o l = absurd (omega arith)
strip_loop_lem (suc f) zero c o l = let e : c * 2 ^ 0 ≡ c = omega arith in rw e (ground arith)
strip_loop_lem (suc f) (suc j) c o l =
    let e : c * 2 ^ suc j ≡ 2 * (c * 2 ^ j) =
      omega (arith, ap (λ (t : ℕ). c * t) (two_pow-suc j)) in
    let pos : 0 < c * 2 ^ j = grind (arith, two_pow_pos j) in
    let half : c * 2 ^ suc j / 2 ≡ c * 2 ^ j = omega arith in
    rw
      (
        ==_ne (c * 2 ^ suc j) 0 (λ z. omega arith),
        (==_iff (c * 2 ^ suc j % 2) 0).1 (omega arith),
        half,
      )
      (strip_loop_lem f j c o (omega arith))

strip_lem : (j c : ℕ) → c % 2 ≡ 1 → strip (c * 2 ^ j) (c * 2 ^ j) ≡ (c, c)
unfolding strip
strip_lem j c o = strip_loop_lem (c * 2 ^ j) j c o (grind (arith, lt-two_pow j))

strip_odd : (n x : ℕ) → n % 2 ≡ 1 → strip n x ≡ (n, x)
unfolding strip strip_loop
strip_odd zero x o = absurd (omega arith)
strip_odd (suc n) x o =
    rw (==_ne (suc n % 2) 0 (λ e. omega arith), ==_ne (suc n) 0 (λ e. omega arith))

or_true : (b : Bool) → (b || true) ≡ true
or_true true = refl
or_true false = refl

module _ (sha256 : Bytes → Hash) where
  -- A left child that is not on the right edge.
  step_even :
      (s r : Hash) (rest : List Hash) (a x : ℕ)
      → 2 * a < x
      → inclusion_loop sha256 (s ∷ rest) (2 * a) x r
        ≡ inclusion_loop sha256 rest a (x / 2) (node_hash sha256 r s)
  unfolding inclusion_loop inclusion_step
  step_even s r rest a x h =
      let half : 2 * a / 2 ≡ a = omega arith in
      rw (
        ==_ne x 0 (λ e. omega arith),
        (==_iff (2 * a % 2) 0).1 (omega arith),
        ==_ne (2 * a) x (λ e. omega arith),
        half,
      )

  -- A right child: its index is odd, and nothing is skipped.
  step_odd :
      (s r : Hash) (rest : List Hash) (a x : ℕ)
      → 0 < x
      → inclusion_loop sha256 (s ∷ rest) (2 * a + 1) x r
        ≡ inclusion_loop sha256 rest a (x / 2) (node_hash sha256 s r)
  unfolding inclusion_loop inclusion_step
  step_odd s r rest a x h =
      let half : (2 * a + 1) / 2 ≡ a = omega arith in
      rw (
        ==_ne x 0 (λ e. omega arith),
        ==_ne ((2 * a + 1) % 2) 0 (λ e. omega arith),
        strip_odd (2 * a + 1) x (omega arith),
        half,
      )

  -- The last node of a level: the levels where it has no sibling are skipped.
  step_edge :
      (s r : Hash) (rest : List Hash) (a j : ℕ)
      → inclusion_loop sha256 (s ∷ rest) ((2 * a + 1) * 2 ^ j) ((2 * a + 1) * 2 ^ j) r
        ≡ inclusion_loop sha256 rest a a (node_hash sha256 s r)
  unfolding inclusion_loop inclusion_step
  step_edge s r rest a j =
      let half : (2 * a + 1) / 2 ≡ a = omega arith in
      rw (
        ==_ne ((2 * a + 1) * 2 ^ j) 0 (λ e. grind (arith, two_pow_pos j)),
        (==_iff ((2 * a + 1) * 2 ^ j) ((2 * a + 1) * 2 ^ j)).1 refl,
        or_true (not ((2 * a + 1) * 2 ^ j % 2 == 0)),
        strip_lem j (2 * a + 1) (omega arith),
        half,
      )

  snoc_rest : (qs rest : List Hash) (s : Hash) → reverse (s ∷ qs) ++ rest ≡ reverse qs ++ s ∷ rest
  snoc_rest qs rest s =
      ap (λ l. l ++ rest) (reverse-append (s ∷ []) qs) ∙ append_assoc (reverse qs) (s ∷ []) rest

  -- A full subtree with something to its right: the loop climbs it, and comes out at its root.
  loop_full :
      {m n : ℕ} {lh : Hash} {qs : List Hash} {h : Hash}
      → Rebuilds sha256 m n lh qs h
      → (p a sn : ℕ) (rest : List Hash) → n ≡ 2 ^ p
      → a < sn / 2 ^ p
      → inclusion_loop sha256 (reverse qs ++ rest) (a * 2 ^ p + m) sn lh
        ≡ inclusion_loop sha256 rest a (sn / 2 ^ p) h
  loop_full (leaf m n lh h m0 n1 e) p a sn rest np below =
      let one : 2 ^ p ≡ 1 = omega arith in
      rw (one, m0, e) (ap₂ (λ i x. inclusion_loop sha256 rest i x lh) (omega arith) (omega arith))
  loop_full (left m n lh s r h qs big at b e) zero a sn rest np below = absurd (omega arith)
  loop_full (left m n lh s r h qs big at b e) (suc p) a sn rest np below =
      let half : split n ≡ 2 ^ p =
        split_unique p n (omega (arith, two_pow-suc p, two_pow_pos p))
          (omega (arith, two_pow-suc p)) in
      ap₂ (λ l i. inclusion_loop sha256 l i sn lh) (snoc_rest qs rest s)
        (omega (arith, ap (λ (t : ℕ). a * t) (two_pow-suc p)))
      ∙ loop_full b p (2 * a) sn (s ∷ rest) half (omega (arith, shifted sn p))
      ∙ step_even s r rest a (sn / 2 ^ p) (omega (arith, shifted sn p))
      ∙ ap₂ (λ x k. inclusion_loop sha256 rest a x k) (sym (shifted sn p)) (sym e)
  loop_full (right m n lh s r h qs big at b e) zero a sn rest np below = absurd (omega arith)
  loop_full (right m n lh s r h qs big at b e) (suc p) a sn rest np below =
      let half : split n ≡ 2 ^ p =
        split_unique p n (omega (arith, two_pow-suc p, two_pow_pos p))
          (omega (arith, two_pow-suc p)) in
      ap₂ (λ l i. inclusion_loop sha256 l i sn lh) (snoc_rest qs rest s)
        (omega (arith, ap (λ (t : ℕ). a * t) (two_pow-suc p)))
      ∙ loop_full b p (2 * a + 1) sn (s ∷ rest) (omega (arith, two_pow-suc p))
          (omega (arith, shifted sn p))
      ∙ step_odd s r rest a (sn / 2 ^ p) (omega (arith, shifted sn p))
      ∙ ap₂ (λ x k. inclusion_loop sha256 rest a x k) (sym (shifted sn p)) (sym e)

  -- A subtree at the right edge, whose last leaf is the last of all: the loop comes out with the
  -- two indices equal, and they are the index of the subtree's place, shifted.
  abbrev pub Climbs : ℕ → ℕ → ℕ → ℕ → Hash → List Hash → Hash → Type 0
  Climbs q a m n lh qs h =
      (rest : List Hash)
      → (j : ℕ) × (inclusion_loop sha256 (reverse qs ++ rest) (a * 2 ^ q + m) (a * 2 ^ q + (n - 1))
            lh
          ≡ inclusion_loop sha256 rest (a * 2 ^ j) (a * 2 ^ j) h)

  -- The place of the subtree, above its split.
  scaled : (a q p : ℕ) → p < q → a * 2 ^ q ≡ 2 * (a * 2 ^ (q - suc p)) * 2 ^ p
  scaled a q p h =
      let e : q ≡ (q - suc p) + suc p = omega arith in
      ap (λ (t : ℕ). a * 2 ^ t) e
      ∙ ap (λ (t : ℕ). a * t) (two_pow-add (q - suc p) (suc p))
      ∙ omega (arith, ap (λ (t : ℕ). a * (2 ^ (q - suc p) * t)) (two_pow-suc p))

  pub loop_edge :
      {m n : ℕ} {lh : Hash} {qs : List Hash} {h : Hash}
      → Rebuilds sha256 m n lh qs h
      → (q a : ℕ) → n ≤ 2 ^ q
      → Climbs q a m n lh qs h
  loop_edge (leaf m n lh h m0 n1 e) q a fits rest =
      (q, rw e (ap₂ (λ i x. inclusion_loop sha256 rest i x lh) (omega arith) (omega arith)))
  loop_edge (left m n lh s r h qs big at b e) q a fits rest =
      let (p, half, lo, hi) = split_bounds n big in
      let below : p < q = two_pow-lt→lt p q (omega arith) in
      let place = scaled a q p below in
      let last : (a * 2 ^ q + (n - 1)) / 2 ^ p ≡ 2 * (a * 2 ^ (q - suc p)) + 1 =
        div-eq_of_lt-le (2 ^ p) (omega arith) (omega arith) in
      (
        q - suc p,
        ap₂ (λ l i. inclusion_loop sha256 l i (a * 2 ^ q + (n - 1)) lh) (snoc_rest qs rest s)
              (omega arith)
            ∙ loop_full b p (2 * (a * 2 ^ (q - suc p))) (a * 2 ^ q + (n - 1)) (s ∷ rest) half
                (omega arith)
            ∙ step_even s r rest (a * 2 ^ (q - suc p)) ((a * 2 ^ q + (n - 1)) / 2 ^ p) (omega arith)
            ∙ ap₂ (λ x k. inclusion_loop sha256 rest (a * 2 ^ (q - suc p)) x k) (omega arith)
                (sym e),
      )
  loop_edge (right m n lh s r h qs big at b e) q a fits rest =
      let (p, half, lo, hi) = split_bounds n big in
      let below : p < q = two_pow-lt→lt p q (omega arith) in
      let place = scaled a q p below in
      let (j, climbed) = loop_edge b p (2 * (a * 2 ^ (q - suc p)) + 1) (omega arith) (s ∷ rest) in
      (
        q - suc p,
        ap (λ l. inclusion_loop sha256 l (a * 2 ^ q + m) (a * 2 ^ q + (n - 1)) lh)
              (snoc_rest qs rest s)
            ∙ ap₂ (λ i x. inclusion_loop sha256 (reverse qs ++ s ∷ rest) i x lh) (omega arith)
                (omega arith)
            ∙ climbed
            ∙ step_edge s r rest (a * 2 ^ (q - suc p)) j
            ∙ ap (inclusion_loop sha256 rest (a * 2 ^ (q - suc p)) (a * 2 ^ (q - suc p))) (sym e),
      )
