-- ===== src/Core/Merkle/Frontier.antt =====
-- The frontier by recursion on its levels: what `append` leaves, and which leaves each node covers.
use settled.Prelude.{
  ℕ, suc, ◌+◌, ◌*◌, ◌/◌, ◌%◌, ◌^◌, ◌≤◌, ◌<◌, List, [], ◌∷◌, ◌++◌, append_assoc, none, some, ◌≡◌,
  refl, ap, sym, ◌∙◌, length, length-append, arith, ◌==◌, ==_iff, ==_ne, if◌then◌else◌, two_pow-suc,
  two_pow_pos,
}
use mathlib.Core.Path.{subst, subst₂}
use native.Mathlib.Nat.{pow-suc, div-div-eq-div-mul}
use settled.Core.Hash.{Bytes, Hash, zero_hash, node_hash}
use settled.Core.Merkle.{tree_hash, combine, root_loop}
use settled.Core.Merkle.Spec.{tree_hash-append}

mul-two_pow : (s q b l : ℕ) → s ≡ 2 * q + b → s * 2 ^ l ≡ q * 2 ^ suc l + b * 2 ^ l
mul-two_pow s q b l e = rw (e, two_pow-suc l) (omega arith)

pub shifted : (n l : ℕ) → n / 2 ^ suc l ≡ n / 2 ^ l / 2
shifted n l = ap (λ (t : ℕ). n / t) (pow-suc 2 l) ∙ sym (div-div-eq-div-mul n (2 ^ l) 2)

module _ (sha256 : Bytes → Hash) where
  -- The frontier from some level up after a carry: `s` is the size shifted down to that level.
  unfoldable pub push_carry : List Hash → ℕ → Hash → List Hash
  push_carry [] s h = h ∷ []
  push_carry (f ∷ fs) s h =
      let rest = push_carry fs (s / 2) (node_hash sha256 f h) in
      if s % 2 == 1 then zero_hash ∷ rest else h ∷ fs

  pub push_carry_odd :
      (f : Hash) (fs : List Hash) (s : ℕ) (h : Hash)
      → s % 2 ≡ 1
      → push_carry (f ∷ fs) s h ≡ zero_hash ∷ push_carry fs (s / 2) (node_hash sha256 f h)
  unfolding push_carry
  push_carry_odd f fs s h b = rw ((==_iff (s % 2) 1).1 b)

  -- The nodes `fs` from level `l` up cover exactly the leaves `xs`, which are `s * 2 ^ l` many: the
  -- lowest node, if its bit is set, covers the last `2 ^ l` of them.
  pub data Covers : List Hash → ℕ → ℕ → List Hash → Type 0 where
    top : (l s : ℕ) (xs : List Hash) → s ≡ 0 → xs ≡ [] → Covers [] l s xs
    clear :
        (f : Hash) (fs : List Hash) (l s : ℕ) (xs : List Hash)
        → s % 2 ≡ 0
        → Covers fs (suc l) (s / 2) xs
        → Covers (f ∷ fs) l s xs
    occupied :
        (f : Hash) (fs : List Hash) (l s : ℕ) (xs ys zs : List Hash)
        → s % 2 ≡ 1
        → Covers fs (suc l) (s / 2) ys
        → length zs ≡ 2 ^ l
        → f ≡ tree_hash sha256 zs
        → xs ≡ ys ++ zs
        → Covers (f ∷ fs) l s xs

  pub length-Covers :
      {fs : List Hash} {l s : ℕ} {xs : List Hash} → Covers fs l s xs → length xs ≡ s * 2 ^ l
  length-Covers (top l s xs e n) = rw (e, n) (omega arith)
  length-Covers (clear f fs l s xs b c) =
      omega (arith, length-Covers c, mul-two_pow s (s / 2) 0 l (omega arith))
  length-Covers (occupied f fs l s xs ys zs b c z d e) =
      rw e (
        omega
          (arith, length-append ys zs, length-Covers c, mul-two_pow s (s / 2) 1 l (omega arith)))

  -- A node above the tree of leaves that follow.
  join :
      (f : Hash) (ws zs : List Hash) (l : ℕ)
      → length ws ≡ 2 ^ l
      → f ≡ tree_hash sha256 ws
      → 0 < length zs
      → length zs ≤ 2 ^ l
      → node_hash sha256 f (tree_hash sha256 zs) ≡ tree_hash sha256 (ws ++ zs)
  join f ws zs l w d lo hi =
      ap (λ h. node_hash sha256 h (tree_hash sha256 zs)) d
      ∙ sym (tree_hash-append sha256 l ws zs w lo hi)

  -- One more block of `2 ^ l` leaves: the carry keeps the frontier covering the leaves.
  pub Covers-push_carry :
      (fs : List Hash) (l s : ℕ) (xs zs : List Hash)
      → Covers fs l s xs
      → length zs ≡ 2 ^ l
      → Covers (push_carry fs s (tree_hash sha256 zs)) l (s + 1) (xs ++ zs)
  unfolding push_carry
  Covers-push_carry fs l s xs zs (top _ _ _ e n) z =
      occupied (tree_hash sha256 zs) [] l (s + 1) (xs ++ zs) [] zs (omega arith)
        (top (suc l) ((s + 1) / 2) [] (omega arith) refl) z refl (ap (λ ys. ys ++ zs) n)
  Covers-push_carry fs l s xs zs (clear f gs _ _ _ b c) z =
      let same : s / 2 ≡ (s + 1) / 2 = omega arith in
      rw (==_ne (s % 2) 1 (λ h. omega arith)) (
        occupied (tree_hash sha256 zs) gs l (s + 1) (xs ++ zs) xs zs (omega arith)
          (subst (λ q. Covers gs (suc l) q xs) same c) z refl refl)
  Covers-push_carry fs l s xs zs (occupied f gs _ _ _ ys ws b c w d e) z =
      let up : s / 2 + 1 ≡ (s + 1) / 2 = omega arith in
      let whole : length (ws ++ zs) ≡ 2 ^ suc l =
        omega (arith, length-append ws zs, two_pow-suc l) in
      let node : node_hash sha256 f (tree_hash sha256 zs) ≡ tree_hash sha256 (ws ++ zs) =
        join f ws zs l w d (omega (arith, two_pow_pos l)) (omega arith) in
      let leaves : ys ++ (ws ++ zs) ≡ xs ++ zs =
        sym (append_assoc ys ws zs) ∙ ap (λ v. v ++ zs) (sym e) in
      let carried =
        subst (λ h. Covers (push_carry gs (s / 2) h) (suc l) (s / 2 + 1) (ys ++ (ws ++ zs)))
          (sym node) (Covers-push_carry gs (suc l) (s / 2) ys (ws ++ zs) c whole) in
      let rest = push_carry gs (s / 2) (node_hash sha256 f (tree_hash sha256 zs)) in
      rw ((==_iff (s % 2) 1).1 b) (
        clear zero_hash rest l (s + 1) (xs ++ zs) (omega arith)
          (subst₂ (λ q v. Covers rest (suc l) q v) up leaves carried))

  -- From level `l` up, with the tree of the last leaves combined below.
  root_loop-some :
      (size l s : ℕ) (fs xs zs : List Hash)
      → Covers fs l s xs
      → size / 2 ^ l ≡ s
      → 0 < length zs
      → length zs < 2 ^ l
      → root_loop sha256 size l fs (some (tree_hash sha256 zs)) ≡ some (tree_hash sha256 (xs ++ zs))
  unfolding root_loop combine
  root_loop-some size l s fs xs zs (top _ _ _ e n) at lo hi = rw n
  root_loop-some size l s fs xs zs (clear f gs _ _ _ b c) at lo hi =
      rw (==_ne (size / 2 ^ l % 2) 1 (λ h. omega arith), next)
        (root_loop-some size (suc l) (s / 2) gs xs zs c (omega (arith, shifted size l)) lo
          (omega (arith, two_pow-suc l)))
    where
      next : l + 1 ≡ suc l
      next = omega arith
  root_loop-some size l s fs xs zs (occupied f gs _ _ _ ys ws b c w d e) at lo hi =
      rw ((==_iff (size / 2 ^ l % 2) 1).1 (omega arith), next, join f ws zs l w d lo (omega arith))
        (root_loop-some size (suc l) (s / 2) gs ys (ws ++ zs) c (omega (arith, shifted size l))
            (omega (arith, length-append ws zs)) (omega (arith, length-append ws zs, two_pow-suc l))
          ∙ ap (λ v. some (tree_hash sha256 v))
              (sym (append_assoc ys ws zs) ∙ ap (λ v. v ++ zs) (sym e)))
    where
      next : l + 1 ≡ suc l
      next = omega arith

  -- From level `l` up, with no bit set below: the tree of the leaves, if there are any.
  pub root_loop-none :
      (size l s : ℕ) (fs xs : List Hash)
      → Covers fs l s xs
      → size / 2 ^ l ≡ s
      → 0 < length xs
      → root_loop sha256 size l fs none ≡ some (tree_hash sha256 xs)
  unfolding root_loop combine
  root_loop-none size l s fs xs (top _ _ _ e n) at h = absurd (omega (arith, ap length n))
  root_loop-none size l s fs xs (clear f gs _ _ _ b c) at h =
      rw (==_ne (size / 2 ^ l % 2) 1 (λ h. omega arith), next)
        (root_loop-none size (suc l) (s / 2) gs xs c (omega (arith, shifted size l)) h)
    where
      next : l + 1 ≡ suc l
      next = omega arith
  root_loop-none size l s fs xs (occupied f gs _ _ _ ys ws b c w d e) at h =
      rw ((==_iff (size / 2 ^ l % 2) 1).1 (omega arith), next, d)
        (root_loop-some size (suc l) (s / 2) gs ys ws c (omega (arith, shifted size l))
            (omega (arith, two_pow_pos l)) (omega (arith, two_pow-suc l, two_pow_pos l))
          ∙ ap (λ v. some (tree_hash sha256 v)) (sym e))
    where
      next : l + 1 ≡ suc l
      next = omega arith
