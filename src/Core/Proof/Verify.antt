-- ===== src/Core/Proof/Verify.antt =====
-- `verify_inclusion` accepts exactly the proofs that rebuild the root.
use mathlib.Core.List.{reverse, reverse-append, reverse-reverse}
use mathlib.Core.Path.{subst}
use settled.Prelude.{
  ℕ, ◌-◌, ◌≤◌, ◌<◌, List, [], ◌∷◌, ◌++◌, append-nil, Option, none, some, ◌≡◌, ◌↔◌, inl, inr, refl,
  ap, ap₂, sym, ◌∙◌, arith, length, length-append, length-take, length-drop, length-replicate, take,
  drop, take-append-drop, replicate, true, Bool-cases, le-cases, leb_gt, ==_ne, lt-two_pow, ◌==◌,
}
use settled.Core.Hash.{Bytes, Hash}
use settled.Core.Hash.Collisions.{bytes_eq_iff}
use settled.Core.Proof.{inclusion_loop, inclusion_end, verify_inclusion}
use settled.Core.Proof.Rebuilds.{Rebuilds, Depth, Depth-exists}
use settled.Core.Proof.Loop.{loop_edge}

length-reverse {ℓ} : {A : Type ℓ} (xs : List A) → length (reverse xs) ≡ length xs
length-reverse [] = refl
length-reverse (x ∷ xs) =
    ap length (reverse-append (x ∷ []) xs)
    ∙ omega (arith, length-append (reverse xs) (x ∷ []), length-reverse xs)

module _ (sha256 : Bytes → Hash) where
  inclusion_loop-append :
      (xs ys : List Hash) (fn sn fn' sn' : ℕ) (r r' : Hash)
      → inclusion_loop sha256 xs fn sn r ≡ some (fn', sn', r')
      → inclusion_loop sha256 (xs ++ ys) fn sn r ≡ inclusion_loop sha256 ys fn' sn' r'
  unfolding inclusion_loop
  inclusion_loop-append [] ys fn sn fn' sn' r r' e = cc
  inclusion_loop-append (x ∷ xs) ys fn sn fn' sn' r r' e = elim (Bool-cases (sn == 0)) [
    | inl z ↦ cc (rw (z, inclusion_loop) at e)
    | inr nz ↦ rw nz (inclusion_loop-append xs ys _ _ fn' sn' _ r' (rw (nz, inclusion_loop) at e))
  ]

  loop_nil : (h : Hash) → inclusion_loop sha256 [] 0 0 h ≡ some (0, 0, h)
  unfolding inclusion_loop
  loop_nil h = refl

  loop_top :
      {m n : ℕ} {lh : Hash} {qs : List Hash} {h : Hash}
      → Rebuilds sha256 m n lh qs h
      → (rest : List Hash)
      → inclusion_loop sha256 (reverse qs ++ rest) m (n - 1) lh ≡ inclusion_loop sha256 rest 0 0 h
  loop_top {m} {n} {lh} {qs} {h} b rest =
      let (j, climbed) = loop_edge sha256 b n 0 (omega (arith, lt-two_pow n)) rest in
      ap₂ (λ i x. inclusion_loop sha256 (reverse qs ++ rest) i x lh) (omega arith) (omega arith)
      ∙ climbed
      ∙ ap₂ (λ i x. inclusion_loop sha256 rest i x h) (omega arith) (omega arith)

  -- The bounds test of `verify_inclusion`, and what its end asks for.
  verify_inclusion-lt :
      (lh : Hash) (m n : ℕ) (proof : List Hash) (root : Hash)
      → verify_inclusion sha256 lh m n proof root ≡ true
      → m < n
  unfolding verify_inclusion
  verify_inclusion-lt lh m n proof root e = ground arith

  verify_inclusion-loop :
      (lh : Hash) (m n : ℕ) (proof : List Hash) (root : Hash)
      → m < n
      → verify_inclusion sha256 lh m n proof root
        ≡ inclusion_end (inclusion_loop sha256 proof m (n - 1) lh) root
  unfolding verify_inclusion
  verify_inclusion-loop lh m n proof root h = rw (==_ne n 0 (λ e. omega arith), leb_gt n m h)

  inclusion_end-true :
      (o : Option (ℕ × ℕ × Hash)) (root : Hash)
      → inclusion_end o root ≡ true
      → (fn : ℕ) × (o ≡ some (fn, 0, root))
  unfolding inclusion_end
  inclusion_end-true none root e = cc
  inclusion_end-true (some (fn, sn, r)) root e = (fn, ground (arith, bytes_eq_iff r root))

  loop_stops :
      (xs : List Hash) (fn : ℕ) (r : Hash) → 0 < length xs → inclusion_loop sha256 xs fn 0 r ≡ none
  unfolding inclusion_loop
  loop_stops [] fn r h = absurd (omega arith)
  loop_stops (x ∷ xs) fn r h = refl

  -- A proof as long as the path rebuilds what the loop computes.
  climb :
      (m n d : ℕ) (lh : Hash) (ps : List Hash)
      → Depth sha256 m n d
      → length ps ≡ d
      → (h : Hash) × Rebuilds sha256 m n lh (reverse ps) h
        × ((rest : List Hash)
            → inclusion_loop sha256 (ps ++ rest) m (n - 1) lh ≡ inclusion_loop sha256 rest 0 0 h)
  climb m n d lh ps depth e =
      let (h, b) = depth lh (reverse ps) (length-reverse ps ∙ e) in
      (
        h,
        b,
        λ rest.
            ap (λ l. inclusion_loop sha256 (l ++ rest) m (n - 1) lh) (sym (reverse-reverse ps))
            ∙ loop_top b rest,
      )

  not_shorter :
      (m n d fn : ℕ) (lh root : Hash) (proof : List Hash)
      → Depth sha256 m n d
      → inclusion_loop sha256 proof m (n - 1) lh ≡ some (fn, 0, root)
      → d ≤ length proof
  not_shorter m n d fn lh root proof depth e = elim (le-cases d (length proof)) [
    | inl fits ↦ fits
    | inr short ↦
        let ext = replicate (d - length proof) lh in
        let long : length (proof ++ ext) ≡ d =
          omega (arith, length-append proof ext, length-replicate (d - length proof) lh) in
        let (h, b, climbs) = climb m n d lh (proof ++ ext) depth long in
        absurd (
          cc (
            climbs [],
            append-nil (proof ++ ext),
            inclusion_loop-append proof ext m (n - 1) fn 0 lh root e,
            loop_stops ext fn root (omega (arith, length-replicate (d - length proof) lh)),
            loop_nil h,
          ))
  ]

  not_longer :
      (m n d fn : ℕ) (lh root : Hash) (proof : List Hash)
      → Depth sha256 m n d
      → inclusion_loop sha256 proof m (n - 1) lh ≡ some (fn, 0, root)
      → length proof ≤ d
  not_longer m n d fn lh root proof depth e = elim (le-cases (length proof) d) [
    | inl fits ↦ fits
    | inr long ↦
        let (h, b, climbs) =
          climb m n d lh (take d proof) depth (omega (arith, length-take d proof)) in
        absurd (
          cc (
            climbs (drop d proof),
            take-append-drop d proof,
            loop_stops (drop d proof) 0 h (omega (arith, length-drop d proof)),
            e,
          ))
  ]

  verify_inclusion-Rebuilds :
      (lh : Hash) (m n : ℕ) (proof : List Hash) (root : Hash)
      → verify_inclusion sha256 lh m n proof root ≡ true
      → Rebuilds sha256 m n lh (reverse proof) root
  verify_inclusion-Rebuilds lh m n proof root e =
      let h = verify_inclusion-lt lh m n proof root e in
      let (fn, ends) =
        inclusion_end-true (inclusion_loop sha256 proof m (n - 1) lh) root
          (sym (verify_inclusion-loop lh m n proof root h) ∙ e) in
      let (d, depth) = Depth-exists sha256 m n h in
      let long = not_shorter m n d fn lh root proof depth ends in
      let short = not_longer m n d fn lh root proof depth ends in
      let (r, b, climbs) = climb m n d lh proof depth (omega arith) in
      subst (λ v. Rebuilds sha256 m n lh (reverse proof) v)
        (cc (climbs [], append-nil proof, loop_nil r)) b

  Rebuilds-verify_inclusion :
      (lh : Hash) (m n : ℕ) (proof : List Hash) (root : Hash)
      → m < n
      → Rebuilds sha256 m n lh (reverse proof) root
      → verify_inclusion sha256 lh m n proof root ≡ true
  unfolding inclusion_end
  Rebuilds-verify_inclusion lh m n proof root h b =
      let ends : inclusion_loop sha256 proof m (n - 1) lh ≡ some (0, 0, root) = cc (
        loop_top b [],
        append-nil (reverse (reverse proof)),
        reverse-reverse proof,
        loop_nil root,
      ) in
      verify_inclusion-loop lh m n proof root h ∙ rw ends ((bytes_eq_iff root root).1 refl)

  -- `verify_inclusion` accepts exactly if the index is in range and the siblings, from the root
  -- down, rebuild the root from the leaf.
  pub verify_inclusion_iff :
      (lh : Hash) (m n : ℕ) (proof : List Hash) (root : Hash)
      → (verify_inclusion sha256 lh m n proof root ≡ true)
        ↔ ((m < n) × Rebuilds sha256 m n lh (reverse proof) root)
  verify_inclusion_iff lh m n proof root = (
    λ e. (verify_inclusion-lt lh m n proof root e, verify_inclusion-Rebuilds lh m n proof root e),
    λ (h, b). Rebuilds-verify_inclusion lh m n proof root h b,
  )
