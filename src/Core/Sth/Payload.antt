-- ===== src/Core/Sth/Payload.antt =====
-- The payload determines the tree head.
use settled.Prelude.{
  ℕ, ◌++◌, ◌≡◌, refl, arith, length, length-append, ℤ, IsI64, be_bytes, bit_pattern,
  be_bytes_injective, bit_pattern-lt, bit_pattern_injective,
}
use settled.Core.Hash.{Hash, IsHash}
use settled.Core.Hash.Collisions.{append_injective}
use settled.Core.Split.{IsU64}
use settled.Core.Sth.{signing_payload}

pub length-signing_payload :
    (n : ℕ) (r : Hash) (t : ℤ) → IsHash r → length (signing_payload n r t) ≡ 48
unfolding signing_payload
length-signing_payload n r t h = omega (
  arith,
  length-append (be_bytes 8 n) (r ++ be_bytes 8 (bit_pattern t)),
  length-append r (be_bytes 8 (bit_pattern t)),
)

-- For sizes and times of 64 bits and roots of 32 bytes: the payload has 48 bytes, and two tree heads
-- with one payload have the same size, root and time.
pub signing_payload_injective :
    (n n' : ℕ) (r r' : Hash) (t t' : ℤ)
    → IsU64 n
    → IsU64 n'
    → IsHash r
    → IsHash r'
    → IsI64 t
    → IsI64 t'
    → signing_payload n r t ≡ signing_payload n' r' t'
    → (length (signing_payload n r t) ≡ 48) × (n ≡ n') × (r ≡ r') × (t ≡ t')
unfolding signing_payload
signing_payload_injective n n' r r' t t' hn hn' hr hr' ht ht' e =
    let (size, rest) =
      append_injective (be_bytes 8 n) (r ++ be_bytes 8 (bit_pattern t)) (be_bytes 8 n')
        (r' ++ be_bytes 8 (bit_pattern t')) refl e in
    let (root, time) =
      append_injective r (be_bytes 8 (bit_pattern t)) r' (be_bytes 8 (bit_pattern t')) (omega arith)
        rest in
    (
      length-signing_payload n r t hr,
      be_bytes_injective 8 n n' hn hn' size,
      root,
      bit_pattern_injective t t' ht ht' (
          be_bytes_injective 8 (bit_pattern t) (bit_pattern t') (bit_pattern-lt t ht)
            (bit_pattern-lt t' ht') time),
    )
