-- ===== src/Sdk/Verifier/Examples.antt =====
-- The client's verifier on the trees and the toy hash of the tests of settled-core.
use settled.Prelude.{
  ℕ, List, [], ◌∷◌, true, false, ◌≡◌, ◌↔◌, refl, arith, length, done, pos, lebℤ, panic, Bool, ◌⊎◌,
  ◌^◌, ◌<◌,
}
use settled.Core.Examples.{toy, at, the_key, one_key}
use settled.Core.Hash.{bytes_eq}
use settled.Core.Split.{sdk_split, split_loop}
use settled.Core.Proof
use settled.Core.Sth
use settled.Core.Sth.Payload.{signing_payload_injective}
use settled.Sdk.Verifier.{
  verify_inclusion, verify_consistency, verify_tree_head, verify_tree_head_with_chain,
  verify_tree_head_sequential, KeyRecord, find_version,
}
use settled.Sdk.Verifier.SameAsCore.{verify_inclusion-eq_core, verify_consistency-eq_core}
use settled.Sdk.Verifier.Heads.{signed_head_accepted}

history_accepted : verify_consistency toy 2 3 (at 30 ∷ []) (at 79) (at 177) ≡ done true
unfolding verify_consistency sdk_split split_loop bytes_eq
history_accepted = refl

verify_inclusion-eq_core_example :
    verify_inclusion toy (at 20) 1 3 (at 10 ∷ at 30 ∷ []) (at 177)
    ≡ Proof.verify_inclusion toy (at 20) 1 3 (at 10 ∷ at 30 ∷ []) (at 177)
verify_inclusion-eq_core_example =
    verify_inclusion-eq_core toy (at 20) 1 3 (at 10 ∷ at 30 ∷ []) (at 177)

verify_consistency-eq_core_example :
    (verify_consistency toy 2 3 (at 30 ∷ []) (at 79) (at 177)
      ≡ Proof.verify_consistency toy 2 3 (at 30 ∷ []) (at 79) (at 177))
    ⊎ ((0 < 2)
        × (2 < 3)
        × (2 ^ 63 < 3)
        × (verify_consistency toy 2 3 (at 30 ∷ []) (at 79) (at 177) ≡ panic)
        × ((b : Bool) × (Proof.verify_consistency toy 2 3 (at 30 ∷ []) (at 79) (at 177) ≡ done b)))
verify_consistency-eq_core_example =
    verify_consistency-eq_core toy 2 3 (at 30 ∷ []) (at 79) (at 177) (omega arith)

abbrev size : ℕ
size = 3

signing_payload_injective_example :
    (length (Sth.signing_payload size (at 177) (pos 9)) ≡ 48)
    × (size ≡ size)
    × (at 177 ≡ at 177)
    × (pos 9 ≡ pos 9)
signing_payload_injective_example =
    signing_payload_injective size size (at 177) (at 177) (pos 9) (pos 9) (omega arith)
      (omega arith) refl refl (omega arith) (omega arith) refl

abbrev chain : List KeyRecord
chain =
    record { version = 1; public_key = at 9; activated_at_tree_size = 0 }
    ∷ record { version = 2; public_key = at 1; activated_at_tree_size = 3 }
    ∷ []

signed_head_accepted_example :
    (Sth.verify_tree_head one_key the_key 3
        (at 177)
        (pos 9)
        (Sth.sign_tree_head one_key the_key 3 (at 177) (pos 9))
      ≡ true)
    × (verify_tree_head one_key 3
          (at 177)
          (pos 9)
          (Sth.sign_tree_head one_key the_key 3 (at 177) (pos 9))
          (at 1)
        ≡ true)
    × (verify_tree_head_with_chain one_key 3
          (at 177)
          (pos 9)
          (Sth.sign_tree_head one_key the_key 3 (at 177) (pos 9))
          2
          chain
        ≡ true)
    × ((verify_tree_head_sequential one_key 3
            (at 177)
            (pos 9)
            (Sth.sign_tree_head one_key the_key 3 (at 177) (pos 9))
            (at 1)
            (pos 4)
          ≡ true)
        ↔ (lebℤ (pos 9) (pos 4) ≡ false))
unfolding find_version
signed_head_accepted_example =
    signed_head_accepted one_key the_key 3 (at 177) (pos 9) (pos 4) 2 chain
      (record { version = 2; public_key = at 1; activated_at_tree_size = 3 }) refl refl
