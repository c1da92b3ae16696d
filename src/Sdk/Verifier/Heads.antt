-- ===== src/Sdk/Verifier/Heads.antt =====
-- Tree heads the server signs, as the client checks them.
use settled.Prelude.{
  ℕ, List, some, Bool, true, false, ◌≡◌, ◌↔◌, refl, sym, ap, ◌∙◌, if◌then◌else◌, ℤ, lebℤ,
}
use settled.Core.Hash.{Bytes, Hash}
use settled.Core.Ed25519.{Ed25519}
use settled.Core.Sth
use settled.Sdk.Verifier.{
  signing_payload, verify_tree_head, verify_tree_head_sequential, verify_tree_head_with_chain,
  verify_with_record, KeyRecord, find_version,
}

signing_payload-eq_core :
    (n : ℕ) (r : Hash) (t : ℤ) → signing_payload n r t ≡ Sth.signing_payload n r t
unfolding signing_payload Sth.signing_payload
signing_payload-eq_core n r t = refl

if_late :
    (late : Bool) {valid : Bool}
    → valid ≡ true
    → ((if late then false else valid) ≡ true) ↔ (late ≡ false)
if_late true h = (λ x. sym x, λ x. sym x)
if_late false h = (λ x. refl, λ x. h)

module _ (e : Ed25519) where
  pub verify_tree_head-sign_tree_head :
      (key : e.SigningKey) (n : ℕ) (r : Hash) (t : ℤ)
      → verify_tree_head e n r t (Sth.sign_tree_head e key n r t) (e.to_bytes (e.verifying_key key))
        ≡ true
  unfolding verify_tree_head Sth.sign_tree_head
  verify_tree_head-sign_tree_head key n r t = rw (
    e.length-to_bytes (e.verifying_key key),
    e.length-sign key (Sth.signing_payload n r t),
    e.from_bytes-to_bytes (e.verifying_key key),
    signing_payload-eq_core n r t,
    e.verify-sign key (Sth.signing_payload n r t),
  )

  with_chain-found :
      (n : ℕ) (r : Hash) (t : ℤ) (signature : Bytes) (version : ℕ) (chain : List KeyRecord)
      (record' : KeyRecord)
      → find_version chain version ≡ some record'
      → verify_tree_head_with_chain e n r t signature version chain
        ≡ verify_tree_head e n r t signature record'.public_key
  unfolding verify_tree_head_with_chain verify_with_record
  with_chain-found n r t signature version chain record' found =
      ap (verify_with_record e n r t signature) found

  -- A tree head that `sign_tree_head` signed is accepted by the server's `verify_tree_head` and by
  -- the client's: alone, against a key chain whose first record of that version holds the signer's
  -- public key, and after a previous head exactly if its time is later.
  pub signed_head_accepted :
      (key : e.SigningKey) (n : ℕ) (r : Hash) (t previous : ℤ) (version : ℕ)
      (chain : List KeyRecord) (record' : KeyRecord)
      → find_version chain version ≡ some record'
      → record'.public_key ≡ e.to_bytes (e.verifying_key key)
      → (Sth.verify_tree_head e (e.verifying_key key) n r t (Sth.sign_tree_head e key n r t) ≡ true)
        × (verify_tree_head e n r t
              (Sth.sign_tree_head e key n r t)
              (e.to_bytes (e.verifying_key key))
            ≡ true)
        × (verify_tree_head_with_chain e n r t (Sth.sign_tree_head e key n r t) version chain
            ≡ true)
        × ((verify_tree_head_sequential e n r t
                (Sth.sign_tree_head e key n r t)
                (e.to_bytes (e.verifying_key key))
                previous
              ≡ true)
            ↔ (lebℤ t previous ≡ false))
  unfolding verify_tree_head_sequential Sth.verify_tree_head Sth.sign_tree_head
  signed_head_accepted key n r t previous version chain record' found holds = (
    e.verify-sign key (Sth.signing_payload n r t),
    verify_tree_head-sign_tree_head key n r t,
    with_chain-found n r t (Sth.sign_tree_head e key n r t) version chain record' found
        ∙ ap (verify_tree_head e n r t (Sth.sign_tree_head e key n r t)) holds
        ∙ verify_tree_head-sign_tree_head key n r t,
    if_late (lebℤ t previous) (verify_tree_head-sign_tree_head key n r t),
  )
