-- ===== src/Request/Signing/Accepted.antt =====
-- What is signed is accepted: `Sign` and `Verify` of request/.
use vipnode.Base.{
  ℕ, zero, suc, ◌-◌, ◌<◌, ◌≤◌, String, ◌≡◌, refl, ap, subst, ◌∙◌, true, false, List, [], ◌∷◌, ◌++◌,
  map, leb, ltb, length, length-append, take, if◌then◌else◌, arith, Bool-cases, inl, inr, nat_eq,
}
use vipnode.Base.Exec.{ok, Result-cases}
use vipnode.Int.{ℤ}
use vipnode.Ethnode.{codes, lower, same}
use vipnode.Request.{
  Crypto, node_hash, address_hash, verify, verify_node, verify_address, decoded_len, first_64,
  legacy_v, zeros, without_prefix,
}
use Prim.Native.String.{len}
use vipnode.Request.Signing.{Signer, SignerLaws, sign_node, sign_address, sign, KeyFits, IsKeyOf}

take-append : (rs l : List ℕ) (n : ℕ) → length rs ≡ n → take n (rs ++ l) ≡ rs
take-append [] l zero h = refl
take-append [] l (suc n) h = ground arith
take-append (x ∷ rs) l zero h = ground arith
take-append (x ∷ rs) l (suc n) h = ap (λ t. x ∷ t) (take-append rs l n (omega arith))

append_assoc : {A : Type 0} (xs ys zs : List A) → (xs ++ ys) ++ zs ≡ xs ++ (ys ++ zs)
append_assoc [] ys zs = refl
append_assoc (x ∷ xs) ys zs = ap (λ l. x ∷ l) (append_assoc xs ys zs)

first_64-append :
    (rs : List ℕ) (v capacity : ℕ)
    → length rs ≡ 64
    → length (rs ++ (v ∷ [])) ≤ capacity
    → first_64 capacity (rs ++ (v ∷ [])) ≡ ok rs
unfolding first_64
first_64-append rs v capacity h room =
    let bytes = rs ++ (v ∷ []) in
    let behind = zeros (64 - length bytes) in
    let enough : ltb capacity 64 ≡ false = grind (arith, length-append rs (v ∷ [])) in
    rw enough
      (ap ok (ap (take 64) (append_assoc rs (v ∷ []) behind) ∙ take-append rs (v ∷ behind) 64 h))

legacy_v-append : (rs : List ℕ) (v : ℕ) → v < 2 → legacy_v (rs ++ (v ∷ [])) ≡ rs ++ (v ∷ [])
unfolding legacy_v
legacy_v-append [] v h = ground arith
legacy_v-append (b ∷ []) v h = ground arith
legacy_v-append (b ∷ d ∷ rest) v h = ap (λ l. b ∷ l) (legacy_v-append (d ∷ rest) v h)

module _ {Arguments K : Type 0} {c : Crypto Arguments} {s : Signer K} (laws : SignerLaws c s) where
  node_accepts :
      (key : K) (method node_id : String) (nonce : ℤ) (args : Arguments) (h rs : List ℕ) (v : ℕ)
      → c.node_pubkey node_id ≡ ok (s.public_key key)
      → node_hash c method node_id nonce args ≡ ok h
      → length rs ≡ 64
      → s.sign_hash h key ≡ ok (rs ++ (v ∷ []))
      → verify_node c (s.base64_encode (rs ++ (v ∷ []))) method node_id nonce args ≡ ok tt
  unfolding verify_node
  node_accepts key method node_id nonce args h rs v owner hashed long signed =
      let bytes = rs ++ (v ∷ []) in
      let cut =
        first_64-append rs v (decoded_len (s.base64_encode bytes)) long
          (laws.base64_room h bytes key signed) in
      rw
        (
          owner,
          laws.base64_decode-encode h bytes key signed,
          cut,
          hashed,
          laws.verifies h rs v key signed,
        )
        refl

  address_accepts :
      (key : K) (method address : String) (nonce : ℤ) (args : Arguments) (h rs : List ℕ) (v : ℕ)
      → same (map lower (codes (c.address_string (s.public_key key)))) (map lower (codes address))
        ≡ true
      → address_hash c method address nonce args ≡ ok h
      → length rs ≡ 64
      → v < 2
      → s.sign_hash h key ≡ ok (rs ++ (v ∷ []))
      → verify_address c (s.hex_encode (rs ++ (v ∷ []))) method address nonce args ≡ ok tt
  unfolding verify_address without_prefix
  address_accepts key method address nonce args h rs v owner hashed long small signed =
      let bytes = rs ++ (v ∷ []) in
      let whole : nat_eq (length bytes) 65 ≡ true = grind (arith, length-append rs (v ∷ [])) in
      rw
        (
          laws.hex_digits h bytes key signed,
          laws.hex_decode-encode h bytes key signed,
          whole,
          hashed,
          legacy_v-append rs v small,
          laws.recovers h bytes key signed,
          owner,
        )
        refl

  verify_node-sign :
      (key : K) (method node_id sig : String) (nonce : ℤ) (args : Arguments)
      → c.node_pubkey node_id ≡ ok (s.public_key key)
      → sign_node c s key method node_id nonce args ≡ ok sig
      → verify_node c sig method node_id nonce args ≡ ok tt
  unfolding sign_node
  verify_node-sign key method node_id sig nonce args owner done =
      elim (Result-cases (node_hash c method node_id nonce args)) [
        | inr (x, failed) ↦ ground (arith, failed)
        | inl (h, hashed) ↦ elim (Result-cases (s.sign_hash h key)) [
          | inr (x, failed) ↦ ground (arith, hashed, failed)
          | inl (bytes, signed) ↦
              let (rs, v, form, long, small) = laws.shape h bytes key signed in
              let written : s.base64_encode (rs ++ (v ∷ [])) ≡ sig =
                ground (arith, hashed, signed, form) in
              subst (λ t. verify_node c t method node_id nonce args ≡ ok tt) written
                (node_accepts key method node_id nonce args h rs v owner hashed long
                  (signed ∙ ap ok form))
        ]
      ]

  verify_address-sign :
      (key : K) (method address sig : String) (nonce : ℤ) (args : Arguments)
      → same (map lower (codes (c.address_string (s.public_key key)))) (map lower (codes address))
        ≡ true
      → sign_address c s key method address nonce args ≡ ok sig
      → verify_address c sig method address nonce args ≡ ok tt
  unfolding sign_address
  verify_address-sign key method address sig nonce args owner done =
      elim (Result-cases (address_hash c method address nonce args)) [
        | inr (x, failed) ↦ ground (arith, failed)
        | inl (h, hashed) ↦ elim (Result-cases (s.sign_hash h key)) [
          | inr (x, failed) ↦ ground (arith, hashed, failed)
          | inl (bytes, signed) ↦
              let (rs, v, form, long, small) = laws.shape h bytes key signed in
              let written : s.hex_encode (rs ++ (v ∷ [])) ≡ sig =
                ground (arith, hashed, signed, form) in
              subst (λ t. verify_address c t method address nonce args ≡ ok tt) written
                (address_accepts key method address nonce args h rs v owner hashed long small
                  (signed ∙ ap ok form))
        ]
      ]

  -- What `Sign` returns for a key is accepted by `Verify` under the name of that key, a wallet
  -- address or a node ID, for the same method, nonce and arguments, where signatures and
  -- encodings behave as documented.
  pub verify-sign :
      (key : K) (method pubkey sig : String) (nonce : ℤ) (args : Arguments)
      → IsKeyOf c s key pubkey
      → sign c s key method pubkey nonce args ≡ ok sig
      → verify c sig method pubkey nonce args ≡ ok tt
  unfolding verify sign
  verify-sign key method pubkey sig nonce args owner done =
      elim (Bool-cases (leb (len pubkey) 42)) [
        | inl short ↦ rw short (
            verify_address-sign key method pubkey sig nonce args
              (subst (λ b. KeyFits c s b key pubkey) short owner)
              (subst
                (λ b.
                  (if b
                    then sign_address c s key method pubkey nonce args
                    else sign_node c s key method pubkey nonce args)
                  ≡ ok sig)
                short done))
        | inr long ↦ rw long (
            verify_node-sign key method pubkey sig nonce args
              (subst (λ b. KeyFits c s b key pubkey) long owner)
              (subst
                (λ b.
                  (if b
                    then sign_address c s key method pubkey nonce args
                    else sign_node c s key method pubkey nonce args)
                  ≡ ok sig)
                long done))
      ]
