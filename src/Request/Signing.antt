-- ===== src/Request/Signing.antt =====
-- request/: `Sign` of a request. The signature and the encodings are those of go-ethereum and the
-- standard library, as parameters.
pub mod Accepted
use text.Mathlib.Text.{starts_with}
use vipnode.Base.{
  ℕ, zero, suc, ◌-◌, ◌<◌, ◌≤◌, String, ◌≡◌, refl, ap, subst, ◌∙◌, Bool, true, false, List, [], ◌∷◌,
  ◌++◌, map, leb, ltb, length, length-append, take, if◌then◌else◌, arith, Bool-cases, inl, inr,
  nat_eq,
}
use vipnode.Base.Exec.{Result, ok, Result-cases}
use vipnode.Base.Fallible.{◌>>=◌}
use vipnode.Int.{ℤ}
use vipnode.Ethnode.{codes, lower, same}
use vipnode.Request.{
  Crypto, node_hash, address_hash, verify, verify_node, verify_address, decoded_len, first_64,
  legacy_v, zeros, without_prefix,
}
use Prim.Native.String.{len}

-- `crypto.Sign` of a hash, by a key of type `K`, and the encoders of signatures.
pub record Signer (K : Type 0) : Type 0 where
  pub sign_hash : List ℕ → K → Result (List ℕ)
  pub public_key : K → List ℕ
  pub base64_encode : List ℕ → String
  pub hex_encode : List ℕ → String

-- What they document: a signature is 64 bytes and a 0 or a 1, it verifies with the public key, and the
-- public key is found from it; its encodings are decoded, and hex digits have no x.
pub record SignerLaws {Arguments K : Type 0} (c : Crypto Arguments) (s : Signer K) : Type 0 where
  pub shape :
      (h sig : List ℕ) (key : K)
      → s.sign_hash h key ≡ ok sig
      → (rs : List ℕ) × (v : ℕ) × (sig ≡ rs ++ (v ∷ [])) × (length rs ≡ 64) × (v < 2)
  pub verifies :
      (h rs : List ℕ) (v : ℕ) (key : K)
      → s.sign_hash h key ≡ ok (rs ++ (v ∷ []))
      → c.verify_signature (s.public_key key) h rs ≡ true
  pub recovers :
      (h sig : List ℕ) (key : K)
      → s.sign_hash h key ≡ ok sig
      → c.sig_to_pub h sig ≡ ok (s.public_key key)
  pub base64_decode-encode :
      (h sig : List ℕ) (key : K)
      → s.sign_hash h key ≡ ok sig
      → c.base64_decode (s.base64_encode sig) ≡ ok sig
  pub base64_room :
      (h sig : List ℕ) (key : K)
      → s.sign_hash h key ≡ ok sig
      → length sig ≤ decoded_len (s.base64_encode sig)
  pub hex_decode-encode :
      (h sig : List ℕ) (key : K)
      → s.sign_hash h key ≡ ok sig
      → c.hex_decode (s.hex_encode sig) ≡ ok sig
  pub hex_digits :
      (h sig : List ℕ) (key : K)
      → s.sign_hash h key ≡ ok sig
      → starts_with (s.hex_encode sig) "0x" ≡ false

module _ {Arguments K : Type 0} (c : Crypto Arguments) (s : Signer K) where
  -- `NodeRequest.Sign`
  unfoldable pub sign_node : K → String → String → ℤ → Arguments → Result String
  sign_node key method node_id nonce args = do
    hashed ← node_hash c method node_id nonce args
    sigbytes ← s.sign_hash hashed key
    ok (s.base64_encode sigbytes)

  -- `AddressRequest.Sign`
  unfoldable pub sign_address : K → String → String → ℤ → Arguments → Result String
  sign_address key method address nonce args = do
    hashed ← address_hash c method address nonce args
    sigbytes ← s.sign_hash hashed key
    ok (s.hex_encode sigbytes)

  -- `Sign`
  unfoldable pub sign : K → String → String → ℤ → Arguments → Result String
  sign key method pubkey nonce args =
      if leb (len pubkey) 42
      then sign_address key method pubkey nonce args
      else sign_node key method pubkey nonce args

  abbrev KeyFits : Bool → K → String → Type 0
  KeyFits true key address =
      same (map lower (codes (c.address_string (s.public_key key)))) (map lower (codes address))
      ≡ true
  KeyFits false key node_id = c.node_pubkey node_id ≡ ok (s.public_key key)

  -- A key is that of the address of a wallet, or of a node ID.
  abbrev pub IsKeyOf : K → String → Type 0
  IsKeyOf key pubkey = KeyFits (leb (len pubkey) 42) key pubkey
