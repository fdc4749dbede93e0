-- ===== src/Request.antt =====
-- request/: signed requests. go-ethereum's cryptography, the JSON encoder and the decoders of the
-- standard library are parameters.
pub mod Signing
use Prim.Native.String.{len, slice}
use mathlib.Core.List.{map}
use text.Mathlib.Text.{starts_with}
use vipnode.Base.{
  ℕ, zero, suc, ◌-◌, ◌*◌, ◌/◌, String, Bool, ◌||◌, List, [], ◌∷◌, ◌++◌, leb, ltb, nat_eq,
  if◌then◌else◌, take, length, not,
}
use vipnode.Base.Exec.{Result, ok, err, bad_signature, external, panic}
use vipnode.Base.Fallible.{◌>>=◌}
use vipnode.Int.{ℤ}
use vipnode.Ethnode.{codes, lower, same}

-- What the package takes from elsewhere. Bytes are numbers below 256, and public keys and hashes are
-- lists of bytes; `arguments` is the type of the arguments of a request beside the key and the nonce.
pub record Crypto (Arguments : Type 0) : Type 0 where
  -- `json.Marshal` of the key, the nonce and the arguments as one array
  pub marshal : String → ℤ → Arguments → Result (List ℕ)
  -- `discv5.HexID` and `NodeID.Pubkey`
  pub node_pubkey : String → Result (List ℕ)
  -- `base64.StdEncoding.DecodeString`, `hex.DecodeString`
  pub base64_decode : String → Result (List ℕ)
  pub hex_decode : String → Result (List ℕ)
  pub keccak256 : List ℕ → List ℕ
  -- `crypto.VerifySignature` of a key, a hash and a signature
  pub verify_signature : List ℕ → List ℕ → List ℕ → Bool
  pub sig_to_pub : List ℕ → List ℕ → Result (List ℕ)
  -- `crypto.PubkeyToAddress` and `Address.String`
  pub address_string : List ℕ → String
  -- `fmt.Sprintf("%d", n)`
  pub decimal : ℕ → List ℕ

-- `enc.DecodedLen`, the bytes that the base64 decoder allocates.
unfoldable pub decoded_len : String → ℕ
decoded_len sig = len sig / 4 * 3

abbrev pub zeros : ℕ → List ℕ
zeros zero = []
zeros (suc n) = 0 ∷ zeros n

-- `sigbytes[:64]` slices within the capacity of the decoder's buffer, and panics beyond it; behind
-- the decoded bytes the buffer is zero.
unfoldable pub first_64 : ℕ → List ℕ → Result (List ℕ)
first_64 capacity bytes =
    if ltb capacity 64
    then err (panic "slice bounds out of range")
    else ok (take 64 (bytes ++ zeros (64 - length bytes)))

-- The text behind a leading "0x".
unfoldable pub without_prefix : String → String
without_prefix sig = if starts_with sig "0x" then slice sig 2 (len sig) else sig

-- The last of the 65 bytes is 0 or 1, or 27 or 28 in the older form.
unfoldable pub legacy_v : List ℕ → List ℕ
legacy_v [] = []
legacy_v (v ∷ []) = (if nat_eq v 27 || nat_eq v 28 then v - 27 else v) ∷ []
legacy_v (b ∷ c ∷ rest) = b ∷ legacy_v (c ∷ rest)

-- `fmt.Errorf` with an error inside; a panic is not caught.
abbrev pub with_context {ℓ} : {A : Type ℓ} → String → Result A → Result A
with_context text (ok a) = ok a
with_context text (err (panic p)) = err (panic p)
with_context text (err e) = err (external text)

module _ {Arguments : Type 0} (c : Crypto Arguments) where
  -- `assemble`: the method, and behind it the JSON array.
  unfoldable pub assemble : String → String → ℤ → Arguments → Result (List ℕ)
  assemble method key nonce args = do out ← c.marshal key nonce args; ok (codes method ++ out)

  -- `NodeRequest.hash`
  unfoldable pub node_hash : String → String → ℤ → Arguments → Result (List ℕ)
  node_hash method key nonce args = do req ← assemble method key nonce args; ok (c.keccak256 req)

  -- `AddressRequest.hash`
  unfoldable pub address_hash : String → String → ℤ → Arguments → Result (List ℕ)
  address_hash method key nonce args = do
    req ← assemble method key nonce args
    ok (
        c.keccak256
          ((0x19 ∷ codes "Ethereum Signed Message:") ++ (0xa ∷ c.decimal (length req)) ++ req))

  -- `NodeRequest.Verify`
  unfoldable pub verify_node : String → String → String → ℤ → Arguments → Result (Unit {0})
  unfolding first_64
  verify_node sig method node_id nonce args = do
    pubkey ← c.node_pubkey node_id
    sigbytes ← c.base64_decode sig
    short ← first_64 (decoded_len sig) sigbytes
    hashed ← node_hash method node_id nonce args
    if c.verify_signature pubkey hashed short then ok tt else err bad_signature

  -- `AddressRequest.Verify`
  unfoldable pub verify_address : String → String → String → ℤ → Arguments → Result (Unit {0})
  unfolding without_prefix legacy_v
  verify_address sig method address nonce args = do
    sigbytes ← with_context "failed to decode sig" (c.hex_decode (without_prefix sig))
    if not (nat_eq (length sigbytes) 65) then err (external "signature wrong length") else do
      hashed ← with_context "failed to hash request" (address_hash method address nonce args)
      pubkey ← c.sig_to_pub hashed (legacy_v sigbytes)
      if same (map lower (codes (c.address_string pubkey))) (map lower (codes address))
          then ok tt
          else err bad_signature

  -- `Verify`: a short key is a wallet address.
  unfoldable pub verify : String → String → String → ℤ → Arguments → Result (Unit {0})
  verify sig method pubkey nonce args =
      if leb (len pubkey) 42
      then verify_address sig method pubkey nonce args
      else verify_node sig method pubkey nonce args
