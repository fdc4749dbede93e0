-- ===== src/Tests/Signatures.antt =====
-- A signer whose only signature is 65 zeros, and a pool that is asked with it.
use vipnode.Base.{String, ◌≡◌, refl, subst, length, ◌≤◌, [], arith}
use vipnode.Base.Exec.{ok}
use vipnode.Int.{◌-ℤ◌}
use vipnode.Dict.{get}
use vipnode.Request
use vipnode.Request.{Crypto, zeros, decoded_len, node_hash, assemble}
use vipnode.Request.Signing.{Signer, SignerLaws, sign, sign_node}
use vipnode.Request.Signing.Accepted.{verify-sign}
use vipnode.Pool.State.{Arguments, Outside, no_args}
use vipnode.Pool.Sessions.{verify}
use vipnode.Pool.Peering.Memory.{at_memory}
use vipnode.Pool.Remote.{RemotePool, SignedCall, signed_call, signed_call-accepted}
use vipnode.Tests.Fixtures.{now}
use vipnode.Tests.Pools.{crypto, outside, setup, pool}

abbrev key_text : String
key_text =
    "00000000000000000000000000000000000000000000000000000000000000000000000000000000000000000000"

abbrev zero_crypto : Crypto Arguments
zero_crypto = record crypto { base64_decode = λ s. ok (zeros 65); hex_decode = λ s. ok (zeros 65) }

abbrev signer : Signer (Unit {0})
signer = record {
  sign_hash = λ h key. ok (zeros 65);
  public_key = λ key. [];
  base64_encode = λ b. key_text;
  hex_encode = λ b. "00";
}

signer_laws : SignerLaws zero_crypto signer
unfolding decoded_len
signer_laws = record {
  shape = λ h sig key e. (zeros 64, 0, cc, refl, omega arith);
  verifies = λ h rs v key e. refl;
  recovers = λ h sig key e. refl;
  base64_decode-encode = λ h sig key e. e;
  base64_room = λ h sig key e.
      let same : zeros 65 ≡ sig = cc in
      subst (λ l. length l ≤ decoded_len key_text) same (omega arith);
  hex_decode-encode = λ h sig key e. e;
  hex_digits = λ h sig key e. refl;
}

signed : sign zero_crypto signer tt "vipnode_update" key_text now no_args ≡ ok key_text
unfolding sign sign_node node_hash assemble
signed = refl

verify-sign_example :
    Request.verify zero_crypto key_text "vipnode_update" key_text now no_args ≡ ok tt
verify-sign_example =
    verify-sign signer_laws tt "vipnode_update" key_text key_text now no_args refl signed

abbrev remote : RemotePool (Unit {0})
remote = record { signer = signer; privkey = tt; node_id = key_text }

abbrev zero_outside : Outside
zero_outside = record outside { crypto = zero_crypto }

abbrev sent : SignedCall
sent = record {
  method = "vipnode_disconnect";
  sig = key_text;
  node_id = key_text;
  nonce = now;
  args = no_args;
}

made : signed_call remote zero_crypto now "vipnode_disconnect" no_args ≡ ok sent
unfolding signed_call sign_node node_hash assemble
made = refl

signed_call-accepted_example :
    (verify
      (at_memory setup)
      zero_outside
      now
      key_text
      "vipnode_disconnect"
      key_text
      now
      no_args
      pool).0
    ≡ ok tt
unfolding get ◌-ℤ◌
signed_call-accepted_example =
    signed_call-accepted remote setup zero_outside signer_laws refl refl now now
      "vipnode_disconnect" no_args sent pool made (omega arith) (omega arith)
