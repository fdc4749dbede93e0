-- ===== src/Pool/Remote.antt =====
-- pool/remote.go: `RemotePool`, which signs what an agent asks of a pool. The connection is a parameter.
use Prim.Native.String.{len}
use vipnode.Base.{String, ◌≡◌, refl, subst, false, List, arith, inl, inr, leb}
use vipnode.Base.Exec.{Exec, Result, ok, err, lift, ◌>>=◌, Result-cases}
use vipnode.Int.{ℤ, pos, ◌-ℤ◌, ◌<ℤ◌}
use vipnode.Clock.{Time}
use vipnode.Store.{Node, expire_nonce}
use vipnode.Request
use vipnode.Request.Signing.{Signer, SignerLaws, IsKeyOf, sign, sign_node}
use vipnode.Request.Signing.Accepted.{verify-sign}
use vipnode.Memory.State.{MemoryStore}
use vipnode.Memory.Nonces.{last_nonce, check_and_save_nonce}
use vipnode.Pool.Peering.Memory.{at_memory}
use vipnode.Pool.Replay.{verify_lem}
use vipnode.Pool.State.{
  Setup, Outside, Pool, Arguments, ConnectRequest, ConnectResponse, HostRequest, ClientRequest,
  ClientResponse, UpdateRequest, UpdateResponse, connect_args, host_args, client_args, update_args,
  peer_args, no_args,
}
use vipnode.Pool.Sessions.{verify}

-- A call as it is sent: the method and the arguments, of which the signature is the first.
pub record SignedCall : Type 0 where
  pub method : String
  pub sig : String
  pub node_id : String
  pub nonce : ℤ
  pub args : Arguments

-- `RemotePool`, over a connection `W` and keys `K`.
pub record RemotePool (K : Type 0) : Type 0 where
  pub signer : Signer K
  pub privkey : K
  pub node_id : String

-- `client.Call`, by the type of its result.
pub record Connection (W : Type 0) : Type 0 where
  pub call_host : SignedCall → Exec W String
  pub call_client : SignedCall → Exec W ClientResponse
  pub call_connect : SignedCall → Exec W ConnectResponse
  pub call_peer : SignedCall → Exec W (List Node)
  pub call_update : SignedCall → Exec W UpdateResponse
  pub call_any : SignedCall → Exec W (Unit {0})

module _ {K : Type 0} (p : RemotePool K) (crypto : Request.Crypto Arguments) where
  -- `SignedArgs` of a request whose nonce is the clock, in nanoseconds (`getNonce`).
  unfoldable pub signed_call : Time → String → Arguments → Result SignedCall
  signed_call now method args =
      elim (sign_node crypto p.signer p.privkey method p.node_id now args) [
        | err x ↦ err x
        | ok sig ↦
            ok
              (record { method = method; sig = sig; node_id = p.node_id; nonce = now; args = args })
      ]

  -- The steps that the methods share: sign, then call.
  abbrev pub remote_call :
      {W A : Type 0} → (SignedCall → Exec W A) → Time → String → Arguments → Exec W A
  remote_call call now method args = lift (signed_call now method args) >>= call

  module _ {W : Type 0} (conn : Connection W) where
    unfoldable pub remote_host_call : Time → HostRequest → Exec W String
    unfolding signed_call
    remote_host_call now req = remote_call conn.call_host now "vipnode_host" (host_args req)

    unfoldable pub remote_client : Time → ClientRequest → Exec W ClientResponse
    unfolding signed_call
    remote_client now req = remote_call conn.call_client now "vipnode_client" (client_args req)

    unfoldable pub remote_connect : Time → ConnectRequest → Exec W ConnectResponse
    unfolding signed_call
    remote_connect now req = remote_call conn.call_connect now "vipnode_connect" (connect_args req)

    unfoldable pub remote_peer : Time → ℤ → String → Exec W (List Node)
    unfolding signed_call
    remote_peer now num kind = remote_call conn.call_peer now "vipnode_peer" (peer_args num kind)

    unfoldable pub remote_disconnect : Time → Exec W (Unit {0})
    unfolding signed_call
    remote_disconnect now = remote_call conn.call_any now "vipnode_disconnect" no_args

    unfoldable pub remote_update : Time → UpdateRequest → Exec W UpdateResponse
    unfolding signed_call
    remote_update now req = remote_call conn.call_update now "vipnode_update" (update_args req)

    unfoldable pub remote_withdraw : Time → Exec W (Unit {0})
    unfolding signed_call
    remote_withdraw now = remote_call conn.call_any now "vipnode_withdraw" no_args

saves :
    (now : Time) (id : String) (nonce : ℤ) (s : MemoryStore)
    → last_nonce id s <ℤ nonce
    → now -ℤ pos expire_nonce <ℤ nonce
    → (check_and_save_nonce now id nonce s).0 ≡ ok tt
unfolding check_and_save_nonce
saves now id nonce s above recent = ground arith

module _ {K : Type 0} (p : RemotePool K) (setup : Setup MemoryStore) (out : Outside)
    (laws : SignerLaws out.crypto p.signer)
    (owner : IsKeyOf out.crypto p.signer p.privkey p.node_id)
    (long : leb (len p.node_id) 42 ≡ false) where
  signs :
      (method : String) (sent : Time) (args : Arguments) (sig : String)
      → sign_node out.crypto p.signer p.privkey method p.node_id sent args ≡ ok sig
      → sign out.crypto p.signer p.privkey method p.node_id sent args ≡ ok sig
  unfolding sign
  signs method sent args sig signed = rw long signed

  signed_call-verify :
      (sent : Time) (method : String) (args : Arguments) (r : SignedCall)
      → signed_call p out.crypto sent method args ≡ ok r
      → (Request.verify out.crypto r.sig r.method r.node_id r.nonce r.args ≡ ok tt)
        × (r.node_id ≡ p.node_id)
        × (r.nonce ≡ sent)
  unfolding signed_call
  signed_call-verify sent method args r made =
      elim (Result-cases (sign_node out.crypto p.signer p.privkey method p.node_id sent args)) [
        | inr (x, failed) ↦ ground (arith, failed)
        | inl (sig, signed) ↦
            let call : SignedCall = record {
              method = method;
              sig = sig;
              node_id = p.node_id;
              nonce = sent;
              args = args;
            } in
            let sent_call : signed_call p out.crypto sent method args ≡ ok call =
              rw (signed, signed_call) refl in
            let same : call ≡ r = cc in
            subst Verified same (
              verify-sign laws p.privkey method p.node_id sig sent args owner
                  (signs method sent args sig signed),
              refl,
              refl,
            )
      ]
    where
      Verified : SignedCall → Type 0
      Verified q =
          (Request.verify out.crypto q.sig q.method q.node_id q.nonce q.args ≡ ok tt)
          × (q.node_id ≡ p.node_id)
          × (q.nonce ≡ sent)

  -- What a `RemotePool` sends with the key of its node ID, which is longer than an address,
  -- passes the verification of the pool over the in-memory store, if its clock is above the last
  -- nonce of the node and less than 15 minutes behind that of the pool. Signatures and encodings
  -- behave as documented.
  pub signed_call-accepted :
      (sent received : Time) (method : String) (args : Arguments) (r : SignedCall)
      (pool : Pool MemoryStore)
      → signed_call p out.crypto sent method args ≡ ok r
      → last_nonce p.node_id pool.stored <ℤ sent
      → received -ℤ pos expire_nonce <ℤ sent
      → (verify (at_memory setup) out received r.sig r.method r.node_id r.nonce r.args pool).0
        ≡ ok tt
  signed_call-accepted sent received method args r pool made above recent =
      let (signed, id_e, nonce_e) = signed_call-verify sent method args r made in
      let (passes, signed_passes, fails) =
        verify_lem setup out received r.sig r.method r.node_id r.nonce r.args pool in
      signed_passes signed
        (rw (id_e, nonce_e) (saves received p.node_id sent pool.stored above recent))
