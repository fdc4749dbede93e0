-- ===== src/Pool/Replay.antt =====
-- Signed requests cannot be replayed: `verify` of pool/service.go over the in-memory store.
use vipnode.Base.{String, ◌≡◌, List, [], ◌∷◌, arith, inl, inr, ap, ◌∙◌}
use vipnode.Base.Exec.{ok, err, Error, invalid_nonce, Result-cases}
use vipnode.Int.{ℤ, pos_part, neg_part, ◌≤ℤ◌}
use vipnode.Clock.{Time}
use vipnode.Request
use vipnode.Memory.State.{MemoryStore}
use vipnode.Memory.Nonces.{
  check_and_save_nonce, last_nonce, last_nonce_grows, accepted-saves, old-refused,
}
use vipnode.Memory.Balances.{add_node_balance, add_account_balance, add_account_node}
use vipnode.Memory.Nodes.{set_node, remove_node}
use vipnode.Memory.Peers.{update_node_peers}
use vipnode.Memory.Valid.{Op, apply, run}
use vipnode.Pool.State.{Setup, Outside, Pool, Arguments, verify_error}
use vipnode.Pool.Sessions.{verify}
use vipnode.Pool.Peering.Memory.{at_memory}

apply-last_nonce :
    (op : Op) (id : String) (s : MemoryStore) → last_nonce id s ≤ℤ last_nonce id (apply op s)
unfolding apply add_node_balance add_account_balance add_account_node set_node remove_node
    update_node_peers
apply-last_nonce (Op.save_nonce now j nonce) id s = last_nonce_grows now j id nonce s
apply-last_nonce (Op.credit_node j credit) id s = ground arith
apply-last_nonce _ id s = ground arith

run-last_nonce :
    (ops : List Op) (id : String) (s : MemoryStore) → last_nonce id s ≤ℤ last_nonce id (run ops s)
unfolding run
run-last_nonce [] id s = omega arith
run-last_nonce (op ∷ ops) id s =
    omega (arith, apply-last_nonce op id s, run-last_nonce ops id (apply op s))

module _ (setup : Setup MemoryStore) (out : Outside) where
  -- A request that passes has a valid signature and a fresh nonce, which is saved.
  verify-ok :
      (now : Time) (sig method id : String) (nonce : ℤ) (args : Arguments) (p : Pool MemoryStore)
      → (verify (at_memory setup) out now sig method id nonce args p).0 ≡ ok tt
      → (Request.verify out.crypto sig method id nonce args ≡ ok tt)
        × ((check_and_save_nonce now id nonce p.stored).0 ≡ ok tt)
        × ((verify (at_memory setup) out now sig method id nonce args p).1
            ≡ record p { stored = (check_and_save_nonce now id nonce p.stored).1 })
  unfolding verify
  verify-ok now sig method id nonce args p h = ground arith

  -- Over the in-memory store, a request passes exactly if its signature does and its nonce is fresh;
  -- then the nonce is saved and nothing else changes. If the signature fails nothing is saved, and
  -- the error is that of the signature.
  pub verify_lem :
      (now : Time) (sig method id : String) (nonce : ℤ) (args : Arguments) (p : Pool MemoryStore)
      → let r = verify (at_memory setup) out now sig method id nonce args p in
        let signed = Request.verify out.crypto sig method id nonce args in
        let saved = check_and_save_nonce now id nonce p.stored in
        (r.0 ≡ ok tt → (signed ≡ ok tt) × (saved.0 ≡ ok tt) × (r.1 ≡ record p { stored = saved.1 }))
        × (signed ≡ ok tt → saved.0 ≡ ok tt → r.0 ≡ ok tt)
        × ((e : Error) → signed ≡ err e → r ≡ (err (verify_error method e), p))
  unfolding verify
  verify_lem now sig method id nonce args p = (
    verify-ok now sig method id nonce args p,
    (λ signed fresh. ground (arith, signed, fresh)),
    (λ e bad. ground (arith, bad)),
  )

  -- A request whose nonce is not above the last one saved for its node is refused, whatever its
  -- signature, and nothing changes.
  verify-old :
      (now : Time) (sig method id : String) (nonce : ℤ) (args : Arguments) (p : Pool MemoryStore)
      → nonce ≤ℤ last_nonce id p.stored
      → (e : Error) × (verify (at_memory setup) out now sig method id nonce args p ≡ (err e, p))
  unfolding verify
  verify-old now sig method id nonce args p old =
      elim (Result-cases (Request.verify out.crypto sig method id nonce args)) [
        | inl (a, e) ↦ (
          verify_error method invalid_nonce,
          rw (e, verify) (ground (arith, old-refused now id nonce p.stored old)),
        )
        | inr (x, e) ↦ (verify_error method x, ground (arith, e))
      ]

  -- Over the in-memory store, a signed request that has been accepted is refused ever after, under any signature, method and
  -- arguments, and so is any with a smaller nonce from its node: after whatever calls of the store
  -- in between, the refusal changes nothing.
  pub accepted_request_once :
      (now later : Time) (sig sig' method method' id : String) (nonce replay : ℤ)
      (args args' : Arguments) (p p' : Pool MemoryStore) (ops : List Op)
      → (verify (at_memory setup) out now sig method id nonce args p).0 ≡ ok tt
      → replay ≤ℤ nonce
      → p'.stored ≡ run ops (verify (at_memory setup) out now sig method id nonce args p).1.stored
      → (e : Error) × (verify (at_memory setup) out later sig' method' id replay args' p'
          ≡ (err e, p'))
  accepted_request_once now later sig sig' method method' id nonce replay args args' p p' ops h old
        e =
      let (signed, fresh, saved) = verify-ok now sig method id nonce args p h in
      let s = (check_and_save_nonce now id nonce p.stored).1 in
      let after : p'.stored ≡ run ops s =
        e ∙ ap (λ (q : Pool MemoryStore). run ops q.stored) saved in
      let last = accepted-saves now id nonce p.stored fresh in
      verify-old later sig' method' id replay args' p'
        (rw after (omega (arith, run-last_nonce ops id s, ap pos_part last, ap neg_part last)))
