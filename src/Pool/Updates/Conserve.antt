-- ===== src/Pool/Updates/Conserve.antt =====
-- Keep-alives and credit: `Update` of pool/service.go over the in-memory store, with the manager that
-- charges per interval.
use vipnode.Base.{
  ℕ, String, ◌≡◌, refl, true, false, Option, none, some, List, [], ◌∷◌, ap, sym, subst,
  option_keeps, ◌∙◌,
}
use vipnode.Base.Exec.{Exec, Result, ok, err, low_balance, result_keeps}
use vipnode.Base.Triple.{Triple, Triple-bind, Triple-pure, Triple-lift, Triple-given}
use vipnode.Int.{ℤ, pos, ◌+ℤ◌, int_laws}
use vipnode.Dict.{Dict, get, get_self}
use vipnode.Clock.{Time}
use vipnode.Store.{Node, Balance}
use vipnode.Memory.State.{MemNode, MemoryStore, IsValid, total_credit}
use vipnode.Memory.Nonces.{check_and_save_nonce}
use vipnode.Memory.Nodes.{get_node}
use vipnode.Memory.Peers.{peer_nodes, node_peers, update_node_peers}
use vipnode.Memory.Valid.{Op, apply, apply-IsValid, apply-total}
use vipnode.Memory.Driver.{memory_driver, memory_credit, known}
use vipnode.Balance.{PayPerInterval, pay_per_interval, on_update}
use vipnode.Balance.Charge.{AllRegistered, on_update-total}
use vipnode.Request
use vipnode.Ethnode.{peer_ids}
use vipnode.Pool.State.{
  Setup, Outside, Pool, Arguments, update_args, old_update_args, UpdateRequest, UpdateResponse,
  on_store,
}
use vipnode.Pool.Sessions.{verify}
use vipnode.Pool.Updates.{verify_update, latest_block, settle_update, end_update, update}

abbrev pub charging : Setup MemoryStore → PayPerInterval → Setup MemoryStore
charging setup b = record setup {
  store = memory_driver;
  manager = pay_per_interval memory_driver b;
}

-- The store is valid and holds this credit.
abbrev pub Holds : ℤ → MemoryStore → Type 0
Holds t s = IsValid s × (total_credit s ≡ t)

no_grant : (a b : ℤ) → a ≡ b +ℤ pos 0 → a ≡ b
no_grant a b e = grind int_laws

save_nonce-Holds :
    (t : ℤ) (now : Time) (id : String) (nonce : ℤ) (s : MemoryStore)
    → Holds t s
    → Holds t (check_and_save_nonce now id nonce s).1
unfolding apply
save_nonce-Holds t now id nonce s (v, e) = (
  apply-IsValid (Op.save_nonce now id nonce) s v,
  no_grant _ _ (apply-total (Op.save_nonce now id nonce) s v) ∙ e,
)

report-Holds :
    (t : ℤ) (now : Time) (id : String) (peers : List String) (block : ℕ) (s : MemoryStore)
    → Holds t s
    → Holds t (update_node_peers now id peers block s).1
unfolding apply
report-Holds t now id peers block s (v, e) = (
  apply-IsValid (Op.report_peers now id peers block) s v,
  no_grant _ _ (apply-total (Op.report_peers now id peers block) s v) ∙ e,
)

some_known :
    {o : Option MemNode} {n : MemNode}
    → o ≡ some n
    → (elim o [ none ↦ false | some _ ↦ true ]) ≡ true
some_known e = ap (λ o. elim o [ none ↦ false | some _ ↦ true ]) e

known-report :
    (now : Time) (id : String) (peers : List String) (block : ℕ) (s : MemoryStore)
    → known id s ≡ true
    → known id (update_node_peers now id peers block s).1 ≡ true
unfolding update_node_peers
known-report now id peers block s h =
    option_keeps (λ (r : Result (List String) × MemoryStore). known id r.1 ≡ true) (get id s.nodes)
      _ _ (λ e. h) (λ n e. some_known (get_self id _ s.nodes))

known_self :
    (s : MemoryStore) (id : String) (n : MemNode)
    → IsValid s
    → get id s.nodes ≡ some n
    → known n.node.id s ≡ true
known_self s id n v e = some_known (ap (λ j. get j s.nodes) (v.self id n e) ∙ e)

-- The peers that the store lists are registered.
peer_nodes-registered :
    (s : MemoryStore) (peers : Dict Time)
    → IsValid s
    → AllRegistered memory_driver memory_credit (peer_nodes s.nodes peers) s
unfolding peer_nodes
peer_nodes-registered s [] v = tt
peer_nodes-registered s ((p, seen) ∷ peers) v =
    option_keeps (λ l. AllRegistered memory_driver memory_credit l s) (get p s.nodes) _ _
      (λ e. peer_nodes-registered s peers v)
      (λ n e. (known_self s p n v e, peer_nodes-registered s peers v))

-- The states of a keep-alive: credit is held, and the node is registered.
abbrev Keeps : ℤ → Pool MemoryStore → Type 0
Keeps t p = Holds t p.stored

abbrev Registered : ℤ → String → MemoryStore → Type 0
Registered t id s = Holds t s × (known id s ≡ true)

abbrev Known : ℤ → String → Pool MemoryStore → Type 0
Known t id p = Registered t id p.stored

-- A call of the store, by what it leaves.
stored :
    {A : Type 0} {P : MemoryStore → Type 0} {Q : A → MemoryStore → Type 0} (m : Exec MemoryStore A)
    → Triple P m Q
    → Triple (λ (p : Pool MemoryStore). P p.stored) (on_store m) (λ a p. Q a p.stored)
stored m h = record { at = λ p a k e. h.at p.stored a k e }

abbrev id_of : Result Node → String
id_of (ok n) = n.id
id_of (err e) = ""

get_node-Known :
    (t : ℤ) (id : String) → Triple (Holds t) (get_node id) (λ n s. (n.id ≡ id) × Registered t id s)
unfolding get_node
get_node-Known t id = record {
  at = λ s n (v, held) h.
      option_keeps
        (λ (r : Result Node × MemoryStore). r.0 ≡ ok n → (n.id ≡ id) × Registered t id r.1)
        (get id s.nodes) _ _ (λ e bad. cc)
        (λ m e good. (ap id_of (sym good) ∙ v.self id m e, ((v, held), some_known e))) h;
}

report-Known :
    (t : ℤ) (now : Time) (id : String) (peers : List String) (block : ℕ)
    → Triple
        (λ s. Registered t id s)
        (update_node_peers now id peers block)
        (λ gone s. Registered t id s)
report-Known t now id peers block = record {
  at = λ s gone (held, is_known) h.
      (report-Holds t now id peers block s held, known-report now id peers block s is_known);
}

node_peers-Known :
    (t : ℤ) (id : String)
    → Triple
        (λ s. Registered t id s)
        (node_peers id)
        (λ peers s. Registered t id s × AllRegistered memory_driver memory_credit peers s)
unfolding node_peers
node_peers-Known t id = record {
  at = λ s peers (held, is_known) h.
      option_keeps
        (λ (r : Result (List Node) × MemoryStore).
          r.0 ≡ ok peers
          → Registered t id r.1 × AllRegistered memory_driver memory_credit peers r.1)
        (get id s.nodes) _ _ (λ e bad. cc)
        (λ m e good.
          let same : peer_nodes s.nodes m.peers ≡ peers = cc in
          (
            (held, is_known),
            subst (λ l. AllRegistered memory_driver memory_credit l s) same
                (peer_nodes-registered s m.peers held.0),
          ))
        h;
}

module _ (setup : Setup MemoryStore) (out : Outside) (b : PayPerInterval) where
  verify-Keeps :
      (t : ℤ) (now : Time) (sig method id : String) (nonce : ℤ) (args : Arguments)
      (p : Pool MemoryStore)
      → Keeps t p
      → Keeps t (verify (charging setup b) out now sig method id nonce args p).1
  unfolding verify
  verify-Keeps t now sig method id nonce args p h =
      result_keeps (λ (r : Result (Unit {0}) × Pool MemoryStore). Keeps t r.1)
        (Request.verify out.crypto sig method id nonce args) _ _
        (λ _ e. save_nonce-Holds t now id nonce p.stored h) (λ x e. h)

  verify_update-Keeps :
      (t : ℤ) (now : Time) (sig id : String) (nonce : ℤ) (req : UpdateRequest)
      → Triple (Keeps t) (verify_update (charging setup b) out now sig id nonce req) (λ _. Keeps t)
  unfolding verify_update
  verify_update-Keeps t now sig id nonce req = record {
    at = λ p _ h done.
        let first = verify-Keeps t now sig "vipnode_update" id nonce (update_args req) p h in
        let p' =
          (verify (charging setup b) out now sig "vipnode_update" id nonce (update_args req) p).1 in
        let old = old_update_args (record { peers = req.peers; block_number = req.block_number }) in
        let second = verify-Keeps t now sig "vipnode_update" id nonce old p' first in
        result_keeps P
          (verify (charging setup b) out now sig "vipnode_update" id nonce (update_args req) p).0 _
          _ (λ _ e. first)
          (λ x e.
            result_keeps P
              (verify (charging setup b) out now sig "vipnode_update" id nonce old p').0 _ _
              (λ _ e. second) (λ x e. second));
  }
    where
      P : Result (Unit {0}) × Pool MemoryStore → Type 0
      P r = Keeps t r.1

  end_update-ok :
      (id : String) (active : List Node) (r : Result Balance) (p : Pool MemoryStore)
      (balance : Balance)
      → (end_update (charging setup b) out id active r p).0 ≡ ok balance
      → (r ≡ ok balance) × ((end_update (charging setup b) out id active r p).1 ≡ p)
  unfolding end_update
  end_update-ok id active (ok x) p balance h = (h, refl)
  end_update-ok id active (err (low_balance c m)) p balance h = cc
  end_update-ok id active (err x) p balance h = cc

  settle_update-Keeps :
      (t : ℤ) (now : Time) (id : String) (before : Node) (active : List Node)
      → before.id ≡ id
      → Triple
          (λ (p : Pool MemoryStore).
            Known t id p × AllRegistered memory_driver memory_credit active p.stored)
          (settle_update (charging setup b) out now id before active)
          (λ _ p. total_credit p.stored ≡ t)
  unfolding settle_update pay_per_interval
  settle_update-Keeps t now id before active same = record {
    at = λ p balance ((held, is_known), all) h.
        let (r, s') = on_update memory_driver b now before active p.stored in
        let (good, kept) = end_update-ok id active r (record p { stored = s' }) balance h in
        ap (λ (q : Pool MemoryStore). total_credit q.stored) kept
        ∙ (on_update-total memory_driver memory_credit b now before active p.stored balance
              (ap (λ j. known j p.stored) same ∙ is_known) all good
            ∙ held.1);
  }

  update-Keeps :
      (t : ℤ) (now : Time) (sig id : String) (nonce : ℤ) (req : UpdateRequest)
      → Triple
          (Keeps t)
          (update (charging setup b) out now sig id nonce req)
          (λ _ p. total_credit p.stored ≡ t)
  unfolding update
  update-Keeps t now sig id nonce req =
      Triple-bind (λ _. Keeps t) _ _ (verify_update-Keeps t now sig id nonce req)
        λ _.
          Triple-bind (λ (n : Node) p. (n.id ≡ id) × Known t id p) _ _
            (stored (get_node id) (get_node-Known t id))
            λ before. Triple-given λ same.
              Triple-bind (λ _. Known t id) _ _
                (stored (update_node_peers now id (peer_ids req.peer_info) req.block_number)
                  (report-Known t now id (peer_ids req.peer_info) req.block_number))
                λ gone.
                  Triple-bind
                    (λ active p.
                      Known t id p × AllRegistered memory_driver memory_credit active p.stored)
                    _ _ (stored (node_peers id) (node_peers-Known t id))
                    λ active.
                      Triple-bind
                        (λ _ p.
                          Known t id p × AllRegistered memory_driver memory_credit active p.stored)
                        _ _ (Triple-lift (latest_block (charging setup b) out))
                        λ latest.
                          Triple-bind (λ _ p. total_credit p.stored ≡ t) _ _
                            (settle_update-Keeps t now id before active same)
                            λ balance. Triple-pure _ λ p k. k

  -- Over a valid in-memory store, with the manager that charges per interval, a keep-alive that
  -- succeeds leaves the credit of the whole store as it was: what the hosts are credited the client
  -- pays.
  pub update-total :
      (now : Time) (sig id : String) (nonce : ℤ) (req : UpdateRequest) (p : Pool MemoryStore)
      (response : UpdateResponse)
      → IsValid p.stored
      → (update (charging setup b) out now sig id nonce req p).0 ≡ ok response
      → total_credit (update (charging setup b) out now sig id nonce req p).1.stored
        ≡ total_credit p.stored
  update-total now sig id nonce req p response v h =
      (update-Keeps (total_credit p.stored) now sig id nonce req).at p response (v, refl) h
