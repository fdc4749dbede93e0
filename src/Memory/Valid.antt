-- ===== src/Memory/Valid.antt =====
-- The invariant of the in-memory store, and its credit, over any run of its methods.
use vipnode.Base.{
  ℕ, String, ◌≡◌, refl, none, some, List, [], ◌∷◌, arith, ◌==◌, eq_iff, if_keeps, option_keeps, inl,
  inr, ◌∙◌, ap, sym,
}
use vipnode.Base.Exec.{Result, ok, err, malformed_node}
use vipnode.Int.{ℤ, pos, ◌+ℤ◌, ◌-ℤ◌, int_laws}
use vipnode.Dict.{get, set, Distinct, get-set, get-remove, set-Distinct, remove-Distinct}
use vipnode.Clock.{Time}
use vipnode.Store.{Node, expire_interval}
use vipnode.Memory.State.{MemNode, MemoryStore, IsValid, total_credit}
use vipnode.Memory.Nonces.{check_and_save_nonce, check_and_save_nonce-frame}
use vipnode.Memory.Balances.{add_node_balance, add_account_balance, add_account_node}
use vipnode.Memory.Balances.Conserve.{
  Credits, add_node_balance-Credits, add_account_balance-total, add_account_node-Credits,
}
use vipnode.Memory.Nodes.{set_node, remove_node}
use vipnode.Memory.Peers.{update_node_peers}
use vipnode.Memory.Peers.Update.{refresh-Distinct, expire-Distinct}

-- The methods that change the state, with their arguments.
pub data Op : Type 0 where
  save_nonce : Time → String → ℤ → Op
  credit_node credit_account : String → ℤ → Op
  join_account : String → String → Op
  register : Node → Op
  unregister : String → Op
  report_peers : Time → String → List String → ℕ → Op

unfoldable pub apply : Op → MemoryStore → MemoryStore
apply (save_nonce now id nonce) s = (check_and_save_nonce now id nonce s).1
apply (credit_node id credit) s = (add_node_balance id credit s).1
apply (credit_account account credit) s = (add_account_balance account credit s).1
apply (join_account account id) s = (add_account_node account id s).1
apply (register n) s = (set_node n s).1
apply (unregister id) s = (remove_node id s).1
apply (report_peers now id peers block) s = (update_node_peers now id peers block s).1

unfoldable pub run : List Op → MemoryStore → MemoryStore
run [] s = s
run (op ∷ ops) s = run ops (apply op s)

-- Writing one well-formed node keeps what the invariant says of the nodes.
set_nodes-IsValid :
    (id : String) (n : MemNode) (s : MemoryStore)
    → Distinct n.peers
    → n.node.id ≡ id
    → IsValid s
    → IsValid (record s { nodes = set id n s.nodes })
set_nodes-IsValid id n s d e v = record {
  balances = v.balances;
  nodes = set-Distinct id n s.nodes v.nodes;
  accounts = v.accounts;
  trials = v.trials;
  nonces = v.nonces;
  peers = λ j m h. grind (arith, get-set id j n s.nodes, v.peers j m);
  self = λ j m h. grind (arith, get-set id j n s.nodes, eq_iff id j, v.self j m);
}

balances-IsValid :
    {t : MemoryStore} (s : MemoryStore)
    → IsValid s
    → Distinct t.balances
    → Distinct t.accounts
    → Distinct t.trials
    → Distinct t.nonces
    → t.nodes ≡ s.nodes
    → IsValid t
balances-IsValid s v b a t o e = record {
  balances = b;
  nodes = rw e v.nodes;
  accounts = a;
  trials = t;
  nonces = o;
  peers = λ j m h. v.peers j m (ap (λ d. get j d) (sym e) ∙ h);
  self = λ j m h. v.self j m (ap (λ d. get j d) (sym e) ∙ h);
}

abbrev After : {A : Type 0} → Result A × MemoryStore → Type 0
After r = IsValid r.1

-- Every method keeps the invariant, whether it succeeds or fails.
pub apply-IsValid : (op : Op) (s : MemoryStore) → IsValid s → IsValid (apply op s)
unfolding apply add_node_balance add_account_balance add_account_node set_node remove_node
    update_node_peers
apply-IsValid (save_nonce now id nonce) s v = elim (check_and_save_nonce-frame now id nonce s) [
  | inl same ↦ rw same v
  | inr saved ↦ rw saved (
      balances-IsValid s v v.balances v.accounts v.trials (set-Distinct id nonce s.nonces v.nonces)
        refl)
]
apply-IsValid (credit_node id credit) s v =
    option_keeps (After {A = Unit {0}}) (get id s.nodes) _ _ (λ _. v)
      λ n _.
        option_keeps (After {A = Unit {0}}) (get id s.accounts) _ _
          (λ _.
            balances-IsValid s v v.balances v.accounts (set-Distinct id _ s.trials v.trials)
              v.nonces refl)
          (λ a _.
            balances-IsValid s v (set-Distinct a _ s.balances v.balances) v.accounts v.trials
              v.nonces refl)
apply-IsValid (credit_account account credit) s v =
    balances-IsValid s v (set-Distinct account _ s.balances v.balances) v.accounts v.trials v.nonces
      refl
apply-IsValid (join_account account id) s v =
    option_keeps (After {A = Unit {0}}) (get id s.nodes) _ _ (λ _. v)
      λ n _.
        balances-IsValid s v (set-Distinct account _ s.balances v.balances)
          (set-Distinct id account s.accounts v.accounts) (remove-Distinct id s.trials v.trials)
          v.nonces refl
apply-IsValid (register n) s v =
    if_keeps (After {A = Unit {0}}) (n.id == "") (err malformed_node, s)
      (ok tt, record s { nodes = set n.id (record { node = n; peers = [] }) s.nodes }) (λ _. v)
      (λ _. set_nodes-IsValid n.id (record { node = n; peers = [] }) s tt refl v)
apply-IsValid (unregister id) s v = record {
  balances = v.balances;
  nodes = remove-Distinct id s.nodes v.nodes;
  accounts = v.accounts;
  trials = v.trials;
  nonces = v.nonces;
  peers = λ j m h. grind (arith, get-remove id j s.nodes, v.peers j m);
  self = λ j m h. grind (arith, get-remove id j s.nodes, v.self j m);
}
apply-IsValid (report_peers now id peers block) s v =
    option_keeps (After {A = List String}) (get id s.nodes) _ _ (λ _. v)
      λ n e.
        set_nodes-IsValid id _ s
          (expire-Distinct (now -ℤ pos expire_interval) _ _ []
            (refresh-Distinct s.nodes peers n.peers (v.peers id n e)))
          (v.self id n e) v

-- From a valid state, every sequence of calls leads to a valid state: the keys of each map,
-- the nonces and the peers of each node included, are distinct, and each node stands under its own ID.
pub run-IsValid : (ops : List Op) (s : MemoryStore) → IsValid s → IsValid (run ops s)
unfolding run
run-IsValid [] s v = v
run-IsValid (op ∷ ops) s v = run-IsValid ops (apply op s) (apply-IsValid op s v)

-- The credit that a call grants: nothing, unless it adds to a registered node or to an account.
abbrev pub granted : Op → MemoryStore → ℤ
granted (credit_node id credit) s = elim (get id s.nodes) [ none ↦ pos 0 | some _ ↦ credit ]
granted (credit_account account credit) s = credit
granted _ s = pos 0

unfoldable pub granted_by : List Op → MemoryStore → ℤ
granted_by [] s = pos 0
granted_by (op ∷ ops) s = granted op s +ℤ granted_by ops (apply op s)

zero_right : (a : ℤ) → a ≡ a +ℤ pos 0
zero_right a = grind int_laws

Credits-zero :
    {A : Type 0} (s : MemoryStore) (r : Result A × MemoryStore)
    → Credits s (pos 0) r
    → total_credit r.1 ≡ total_credit s +ℤ pos 0
Credits-zero s (ok a, s') h = h
Credits-zero s (err e, s') h = rw h.1 (zero_right (total_credit s))

credit_node-total :
    (id : String) (credit : ℤ) (s : MemoryStore)
    → total_credit (add_node_balance id credit s).1
      ≡ total_credit s +ℤ granted (credit_node id credit) s
unfolding add_node_balance
credit_node-total id credit s =
    ground (arith, add_node_balance-Credits id credit s, zero_right (total_credit s))

pub apply-total :
    (op : Op) (s : MemoryStore)
    → IsValid s
    → total_credit (apply op s) ≡ total_credit s +ℤ granted op s
unfolding apply set_node remove_node update_node_peers
apply-total (save_nonce now id nonce) s v = elim (check_and_save_nonce-frame now id nonce s) [
  | inl same ↦ rw same (zero_right (total_credit s))
  | inr saved ↦ rw saved (zero_right (total_credit s))
]
apply-total (credit_node id credit) s v = credit_node-total id credit s
apply-total (credit_account account credit) s v = (add_account_balance-total account credit s).1
apply-total (join_account account id) s v =
    Credits-zero s (add_account_node account id s) (add_account_node-Credits account id s v)
apply-total (register n) s v = ground (arith, zero_right (total_credit s))
apply-total (unregister id) s v = zero_right (total_credit s)
apply-total (report_peers now id peers block) s v = ground (arith, zero_right (total_credit s))

-- Over any sequence of calls from a valid state the total of all credit moves by exactly what the
-- calls granted.
pub run-total :
    (ops : List Op) (s : MemoryStore)
    → IsValid s
    → total_credit (run ops s) ≡ total_credit s +ℤ granted_by ops s
unfolding run granted_by
run-total [] s v = zero_right (total_credit s)
run-total (op ∷ ops) s v =
    grind (int_laws, run-total ops (apply op s) (apply-IsValid op s v), apply-total op s v)
