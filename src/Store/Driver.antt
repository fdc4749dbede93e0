-- ===== src/Store/Driver.antt =====
-- The interface `Store` of pool/store/store.go, as a record of operations on a driver's state, and
-- the laws of the credit that its clients rely on.
use vipnode.Base.{ℕ, String, Bool, true, false, List, ◌≡◌, if◌then◌else◌}
use vipnode.Base.Exec.{Exec, ok, err, unregistered_node}
use vipnode.Int.{ℤ, ◌+ℤ◌}
use vipnode.Clock.{Time}
use vipnode.Store.{Balance, Node}
use vipnode.Store.Stats.{Stats}

-- A method that reads the clock takes the reading first.
pub record Driver (S : Type 0) : Type 0 where
  pub check_and_save_nonce : Time → String → ℤ → Exec S (Unit {0})
  pub get_node : String → Exec S Node
  pub set_node : Node → Exec S (Unit {0})
  pub active_hosts : Time → String → ℤ → Exec S (List Node)
  pub node_peers : String → Exec S (List Node)
  pub update_node_peers : Time → String → List String → ℕ → Exec S (List String)
  pub get_node_balance : String → Exec S Balance
  pub add_node_balance : String → ℤ → Exec S (Unit {0})
  pub get_account_balance : String → Exec S Balance
  pub add_account_balance : String → ℤ → Exec S (Unit {0})
  pub add_account_node : String → String → Exec S (Unit {0})
  pub is_account_node : String → String → Exec S (Unit {0})
  pub get_account_nodes : String → Exec S (List String)
  pub stats : Time → Exec S Stats

-- Credit is neither made nor lost: adding to the balance of a registered node moves the total by
-- exactly that credit, and the credit that a node reads moves by it exactly if the two nodes share a
-- balance. Reading moves nothing.
pub record CreditLaws {S : Type 0} (store : Driver S) : Type 0 where
  pub total : S → ℤ
  pub is_registered : String → S → Bool
  pub credit : String → S → ℤ
  pub shares : String → String → S → Bool
  pub add_registered :
      (id : String) (c : ℤ) (s : S)
      → is_registered id s ≡ true
      → ((store.add_node_balance id c s).0 ≡ ok tt)
        × (total (store.add_node_balance id c s).1 ≡ total s +ℤ c)
  pub add_unregistered :
      (id : String) (c : ℤ) (s : S)
      → is_registered id s ≡ false
      → store.add_node_balance id c s ≡ (err unregistered_node, s)
  pub registered-add :
      (id j : String) (c : ℤ) (s : S)
      → is_registered j (store.add_node_balance id c s).1 ≡ is_registered j s
  pub get_registered :
      (id : String) (s : S)
      → is_registered id s ≡ true
      → (b : Balance) × (store.get_node_balance id s ≡ (ok b, s)) × (b.credit ≡ credit id s)
  pub credit-add :
      (id j : String) (c : ℤ) (s : S)
      → is_registered id s ≡ true
      → credit j (store.add_node_balance id c s).1
        ≡ (if shares id j s then credit j s +ℤ c else credit j s)
  pub shares-add :
      (id i j : String) (c : ℤ) (s : S)
      → shares i j (store.add_node_balance id c s).1 ≡ shares i j s
  pub get_unregistered :
      (id : String) (s : S)
      → is_registered id s ≡ false
      → store.get_node_balance id s ≡ (err unregistered_node, s)
