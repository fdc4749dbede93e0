-- ===== src/Memory/State.antt =====
-- The state of the in-memory store and its representation invariant.
use vipnode.Base.{ℕ, String, ◌≡◌, some, []}
use vipnode.Int.{ℤ, ◌+ℤ◌}
use vipnode.Dict.{Dict, Distinct, get, total}
use vipnode.Clock.{Time}
use vipnode.Store.{Node, Balance}

pub record MemNode : Type 0 where
  pub node : Node
  pub peers : Dict Time

-- `room` is the largest capacity with which the runtime of Go makes a slice of nodes; nothing writes it.
pub record MemoryStore : Type 0 where
  pub balances : Dict Balance
  pub nodes : Dict MemNode
  pub accounts : Dict String
  pub trials : Dict Balance
  pub nonces : Dict ℤ
  pub room : ℕ

-- `New`
abbrev pub new : ℕ → MemoryStore
new room = record {
  balances = [];
  nodes = [];
  accounts = [];
  trials = [];
  nonces = [];
  room = room;
}

-- Each map holds a key once, as Go's maps do, and so does the peer map of each node.
pub record IsValid (s : MemoryStore) : Type 0 where
  pub balances : Distinct s.balances
  pub nodes : Distinct s.nodes
  pub accounts : Distinct s.accounts
  pub trials : Distinct s.trials
  pub nonces : Distinct s.nonces
  pub peers : (id : String) (n : MemNode) → get id s.nodes ≡ some n → Distinct n.peers
  pub self : (id : String) (n : MemNode) → get id s.nodes ≡ some n → n.node.id ≡ id

abbrev pub credit_of : Balance → ℤ
credit_of b = b.credit

abbrev pub deposit_of : Balance → ℤ
deposit_of b = b.deposit

-- All credit that the store records, of accounts and of trials.
abbrev pub total_credit : MemoryStore → ℤ
total_credit s = total credit_of s.balances +ℤ total credit_of s.trials
