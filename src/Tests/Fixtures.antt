-- ===== src/Tests/Fixtures.antt =====
-- A pool state at a fixed time: two hosts, of which one was seen a minute ago and one an hour ago,
-- and a client that is connected to both and has a trial balance.
use vipnode.Base.{ℕ, ◌*◌, ◌-◌, String, Bool, true, false, [], ◌∷◌}
use vipnode.Int.{pos, negsuc}
use vipnode.Clock.{Time, second, zero_time}
use vipnode.Store.{Node}
use vipnode.Memory.State.{MemNode, MemoryStore}

abbrev pub clock : ℕ
clock = 1_600_000_000 * second

abbrev pub now : Time
now = pos clock

abbrev pub node_of : String → Bool → ℕ → Node
node_of id is_host age = record {
  id = id;
  uri = id;
  last_seen = pos (clock - age * second);
  kind = "geth";
  is_host = is_host;
  payout = "";
  block_number = 7;
  node_version = "";
  vipnode_version = "";
}

abbrev pub near : Node
near = node_of "near" true 60

abbrev pub far : Node
far = node_of "far" true 3600

abbrev pub client : Node
client = node_of "client" false 60

abbrev pub client_entry : MemNode
client_entry = record { node = client; peers = ("far", far.last_seen) ∷ [] }

abbrev pub state : MemoryStore
state = record {
  balances =
      (
        "wallet",
        record { account = "wallet"; deposit = pos 5; credit = pos 10; next_withdraw = zero_time },
      )
      ∷ [];
  nodes =
      ("near", record { node = near; peers = [] })
      ∷ ("far", record { node = far; peers = [] })
      ∷ ("client", client_entry)
      ∷ [];
  accounts = [];
  trials =
      (
        "client",
        record { account = ""; deposit = pos 0; credit = negsuc 2; next_withdraw = zero_time },
      )
      ∷ [];
  nonces = [];
  room = 100;
}
