-- ===== src/Tests/Pools.antt =====
-- The pool service: runs and instances.
use vipnode.Base.{
  String, ◌≡◌, refl, ◌≤◌, ◌<◌, ◌+◌, true, false, none, List, [], ◌∷◌, All, length, arith,
}
use vipnode.Base.Exec.{ok, err, Error}
use vipnode.Int.{pos, ◌+ℤ◌, ◌-ℤ◌}
use vipnode.Dict.{get, set, values}
use vipnode.Clock.{after}
use vipnode.Ethnode.{lower}
use vipnode.Request
use vipnode.Request.{Crypto}
use vipnode.Store.{Node}
use vipnode.Memory.State.{MemoryStore}
use vipnode.Memory.Driver.{memory_driver}
use vipnode.Memory.Nonces.{check_and_save_nonce}
use vipnode.Memory.Nodes.{active_hosts, scan_hosts, is_candidate}
use vipnode.Memory.Peers.{node_peers, peer_nodes}
use vipnode.Memory.Valid.{Op, run}
use vipnode.Balance.{no_balance_manager}
use vipnode.Pool.State.{Setup, Outside, Pool, no_args}
use vipnode.Pool.Sessions.{verify}
use vipnode.Pool.Peering.{
  skip_peers, request_hosts, list_hosts, choose, whitelist, cap_num, with_remotes, arrivals,
  collect, conclude,
}
use vipnode.Pool.Peering.Memory.{at_memory, IsOffered, request_hosts-IsOffered, allowed}
use vipnode.Pool.Replay.{accepted_request_once}
use vipnode.Tests.Fixtures.{now, state, near}

-- A wallet's signature is 65 bytes in hexadecimal digits, and each belongs to the given wallet.
abbrev pub crypto_of : {A : Type 0} → String → Crypto A
crypto_of wallet = record {
  marshal = λ key nonce args. ok [];
  node_pubkey = λ key. ok [];
  base64_decode = λ s. ok [];
  hex_decode = λ s. ok (Request.zeros 65);
  keccak256 = λ bytes. bytes;
  verify_signature = λ key hash sig. true;
  sig_to_pub = λ hash sig. ok [];
  address_string = λ key. wallet;
  decimal = λ n. [];
}

abbrev pub crypto : {A : Type 0} → Crypto A
crypto = crypto_of "wallet"

abbrev pub outside : Outside
outside = record {
  answer = λ call. none;
  schedule = [];
  remote_host = λ service. "192.0.2.1";
  crypto = crypto;
  urls = record { parse = λ s. err (Error.external "parse"); print = λ u. u.username };
}

abbrev pub setup : Setup MemoryStore
setup = record {
  store = memory_driver;
  manager = no_balance_manager;
  version = "test";
  client_messager = none;
  max_request_hosts = pos 10;
  restrict_network = pos 0;
  block_number_provider = none;
  skip_whitelist = false;
}

abbrev pub pool : Pool MemoryStore
pool = record {
  stored = state;
  remote_hosts = ("near", "connection") ∷ [];
  remote_node_lookup = ("connection", "near") ∷ [];
  calls = [];
}

offers_near :
    (request_hosts (at_memory setup) outside now "client" (pos 1) "geth" pool).0 ≡ ok (near ∷ [])
unfolding request_hosts list_hosts choose whitelist cap_num skip_peers with_remotes arrivals collect
    conclude active_hosts scan_hosts is_candidate node_peers peer_nodes values get set after ◌+ℤ◌
    ◌-ℤ◌
offers_near = refl

request_hosts-IsOffered_example :
    (peers : List Node) × (((node_peers "client" state).0 ≡ ok peers)
      × All (IsOffered outside now "geth" "client" peers pool) (near ∷ [])
      × (0 < length (near ∷ []))
      × (length (near ∷ []) ≤ allowed 10 1 + length (skip_peers peers (("client", tt) ∷ []))))
request_hosts-IsOffered_example =
    request_hosts-IsOffered setup outside now "client" 0 10 "geth" pool (near ∷ []) refl refl
      offers_near

signed :
    (verify (at_memory setup) outside now "0x" "vipnode_update" "wallet" now no_args pool).0 ≡ ok tt
unfolding verify Request.verify Request.verify_address Request.without_prefix Request.legacy_v
    Request.address_hash Request.assemble check_and_save_nonce get lower ◌-ℤ◌
signed = refl

abbrev replayed : Pool MemoryStore
replayed = record pool {
  stored =
      run (Op.credit_account "wallet" (pos 3) ∷ [])
        (verify (at_memory setup) outside now "0x" "vipnode_update" "wallet" now no_args
          pool).1.stored;
}

accepted_request_once_example :
    (e : Error) × (verify
        (at_memory setup)
        outside
        (now +ℤ pos 1)
        "0x"
        "vipnode_client"
        "wallet"
        now
        no_args
        replayed
      ≡ (err e, replayed))
accepted_request_once_example =
    accepted_request_once setup outside now (now +ℤ pos 1) "0x" "0x" "vipnode_update"
      "vipnode_client" "wallet" now now no_args no_args pool replayed
      (Op.credit_account "wallet" (pos 3) ∷ []) signed (omega arith) refl
