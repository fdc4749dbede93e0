-- ===== src/Pool/State.antt =====
-- The state of the pool service, its settings, and the requests of pool/pool.go.
use vipnode.Base.{ℕ, String, Bool, Option, none, some, List, length}
use vipnode.Base.Exec.{Exec, Result, ok, Error, panic, verify_failed}
use vipnode.Int.{ℤ}
use vipnode.Dict.{Dict, get, remove, set}
use vipnode.Store.{Node, Balance}
use vipnode.Store.Driver.{Driver}
use vipnode.Balance.{Manager}
use vipnode.Ethnode.{UserAgent, PeerInfo}
use vipnode.Request.{Crypto}
use vipnode.Pool.Uri.{UrlCodec}

pub record ConnectRequest : Type 0 where
  pub vipnode_version : String
  pub node_info : UserAgent
  pub node_uri : String
  pub payout : String

pub record HostRequest : Type 0 where
  pub kind : String
  pub payout : String
  pub node_uri : String

pub record ClientRequest : Type 0 where
  pub kind : String
  pub num_hosts : ℤ

pub record UpdateRequest : Type 0 where
  pub peers : List String
  pub peer_info : List PeerInfo
  pub block_number : ℕ

-- `oldUpdateRequest`
pub record OldUpdateRequest : Type 0 where
  pub peers : List String
  pub block_number : ℕ

-- The signed arguments of the requests.
pub data Arguments : Type 0 where
  connect_args : ConnectRequest → Arguments
  host_args : HostRequest → Arguments
  client_args : ClientRequest → Arguments
  update_args : UpdateRequest → Arguments
  old_update_args : OldUpdateRequest → Arguments
  node_id_args : String → Arguments
  peer_args : ℤ → String → Arguments
  no_args : Arguments

pub record UpdateResponse : Type 0 where
  pub balance : Balance
  pub invalid_peers : List String
  pub active_peers : List String
  pub latest_block_number : ℕ

pub record ConnectResponse : Type 0 where
  pub pool_version : String
  pub hosts : List Node
  pub message : String

pub record ClientResponse : Type 0 where
  pub hosts : List Node
  pub pool_version : String
  pub message : String

-- A connection to a peer that can be called; two are the same exactly if their texts are.
abbrev pub Service : Type 0
Service = String

-- A host with the connection to it, `hostService`.
abbrev pub HostService : Type 0
HostService = Node × Service

-- A call of a connected host: the connection, the method and the node ID that it passes.
abbrev pub RemoteCall : Type 0
RemoteCall = Service × String × String

-- What comes from outside: the answer of a call (a message if it fails, by itself or by the time
-- limit), the order in which parallel calls answer (each number picks among those still running), the address of a connection, and the codecs.
pub record Outside : Type 0 where
  pub answer : RemoteCall → Option String
  pub schedule : List ℕ
  pub remote_host : Service → String
  pub crypto : Crypto Arguments
  pub urls : UrlCodec

pub record Setup (S : Type 0) : Type 0 where
  pub store : Driver S
  pub manager : Manager S
  pub version : String
  pub client_messager : Option (String → String)
  pub max_request_hosts : ℤ
  pub restrict_network : ℤ
  pub block_number_provider : Option (ℤ → Result ℕ)
  pub skip_whitelist : Bool

-- The state of the service over that of its store, and the calls that it has made to hosts.
pub record Pool (S : Type 0) : Type 0 where
  pub stored : S
  pub remote_hosts : Dict Service
  pub remote_node_lookup : Dict String
  pub calls : List RemoteCall

module _ {S : Type 0} where
  -- A call of the store or the manager.
  abbrev pub on_store : {A : Type 0} → Exec S A → Exec (Pool S) A
  on_store m p = let (r, s) = m p.stored in (r, record p { stored = s })

  -- `CloseRemote`
  unfoldable pub close_remote : Service → Exec (Pool S) (Unit {0})
  close_remote remote p = elim (get remote p.remote_node_lookup) [
    | none ↦ (ok tt, p)
    | some node_id ↦ (
      ok tt,
      record p {
        remote_node_lookup = remove remote p.remote_node_lookup;
        remote_hosts = remove node_id p.remote_hosts;
      },
    )
  ]

  -- The two writes of `connect` under its lock.
  unfoldable pub save_remote : String → Service → Exec (Pool S) (Unit {0})
  save_remote node_id service p = (
    ok tt,
    record p {
      remote_hosts = set node_id service p.remote_hosts;
      remote_node_lookup = set service node_id p.remote_node_lookup;
    },
  )

-- `NumRemotes`
abbrev pub num_remotes : {S : Type 0} → Pool S → ℕ
num_remotes p = length p.remote_hosts

-- `Ping`
abbrev pub ping : String
ping = "pong"

-- `VerifyFailedError{Cause: err, Method: method}`; a panic is not caught.
abbrev pub verify_error : String → Error → Error
verify_error method (panic p) = panic p
verify_error method e = verify_failed method e
