-- ===== src/Lib.antt =====
-- A model of vipnode, a service that connects Ethereum light clients to full nodes that host them.
--
-- A pool (pool/service.go) knows hosts and clients by signed requests, keeps them and their balances in a
-- store (pool/store), charges clients for the time of their peers (pool/balance), asks hosts over their
-- connections to accept a client, and lets wallets spend and withdraw what was earned (pool/payment).
--
-- How the model is built. Stateful code is a function from a state to a result and the state that it leaves
-- (`Exec`, Base/Exec): an error keeps the writes that came before it, as in Go, and a panic of the Go
-- runtime is the error `panic`. The locks of the source make each method of the store and each critical
-- section of the service one step; a run is a sequence of such steps. A reading of the clock is an argument,
-- one for each call of a method.
-- Maps are association lists whose keys are distinct (Dict), in the order in which `range` visits them.
-- Numbers are unbounded where the source has big.Int, and the native natural numbers elsewhere; a duration
-- saturates as `time.Time.Sub` does. Loops run over lists; only that of the badger migrations has fuel, of
-- which as much is enough as there are versions between the oldest that is supported and the latest.
--
-- The parts, and the files that model them:
--   Store, Store/Stats, Store/Driver: the data and the interface of pool/store/store.go, and the laws of
--     its credit that the balance manager relies on.
--   Memory: pool/store/memory/memory.go. State has the five maps and the invariant; Nonces, Balances, Nodes
--     and Peers have one function per method, named as the method (CheckAndSaveNonce is
--     check_and_save_nonce); Valid runs sequences of methods; Driver fills the interface.
--   Badger: pool/store/badger. badger and gob are the parameter `Engine`, with what they document as
--     `EngineLaws`. Keys has the names of entries; Nonces, Balances, Nodes and Peers have one function per
--     method, and the body of each transaction; Items what is read after a write, Replay what becomes of
--     nonces. Migration has migration.go and versions.go, and Upgrade and Versions what becomes of a database.
--   Store/Book: an abstract specification of balances. Memory/Book and Badger/Book show that the drivers
--     keep it, and Drivers compares the two.
--   Balance: pool/balance: `payPerInterval` and the manager that charges nothing. Charge and Interval have
--     what an update moves and charges.
--   Ethnode: the names of ethnode/rpc.go and the identification of peers; in Clients the nodes of geth.go,
--     parity.go and pantheon.go, with go-ethereum's RPC client as the parameter `RpcClient`.
--   Request: the signatures of request/. The cryptography, the JSON encoding and the decoders that
--     the source calls are the parameter `Crypto`. Signing has the side of the one who signs.
--   Pool: the service. State has its fields, settings and requests, Sessions `Connect` and `Host`, Peering
--     `Peer` and `Client` with the whitelisting of hosts, Updates the keep-alive `Update`, Uri pool/nodeuri.go.
--     The answers of hosts, and the order in which parallel calls answer, are the parameter `Outside`.
--     Remote is pool/remote.go, which signs what is asked of a pool; the connection is a parameter.
--   Payment: pool/payment: the service, the cache of deposits, and in Contract the balances with deposits of
--     contract.go; the contract's binding is the parameter `Chain`. Subscription has the loop that handles its events.
--   Agent: agent/agent.go. The node and the pool are the interfaces `EthNode` and `PoolClient` over a state
--     of the world; Strict has the peers that are dropped, Serve the loop of updates.
--   Status: pool/status/status.go. Cached has what its cache promises.
--   Ethnode/Enode: ethnode/nodeuri.go, and Pool/Static pool/staticpool.go. Pool/Remotes has the connections of
--     hosts that the service keeps.
--   Jsonrpc: the waiting calls of jsonrpc2/remote.go and jsonrpc2/pending.go, and its server: Server has
--     the registry, the dispatch and the calls of a local server, Listed which methods can be called.
--     Connection has Serve, the handlers and the calls of remote.go as steps of one connection: Routed, Served and
--     Called have the invariant of the routing of answers, Answers, Delivered and Blocked what follows. Reflected is
--     method.go, over what reflection says of a receiver, and Http is http.go.
--   Pretty: internal/pretty, the texts of amounts; Parse and Print have what is read and written.
--   Commands: main.go and agent.go. Retries has the loop that starts a command again, Runner what the agent command
--     loads, and Drift its messages about blocks; Server is server.go, and Assembly what pool.go puts together.
--   Tests: runs at concrete inputs, and an instance of each theorem.
--
-- Not modelled: the codecs of JSON-RPC over sockets, which are bytes and deadlines; the channels of the agent's
-- Stop and Wait; of the command line the flags, the listeners and the registration of the services; and the
-- doubles that the tests of the source use.
pub mod Base
pub mod Int
pub mod Dict
pub mod Clock
pub mod Commands
pub mod Store
pub mod Memory
pub mod Badger
pub mod Drivers
pub mod Agent
pub mod Balance
pub mod Ethnode
pub mod Request
pub mod Pool
pub mod Pretty
pub mod Payment
pub mod Status
pub mod Jsonrpc
pub mod Tests
