-- ===== src/Ethnode.antt =====
-- ethnode/rpc.go: the kinds of node and network, and what a node knows of its peers.
pub mod Names
pub mod Enode
pub mod Clients
use Prim.Native.String.{len, slice, ◌++◌}
use mathlib.Core.List.{map}
use Prim.Native.Char.{code}
use vipnode.Base.{
  ℕ, ◌+◌, String, Bool, true, false, ◌&&◌, List, [], ◌∷◌, leb, nat_eq, if◌then◌else◌,
}
use vipnode.Base.Exec.{Exec}
use vipnode.Int.{ℤ, pos, eqb_ℤ}

pub data NodeKind : Type 0 where
  unknown geth parity pantheon : NodeKind

-- `NodeKind.String`
unfoldable pub kind_string : NodeKind → String
kind_string geth = "geth"
kind_string parity = "parity"
kind_string pantheon = "pantheon"
kind_string unknown = "unknown"

-- `unicode.ToLower` as far as it yields ASCII: the capitals, the Kelvin sign and the dotted I.
unfoldable pub lower : ℕ → ℕ
lower c =
    if leb b'A' c && leb c b'Z'
    then c + 32
    else if nat_eq c 0x212a
    then b'k'
    else if nat_eq c 0x130
    then b'i'
    else c

abbrev pub codes : String → List ℕ
codes String.[] = []
codes (String.◌∷◌ c s) = code c ∷ codes s

abbrev pub same : List ℕ → List ℕ → Bool
same [] [] = true
same (x ∷ xs) (y ∷ ys) = nat_eq x y && same xs ys
same _ _ = false

-- Whether `strings.ToLower(s)` is the text `word`, which is in lower case.
unfoldable pub lowers_to : String → String → Bool
unfolding lower
lowers_to s word = same (map lower (codes s)) (codes word)

-- `ParseNodeKind`
unfoldable pub parse_node_kind : String → NodeKind
unfolding lowers_to
parse_node_kind s =
    if lowers_to s "geth"
    then geth
    else if lowers_to s "parity"
    then parity
    else if lowers_to s "pantheon"
    then pantheon
    else unknown

-- A `NetworkID` is an int; `NetworkID.String`.
unfoldable pub network_string : ℤ → String
network_string id =
    if eqb_ℤ id (pos 1)
    then "mainnet"
    else if eqb_ℤ id (pos 2)
    then "morden"
    else if eqb_ℤ id (pos 3)
    then "ropsten"
    else if eqb_ℤ id (pos 4)
    then "rinkeby"
    else if eqb_ℤ id (pos 42)
    then "kovan"
    else if eqb_ℤ id (pos 5)
    then "goerli"
    else if eqb_ℤ id (pos 6)
    then "kotti"
    else "unknown"

-- `ParseNetwork`
unfoldable pub parse_network : String → ℤ
unfolding lowers_to
parse_network s =
    if lowers_to s "mainnet"
    then pos 1
    else if lowers_to s "morden"
    then pos 2
    else if lowers_to s "ropsten"
    then pos 3
    else if lowers_to s "rinkeby"
    then pos 4
    else if lowers_to s "kovan"
    then pos 42
    else if lowers_to s "goerli"
    then pos 5
    else if lowers_to s "kotti"
    then pos 6
    else pos 0

-- The fields of `UserAgent` that the pool reads.
pub record UserAgent : Type 0 where
  pub version : String
  pub eth_protocol : String
  pub kind : NodeKind
  pub network : ℤ
  pub is_full_node : Bool

-- The fields of `PeerInfo` that a pool or an agent reads.
pub record PeerInfo : Type 0 where
  pub id : String
  pub enode : String
  pub remote_address : String

-- `EnodeID`: the 128 bytes behind "enode://", if the text is longer than that.
unfoldable pub enode_id : PeerInfo → String
enode_id p = if leb (len p.enode) (8 + 128) then p.id else slice p.enode 8 (8 + 128)

-- `EnodeURI`
unfoldable pub enode_uri : PeerInfo → String
unfolding enode_id
enode_uri p = "enode://" ++ (enode_id p ++ ("@" ++ p.remote_address))

-- `Peers.IDs`
unfoldable pub peer_ids : List PeerInfo → List String
peer_ids peers = map enode_id peers

-- The methods of `ethnode.EthNode` that an agent calls.
pub record EthNode (W : Type 0) : Type 0 where
  pub enode : Exec W String
  pub user_agent : W → UserAgent
  pub peers : Exec W (List PeerInfo)
  pub block_number : Exec W ℕ
  pub add_trusted_peer : String → Exec W (Unit {0})
  pub remove_trusted_peer : String → Exec W (Unit {0})
  pub connect_peer : String → Exec W (Unit {0})
  pub disconnect_peer : String → Exec W (Unit {0})
