-- ===== src/Commands/Runner.antt =====
-- agent.go: what the agent command loads. The node, the keys and the parsers of URLs and of durations
-- are parameters; the explanations of errors are left out, and whether one is retried is kept.
pub mod Loaded
use vipnode.Base.{
  ℕ, ◌*◌, ◌^◌, ◌<◌, String, Bool, true, false, ◌||◌, not, Option, none, some, ◌==◌, if◌then◌else◌,
}
use vipnode.Base.Exec.{Result, ok, err, Error, external}
use vipnode.Int.{ℤ, pos, ltb_ℤ, leb_ℤ}
use vipnode.Clock.{second}
use vipnode.Store.{expire_interval}
use vipnode.Ethnode.Enode.{NodeUri, UriReader}
use vipnode.Commands.{match_enode}

-- A result, or an error that makes the command start again.
pub data Load (A : Type 0) : Type 0 where
  loaded : A → Load A
  aborted : Error → Load A
  retried : Error → Load A

infixl 5 ◌>>=◌ ◌>>◌
abbrev pub ◌>>=◌ : {A B : Type 0} → Load A → (A → Load B) → Load B
loaded a >>= f = f a
aborted e >>= f = aborted e
retried e >>= f = retried e

abbrev pub ◌>>◌ : {A B : Type 0} → Load A → Load B → Load B
m >> k = m >>= λ _. k

abbrev pub from_result : {A : Type 0} → Result A → Load A
from_result (ok a) = loaded a
from_result (err e) = aborted e

-- A failure of this makes the command start again.
abbrev pub or_retry : {A : Type 0} → Result A → Load A
or_retry (ok a) = loaded a
or_retry (err e) = retried e

abbrev pub fail_if : Bool → String → Load (Unit {0})
fail_if true why = aborted (external why)
fail_if false why = loaded tt

pub record AgentOptions : Type 0 where
  pub rpc : String
  pub node_key : String
  pub node_uri : String
  pub node_host : String
  pub payout : String
  pub update_interval : String
  pub min_peers : ℤ
  pub strict_peers : Bool
  pub coordinator : String

-- What the command finds outside: `N` is a node and `K` a key.
pub record Surroundings (N K : Type 0) : Type 0 where
  pub find_rpc : String → Result N
  pub find_key : String → Result K
  pub id_of_key : K → String
  pub enode : N → Result String
  pub is_full_node : N → Bool
  pub error_text : Error → String
  pub parse_duration : String → Result ℤ
  pub with_host : String → String → Result String
  pub reader : UriReader
  pub add_static : String → Result (Unit {0})
  pub with_scheme : NodeUri → String → NodeUri
  pub uri_text : NodeUri → String
  pub dial_socket : String → Result (Unit {0})

-- The fields of the agent that are loaded.
pub record AgentSetup (N : Type 0) : Type 0 where
  pub node : N
  pub payout : String
  pub interval : ℤ
  pub num_hosts : ℤ
  pub strict : Bool
  pub uri : String

pub record Runner (N K : Type 0) : Type 0 where
  pub agent : AgentSetup N
  pub key : K

abbrev pub min_update_interval : ℤ
min_update_interval = pos (5 * second)

abbrev pub default_pool_uri : String
default_pool_uri = "wss://pool.vipnode.org/"

-- The pool that is used.
pub data PoolKind : Type 0 where
  in_memory static_pool : PoolKind
  socket_pool http_pool : String → PoolKind

module _ {N K : Type 0} (around : Surroundings N K) where
  abbrev pub find_private_key : Option K → String → Load K
  find_private_key (some k) path = loaded k
  find_private_key none path = from_result (around.find_key path)

  -- The error of a Parity node that is warming up is retried.
  abbrev pub remote_enode : Result String → Load String
  remote_enode (ok enode) = loaded enode
  remote_enode (err e) =
      if around.error_text e == "Network is disabled or not yet up." then retried e else aborted e

  abbrev pub checked_interval : ℤ → Load (Unit {0})
  checked_interval interval = do
    fail_if (leb_ℤ (pos expire_interval) interval) "update interval too large"
    fail_if (leb_ℤ interval min_update_interval) "update interval too small"

  -- The given URI, if it is that of the node, or that of the node itself
  abbrev pub choose_uri : String → String → String → Load String
  choose_uri given enode node_id =
      if given == ""
      then loaded enode
      else do from_result (match_enode around.reader given node_id); loaded given

  abbrev pub override_host : String → String → Load String
  override_host host uri =
      if host == "" then loaded uri else from_result (around.with_host uri host)

  -- `LoadAgent`
  unfoldable pub load_agent : Option K → AgentOptions → Load (Runner N K)
  load_agent key options = do
    node ← from_result (around.find_rpc options.rpc)
    k ← find_private_key key options.node_key
    enode ← remote_enode (around.enode node)
    from_result (match_enode around.reader enode (around.id_of_key k))
    interval ← from_result (around.parse_duration options.update_interval)
    checked_interval interval
    chosen ← choose_uri options.node_uri enode (around.id_of_key k)
    uri ← override_host options.node_host chosen
    loaded (record {
      agent = record {
        node = node;
        payout = options.payout;
        interval = interval;
        num_hosts = options.min_peers;
        strict = options.strict_peers;
        uri = uri;
      };
      key = k;
    })

  abbrev pub or_wss : NodeUri → NodeUri
  or_wss u = if u.scheme == "" then around.with_scheme u "wss" else u

  -- The transport of a scheme
  abbrev pub choose_transport : Bool → String → String → Load PoolKind
  choose_transport full scheme uri =
      if scheme == "ws" || scheme == "wss"
      then (do or_retry (around.dial_socket uri); loaded (socket_pool uri))
      else if scheme == "http" || scheme == "https"
      then (do
        fail_if full "full node coordination not supported over HTTP"
        loaded (http_pool uri))
      else aborted (external "invalid pool coordinator URI scheme")

  abbrev pub load_uri : Bool → String → NodeUri → Load PoolKind
  load_uri full text u =
      if u.scheme == "enode"
      then (do from_result (around.add_static text); loaded static_pool)
      else choose_transport full (or_wss u).scheme (around.uri_text (or_wss u))

  -- `LoadPool`
  unfoldable pub load_pool : Runner N K → String → Load PoolKind
  load_pool runner coordinator =
      let text = if coordinator == "" then default_pool_uri else coordinator in
      if coordinator == ":memory:" then loaded in_memory else do
        u ← from_result (around.reader.parse text)
        load_uri (around.is_full_node runner.agent.node) text u
