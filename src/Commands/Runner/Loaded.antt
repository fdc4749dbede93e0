-- ===== src/Commands/Runner/Loaded.antt =====
-- What holds of an agent and of a pool that are loaded.
use vipnode.Base.{
  ◌≡◌, refl, subst, Bool-cases, inl, inr, String, Bool, true, false, Option, ◌==◌, eq_iff, arith,
  if◌then◌else◌,
}
use vipnode.Base.Exec.{Result, ok, err}
use vipnode.Int.{ℤ, pos, leb_ℤ, ◌<ℤ◌}
use vipnode.Store.{expire_interval}
use vipnode.Ethnode.Enode.{NodeUri, UriReader}
use vipnode.Commands.{match_enode, enode_name, same_node}
use vipnode.Commands.Runner.{
  Load, loaded, aborted, retried, ◌>>=◌, from_result, fail_if, AgentOptions, Surroundings, Runner,
  min_update_interval, default_pool_uri, http_pool, find_private_key, remote_enode,
  checked_interval, choose_uri, override_host, load_agent, or_wss, choose_transport, load_uri,
  load_pool,
}

-- A chain that is loaded: its first step is, and so is the rest.
chain_loaded :
    {A B : Type 0} (m : Load A) (f : A → Load B) {b : B}
    → (m >>= f) ≡ loaded b
    → (a : A) × (m ≡ loaded a) × (f a ≡ loaded b)
chain_loaded (loaded a) f h = (a, refl, h)
chain_loaded (aborted e) f h = cc
chain_loaded (retried e) f h = cc

from_result-ok : {A : Type 0} {a : A} (r : Result A) → from_result r ≡ loaded a → r ≡ ok a
from_result-ok (ok b) h = cc
from_result-ok (err e) h = cc

fail_if-false : {u : Unit {0}} (b : Bool) (why : String) → fail_if b why ≡ loaded u → b ≡ false
fail_if-false true why h = cc
fail_if-false false why h = refl

same_node-ok :
    {u : Unit {0}} (node_id : String) (name : Result String)
    → same_node node_id name ≡ ok u
    → name ≡ ok node_id
same_node-ok node_id (err e) h = cc
same_node-ok node_id (ok name) h = ground (arith, h, eq_iff name node_id)

match_enode-ok :
    {u : Unit {0}} (reader : UriReader) (enode node_id : String)
    → match_enode reader enode node_id ≡ ok u
    → enode_name reader enode ≡ ok node_id
unfolding match_enode
match_enode-ok reader enode node_id h = same_node-ok node_id (enode_name reader enode) h

module _ {N K : Type 0} (around : Surroundings N K) where
  remote_enode-ok :
      (r : Result String) {enode : String} → remote_enode around r ≡ loaded enode → r ≡ ok enode
  remote_enode-ok (ok e) h = cc
  remote_enode-ok (err x) h = ground (arith, h)

  checked_interval-bounds :
      (interval : ℤ) {u : Unit {0}}
      → checked_interval around interval ≡ loaded u
      → (min_update_interval <ℤ interval) × (interval <ℤ pos expire_interval)
  checked_interval-bounds interval h =
      let (_, below, rest) =
        chain_loaded (fail_if (leb_ℤ (pos expire_interval) interval) "update interval too large") _
          h in
      let small =
        fail_if-false (leb_ℤ (pos expire_interval) interval) "update interval too large" below in
      let large =
        fail_if-false (leb_ℤ interval min_update_interval) "update interval too small" rest in
      (ground (arith, large), ground (arith, small))

  choose_uri-named :
      (given enode node_id : String) {uri : String}
      → enode_name around.reader enode ≡ ok node_id
      → choose_uri around given enode node_id ≡ loaded uri
      → enode_name around.reader uri ≡ ok node_id
  choose_uri-named given enode node_id {uri} own h = elim (Bool-cases (given == "")) [
    | inl absent ↦
        let same : enode ≡ uri = ground (arith, h, absent) in
        subst (λ u. enode_name around.reader u ≡ ok node_id) same own
    | inr there ↦
        let (_, matched, last) =
          chain_loaded (from_result (match_enode around.reader given node_id)) (λ _. loaded given)
            (rw there at h) in
        let same : given ≡ uri = cc in
        subst (λ u. enode_name around.reader u ≡ ok node_id) same
          (match_enode-ok around.reader given node_id
            (from_result-ok (match_enode around.reader given node_id) matched))
  ]

  override_host-same :
      (host uri : String) {out : String}
      → override_host around host uri ≡ loaded out
      → host ≡ ""
      → uri ≡ out
  override_host-same host uri h absent = ground (arith, h, absent, eq_iff host "")

  abbrev pub IsLoaded : AgentOptions → Runner N K → Type 0
  IsLoaded options r =
      ((enode : String) × (around.enode r.agent.node ≡ ok enode)
        × (enode_name around.reader enode ≡ ok (around.id_of_key r.key)))
      × (min_update_interval <ℤ r.agent.interval)
      × (r.agent.interval <ℤ pos expire_interval)
      × (options.node_host ≡ ""
          → enode_name around.reader r.agent.uri ≡ ok (around.id_of_key r.key))

loaded-injective : {A : Type 0} {a b : A} → loaded a ≡ loaded b → a ≡ b
loaded-injective e = cc

-- An agent that is loaded has a key with the ID that the enode of its node names, an interval between
-- the two bounds and, unless its host is overridden, a URI that names the same ID.
pub load_agent-Loaded :
    {N K : Type 0} (around : Surroundings N K) (key : Option K) (options : AgentOptions)
    (r : Runner N K)
    → load_agent around key options ≡ loaded r
    → IsLoaded around options r
unfolding load_agent
load_agent-Loaded around key options r h =
    let (node, _, h1) = chain_loaded (from_result (around.find_rpc options.rpc)) _ h in
    let (k, _, h2) = chain_loaded (find_private_key around key options.node_key) _ h1 in
    let (enode, at_node, h3) = chain_loaded (remote_enode around (around.enode node)) _ h2 in
    let (_, matched, h4) =
      chain_loaded (from_result (match_enode around.reader enode (around.id_of_key k))) _ h3 in
    let (interval, _, h5) =
      chain_loaded (from_result (around.parse_duration options.update_interval)) _ h4 in
    let (_, checked, h6) = chain_loaded (checked_interval around interval) _ h5 in
    let (chosen, named, h7) =
      chain_loaded (choose_uri around options.node_uri enode (around.id_of_key k)) _ h6 in
    let (uri, hosted, last) = chain_loaded (override_host around options.node_host chosen) _ h7 in
    let id = around.id_of_key k in
    let own =
      match_enode-ok around.reader enode id
        (from_result-ok (match_enode around.reader enode id) matched) in
    let (above, below) = checked_interval-bounds around interval checked in
    let uri_named = choose_uri-named around options.node_uri enode id own named in
    subst (IsLoaded around options) (loaded-injective last) (
      (enode, remote_enode-ok around (around.enode node) at_node, own),
      above,
      below,
      λ absent.
          subst (λ u. enode_name around.reader u ≡ ok id)
            (override_host-same around options.node_host chosen hosted absent) uri_named,
    )

module _ {N K : Type 0} (around : Surroundings N K) where
  choose_transport-http :
      (full : Bool) (scheme text : String) {uri : String}
      → choose_transport around full scheme text ≡ loaded (http_pool uri)
      → full ≡ false
  choose_transport-http full scheme text h = ground (arith, h)

  load_uri-http :
      (full : Bool) (text : String) (u : NodeUri) {uri : String}
      → load_uri around full text u ≡ loaded (http_pool uri)
      → full ≡ false
  load_uri-http full text u h = ground (
    arith,
    h,
    choose_transport-http full (or_wss around u).scheme (around.uri_text (or_wss around u)),
  )

-- A full node is never given a pool over HTTP, over which the pool could not call it back.
pub load_pool-http :
    {N K : Type 0} (around : Surroundings N K) (r : Runner N K) (coordinator uri : String)
    → load_pool around r coordinator ≡ loaded (http_pool uri)
    → around.is_full_node r.agent.node ≡ false
unfolding load_pool
load_pool-http around r coordinator uri h = ground (
  arith,
  h,
  load_uri-http around (around.is_full_node r.agent.node)
      (if coordinator == "" then default_pool_uri else coordinator),
)
