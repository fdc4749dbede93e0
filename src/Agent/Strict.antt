-- ===== src/Agent/Strict.antt =====
-- The strict peers of agent/agent.go: a node keeps exactly the peers that its pool lists.
use vipnode.Base.{
  String, ◌≡◌, refl, ap, sym, ◌∙◌, inl, inr, Bool, true, false, Option, none, some, List, [], ◌∷◌,
  map, ◌==◌, if◌then◌else◌, Bool-cases,
}
use vipnode.Base.Exec.{Result, ok, err, Result-cases}
use vipnode.Dict.{Dict, get, set, get-set}
use vipnode.Ethnode.{PeerInfo, enode_uri}
use vipnode.Ethnode.Enode.{UriReader, NodeUri, parse_node_uri, node_id, remote_host}
use vipnode.Agent.{active_hosts_of, is_listed, mismatched, to_disconnect, Settings, PoolUpdate}

abbrev or_else : Option String → Option String → Option String
or_else none o = o
or_else (some h) o = some h

abbrev host_if : UriReader → String → Result NodeUri → Option String
host_if reader id (err x) = none
host_if reader id (ok u) = if node_id u == id then some (remote_host reader u) else none

-- The host of the last URI of a list that is one of an ID.
abbrev last_host : UriReader → String → List String → Option String
last_host reader id [] = none
last_host reader id (p ∷ rest) =
    or_else (last_host reader id rest) (host_if reader id (parse_node_uri reader p))

or_else_assoc : (a b c : Option String) → or_else (or_else a b) c ≡ or_else a (or_else b c)
or_else_assoc none b c = refl
or_else_assoc (some h) b c = refl

-- The map that the agent builds finds that host.
get-active_hosts_of :
    (reader : UriReader) (id : String) (l : List String) (lookup : Dict String)
    → get id (active_hosts_of reader l lookup) ≡ or_else (last_host reader id l) (get id lookup)
unfolding active_hosts_of
get-active_hosts_of reader id [] lookup = refl
get-active_hosts_of reader id (p ∷ rest) lookup = elim (Result-cases (parse_node_uri reader p)) [
  | inr (x, unparsed) ↦
      rw (unparsed, active_hosts_of)
        (get-active_hosts_of reader id rest lookup
          ∙ sym (or_else_assoc (last_host reader id rest) none (get id lookup)))
  | inl (u, parsed) ↦
      rw (parsed, active_hosts_of)
        (get-active_hosts_of reader id rest (set (node_id u) (remote_host reader u) lookup)
          ∙ (ap (or_else (last_host reader id rest)) (
                get-set (node_id u) id (remote_host reader u) lookup
                ∙ chosen (node_id u == id) (remote_host reader u) (get id lookup))
              ∙ sym (
                  or_else_assoc (last_host reader id rest)
                    (if node_id u == id then some (remote_host reader u) else none)
                    (get id lookup))))
]
  where
    chosen :
        (b : Bool) (h : String) (o : Option String)
        → (if b then some h else o) ≡ or_else (if b then some h else none) o
    chosen true h o = refl
    chosen false h o = refl

abbrev is_at : UriReader → NodeUri → Option String → Bool
is_at reader u none = false
is_at reader u (some host) = remote_host reader u == host

abbrev at_listed : UriReader → List String → Result NodeUri → Bool
at_listed reader active (err x) = false
at_listed reader active (ok u) = is_at reader u (last_host reader (node_id u) active)

-- A peer whose ID the pool lists, at the host that it lists last.
abbrev pub listed : UriReader → List String → PeerInfo → Bool
listed reader active p = at_listed reader active (parse_node_uri reader (enode_uri p))

abbrev pub reject : {A : Type 0} → (A → Bool) → List A → List A
reject test [] = []
reject test (x ∷ l) = if test x then reject test l else x ∷ reject test l

or_else-none : (o : Option String) → or_else o none ≡ o
or_else-none none = refl
or_else-none (some h) = refl

is_listed-listed :
    (reader : UriReader) (active : List String) (p : PeerInfo)
    → is_listed reader (active_hosts_of reader active []) p ≡ listed reader active p
unfolding is_listed get
is_listed-listed reader active p = elim (Result-cases (parse_node_uri reader (enode_uri p))) [
  | inr (x, unparsed) ↦ rw (unparsed, is_listed) refl
  | inl (u, parsed) ↦
      let found =
        get-active_hosts_of reader (node_id u) active []
        ∙ or_else-none (last_host reader (node_id u) active) in
      rw (parsed, is_listed) (ap (is_at reader u) found)
]

mismatched-reject :
    (reader : UriReader) (active : List String) (peers : List PeerInfo)
    → mismatched reader (active_hosts_of reader active []) peers
      ≡ map enode_uri (reject (listed reader active) peers)
unfolding mismatched
mismatched-reject reader active [] = refl
mismatched-reject reader active (p ∷ peers) =
    let ih = mismatched-reject reader active peers in
    let same = is_listed-listed reader active p in
    elim (Bool-cases (listed reader active p)) [
      | inl kept ↦ rw (same, kept) ih
      | inr dropped ↦ rw (same, dropped) (ap (λ l. enode_uri p ∷ l) ih)
    ]

-- With strict peers, the node is told to drop exactly those of its peers that the pool does not list at
-- their host, whatever the pool calls invalid; otherwise those that the pool calls invalid.
pub to_disconnect_lem :
    (settings : Settings) (peers : List PeerInfo) (update : PoolUpdate)
    → to_disconnect settings peers update ≡ (
        if settings.strict_peers
        then map enode_uri (reject (listed settings.reader update.active_peers) peers)
        else update.invalid_peers)
unfolding to_disconnect
to_disconnect_lem settings peers update =
    ap (λ l. if settings.strict_peers then l else update.invalid_peers)
      (mismatched-reject settings.reader update.active_peers peers)
