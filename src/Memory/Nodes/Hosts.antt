-- ===== src/Memory/Nodes/Hosts.antt =====
-- `ActiveHosts` of the in-memory store against filtering and cutting the list of nodes.
use vipnode.Base.{
  String, ℕ, zero, suc, ◌≡◌, refl, true, List, [], ◌∷◌, arith, All, if◌then◌else◌, Bool-cases, inl,
  inr, ap, eq_iff, ◌≢◌, take, leb,
}
use vipnode.Base.Exec.{ok, err, panic}
use vipnode.Int.{pos, negsuc, ◌-ℤ◌, int_laws}
use vipnode.Dict.{values}
use vipnode.Clock.{Time, after}
use vipnode.Store.{Node, expire_interval}
use vipnode.Memory.State.{MemNode, MemoryStore}
use vipnode.Memory.Nodes.{scan_hosts, active_hosts, is_candidate}

-- The nodes that pass a test, in order.
abbrev pub candidates : Time → String → List MemNode → List Node
candidates deadline kind [] = []
candidates deadline kind (n ∷ ns) =
    let rest = candidates deadline kind ns in
    if is_candidate deadline kind n.node then n.node ∷ rest else rest

step_below : (k : ℕ) → negsuc k -ℤ pos 1 ≡ negsuc (suc k)
step_below k = grind int_laws

step_down : (k : ℕ) → pos (suc (suc k)) -ℤ pos 1 ≡ pos (suc k)
step_down k = grind int_laws

module _ (deadline : Time) (kind : String) where
  -- A limit below 0 never stops the loop.
  scan_hosts-below :
      (ns : List MemNode) (k : ℕ)
      → scan_hosts deadline kind ns (negsuc k) ≡ candidates deadline kind ns
  unfolding scan_hosts
  scan_hosts-below [] k = refl
  scan_hosts-below (n ∷ ns) k = elim (Bool-cases (is_candidate deadline kind n.node)) [
    | inl good ↦ rw (good, step_below k) (ground (arith, scan_hosts-below ns (suc k)))
    | inr bad ↦ rw bad (scan_hosts-below ns k)
  ]

  scan_hosts-zero :
      (ns : List MemNode) → scan_hosts deadline kind ns (pos 0) ≡ candidates deadline kind ns
  unfolding scan_hosts ◌-ℤ◌
  scan_hosts-zero [] = refl
  scan_hosts-zero (n ∷ ns) = elim (Bool-cases (is_candidate deadline kind n.node)) [
    | inl good ↦ rw good (ap (λ r. n.node ∷ r) (scan_hosts-below ns 0))
    | inr bad ↦ rw bad (scan_hosts-zero ns)
  ]

  scan_hosts-take :
      (ns : List MemNode) (k : ℕ)
      → scan_hosts deadline kind ns (pos (suc k)) ≡ take (suc k) (candidates deadline kind ns)
  unfolding scan_hosts
  scan_hosts-take [] k = refl
  scan_hosts-take (n ∷ ns) zero = elim (Bool-cases (is_candidate deadline kind n.node)) [
    | inl good ↦ rw good (unfold ◌-ℤ◌ in refl)
    | inr bad ↦ rw bad (scan_hosts-take ns zero)
  ]
  scan_hosts-take (n ∷ ns) (suc k) = elim (Bool-cases (is_candidate deadline kind n.node)) [
    | inl good ↦ rw (good, step_down k) (ground (arith, scan_hosts-take ns k))
    | inr bad ↦ rw bad (scan_hosts-take ns (suc k))
  ]

-- `ActiveHosts` reads the state only. At limit 0 it returns every node that is a host of the kind
-- (any kind, if empty) and was seen after the deadline; at a limit n above 0 the first n of these in
-- the order of the map, if the runtime makes a slice of capacity n. At a greater limit it panics, as
-- at one below 0.
pub active_hosts_lem :
    (now : Time) (kind : String) (s : MemoryStore)
    → let all = candidates (now -ℤ pos expire_interval) kind (values s.nodes) in
      (active_hosts now kind (pos 0) s ≡ (ok all, s))
      × ((n : ℕ)
          → active_hosts now kind (pos (suc n)) s ≡ (
            if leb (suc n) s.room
                then ok (take (suc n) all)
                else err (panic "makeslice: cap out of range"),
            s,
          ))
      × ((n : ℕ)
          → active_hosts now kind (negsuc n) s ≡ (err (panic "makeslice: cap out of range"), s))
unfolding active_hosts
active_hosts_lem now kind s =
    let deadline = now -ℤ pos expire_interval in
    (
      rw (scan_hosts-zero deadline kind (values s.nodes)) (ground arith),
      λ n. rw (scan_hosts-take deadline kind (values s.nodes) n) (ground arith),
      λ n. ground arith,
    )

-- What was listed at a limit above 0.
pub active_hosts-listed :
    (now : Time) (kind : String) (n : ℕ) (s : MemoryStore) (nodes : List Node)
    → (active_hosts now kind (pos (suc n)) s).0 ≡ ok nodes
    → take (suc n) (candidates (now -ℤ pos expire_interval) kind (values s.nodes)) ≡ nodes
active_hosts-listed now kind n s nodes h =
    let (_, cut, _) = active_hosts_lem now kind s in ground (arith, cut n, h)

-- Each node that is a candidate is a host seen after the deadline, of the kind that is asked for.
pub candidates-All :
    (deadline : Time) (kind : String) (ns : List MemNode)
    → All
        (λ n.
          (n.is_host ≡ true) × (after n.last_seen deadline ≡ true) × (kind ≢ "" → n.kind ≡ kind))
        (candidates deadline kind ns)
unfolding is_candidate
candidates-All deadline kind [] = tt
candidates-All deadline kind (n ∷ ns) =
    ground (arith, candidates-All deadline kind ns, eq_iff kind "", eq_iff n.node.kind kind)
