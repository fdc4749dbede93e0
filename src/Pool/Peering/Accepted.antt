-- ===== src/Pool/Peering/Accepted.antt =====
-- Which hosts `requestHosts` returns.
use vipnode.Base.{
  ℕ, zero, suc, ◌+◌, ◌≤◌, ◌<◌, subst, ap, String, ◌≡◌, refl, none, some, List, [], ◌∷◌, All, length,
  arith, option_keeps,
}
use vipnode.Base.Exec.{ok}
use vipnode.Dict.{Dict, get}
use vipnode.Store.{Node}
use vipnode.Pool.State.{Setup, Outside, Pool, Service, HostService}
use vipnode.Pool.Peering.{
  with_remotes, pick, arrivals, whitelist_call, collect, conclude, whitelist,
}

All-pick :
    {A : Type 0} (P : A → Type 0) (k : ℕ) (x : A) (xs : List A)
    → P x
    → All P xs
    → P (pick k x xs).0 × All P (pick k x xs).1
All-pick P zero x xs h hs = (h, hs)
All-pick P (suc k) x [] h hs = (h, hs)
All-pick P (suc k) x (y ∷ ys) h hs = let ih = All-pick P k y ys hs.0 hs.1 in (ih.0, (h, ih.1))

All-arrivals :
    {A : Type 0} (P : A → Type 0) (ks : List ℕ) (xs : List A) → All P xs → All P (arrivals ks xs)
unfolding arrivals
All-arrivals P [] xs h = h
All-arrivals P (k ∷ ks) [] h = tt
All-arrivals P (k ∷ ks) (x ∷ xs) h =
    let picked = All-pick P k x xs h.0 h.1 in (picked.0, All-arrivals P ks (pick k x xs).1 picked.1)

length-pick : {A : Type 0} (k : ℕ) (x : A) (xs : List A) → length (pick k x xs).1 ≡ length xs
length-pick zero x xs = refl
length-pick (suc k) x [] = refl
length-pick (suc k) x (y ∷ ys) = omega (arith, length-pick k y ys)

length-arrivals : {A : Type 0} (ks : List ℕ) (xs : List A) → length (arrivals ks xs) ≡ length xs
unfolding arrivals
length-arrivals [] xs = refl
length-arrivals (k ∷ ks) [] = refl
length-arrivals (k ∷ ks) (x ∷ xs) =
    omega (arith, length-arrivals ks (pick k x xs).1, length-pick k x xs)

-- A candidate that may be called: it is not skipped, and has the connection.
abbrev pub IsCallable : Dict (Unit {0}) → Dict Service → HostService → Type 0
IsCallable skip hosts (node, remote) = (get node.id skip ≡ none) × (get node.id hosts ≡ some remote)

with_remotes-All :
    (P : Node → Type 0) (skip : Dict (Unit {0})) (hosts : Dict Service) (nodes : List Node)
    → All P nodes
    → All (λ h. P h.0 × IsCallable skip hosts h) (with_remotes skip hosts nodes)
unfolding with_remotes
with_remotes-All P skip hosts [] h = tt
with_remotes-All P skip hosts (n ∷ ns) h =
    let Q = λ (h : HostService). P h.0 × IsCallable skip hosts h in
    let rest = with_remotes skip hosts ns in
    let ih = with_remotes-All P skip hosts ns h.1 in
    option_keeps (All Q) (get n.id skip)
      (elim (get n.id hosts) [ none ↦ rest | some remote ↦ (n, remote) ∷ rest ]) (λ _. rest)
      (λ free.
        option_keeps (All Q) (get n.id hosts) rest (λ remote. (n, remote) ∷ rest) (λ _. ih)
          (λ remote e. ((h.0, (free, e)), ih)))
      (λ _ _. ih)

length-with_remotes :
    (skip : Dict (Unit {0})) (hosts : Dict Service) (nodes : List Node)
    → length (with_remotes skip hosts nodes) ≤ length nodes
unfolding with_remotes
length-with_remotes skip hosts [] = omega arith
length-with_remotes skip hosts (n ∷ ns) = ground (arith, length-with_remotes skip hosts ns)

module _ (out : Outside) (node_id : String) where
  -- A returned host passed the tests and answered the call without an error.
  abbrev pub HasAccepted : (Node → Type 0) → Dict (Unit {0}) → Dict Service → Node → Type 0
  HasAccepted P skip hosts node =
      (remote : Service) × P node
      × (get node.id skip ≡ none)
      × (get node.id hosts ≡ some remote)
      × (out.answer (whitelist_call out node_id (node, remote)) ≡ none)

  collect-All :
      (P : Node → Type 0) (skip : Dict (Unit {0})) (hosts : Dict Service) (hs : List HostService)
      → All (λ h. P h.0 × IsCallable skip hosts h) hs
      → All (HasAccepted P skip hosts) (collect out node_id hs).0
  unfolding collect
  collect-All P skip hosts [] a = tt
  collect-All P skip hosts ((n, remote) ∷ hs) a =
      let rest = collect out node_id hs in
      let ih = collect-All P skip hosts hs a.1 in
      option_keeps (λ (r : List Node × List String). All (HasAccepted P skip hosts) r.0)
        (out.answer (whitelist_call out node_id (n, remote))) (n ∷ rest.0, rest.1)
        (λ e. (rest.0, e ∷ rest.1)) (λ fine. ((remote, a.0.0, a.0.1.0, a.0.1.1, fine), ih))
        (λ e _. ih)

  length-collect :
      (hs : List HostService)
      → length (collect out node_id hs).0 + length (collect out node_id hs).1 ≡ length hs
  unfolding collect
  length-collect [] = refl
  length-collect (h ∷ hs) = ground (arith, length-collect hs)

-- What `conclude` returns is the accepted hosts, if it returns any; it never returns none.
conclude-ok :
    (tried : ℕ) (c : List Node × List String) (hosts : List Node)
    → conclude tried c ≡ ok hosts
    → (c.0 ≡ hosts) × (0 < length hosts)
unfolding conclude
conclude-ok tried (n ∷ ns, errors) hosts h = ground arith
conclude-ok tried ([], e ∷ errors) hosts h = cc
conclude-ok tried ([], []) hosts h = cc

module _ {S : Type 0} (setup : Setup S) (out : Outside) where
  -- If the candidates are called, each host that is returned has the property `P` of the candidates,
  -- is neither the node itself nor one of its peers, has a connection and has accepted the node; at
  -- least one is returned, and no more than there are candidates.
  pub whitelist-HasAccepted :
      (P : Node → Type 0) (node_id : String) (skip : Dict (Unit {0})) (nodes : List Node)
      (p : Pool S) (hosts : List Node)
      → All P nodes
      → (whitelist setup out node_id skip nodes p).0 ≡ ok hosts
      → All (HasAccepted out node_id P skip p.remote_hosts) hosts
        × (0 < length hosts)
        × (length hosts ≤ length nodes)
  unfolding whitelist
  whitelist-HasAccepted P node_id skip nodes p hosts all e =
      let remotes = with_remotes skip p.remote_hosts nodes in
      let answered = arrivals out.schedule remotes in
      let c = collect out node_id answered in
      let (same, some_host) = conclude-ok (length nodes) c hosts e in
      (
        subst (λ l. All (HasAccepted out node_id P skip p.remote_hosts) l) same
            (collect-All out node_id P skip p.remote_hosts answered (
              All-arrivals (λ h. P h.0 × IsCallable skip p.remote_hosts h) out.schedule remotes
                (with_remotes-All P skip p.remote_hosts nodes all))),
        some_host,
        omega (
          arith,
          ap length same,
          length-collect out node_id answered,
          length-arrivals out.schedule remotes,
          length-with_remotes skip p.remote_hosts nodes,
        ),
      )
