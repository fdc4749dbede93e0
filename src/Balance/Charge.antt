-- ===== src/Balance/Charge.antt =====
-- What an update of a client moves between balances.
use vipnode.Base.{
  ap, if_keeps, ◌||◌, ◌+◌, ℕ, arith, inl, inr, Bool-cases, if◌then◌else◌, zero, suc, String, ◌≡◌,
  refl, true, false, none, some, List, [], ◌∷◌, length, subst, sym, option_keeps, ◌∙◌, All,
}
use vipnode.Base.Exec.{Exec, Result, ok, err}
use vipnode.Int.{ℤ, pos, ◌+ℤ◌, ◌-ℤ◌, leb_ℤ, eqb_ℤ, int_laws}
use vipnode.Clock.{Time}
use vipnode.Store.{Node, Balance}
use vipnode.Store.Driver.{Driver, CreditLaws}
use vipnode.Balance.{
  PayPerInterval, credit_peers, charge_node, charge, settle, too_low, on_update, interval_credit,
}

-- n times c
unfoldable pub times : ℕ → ℤ → ℤ
times zero c = pos 0
times (suc n) c = c +ℤ times n c

module _ {S : Type 0} (store : Driver S) (laws : CreditLaws store) where
  open laws use {
    total, is_registered, add_registered, registered-add, get_registered, credit, shares,
    credit-add, shares-add,
  }

  -- Every peer is registered.
  abbrev pub AllRegistered : List Node → S → Type 0
  AllRegistered peers s = All (λ p. is_registered p.id s ≡ true) peers

  AllRegistered-add :
      (peers : List Node) (id : String) (c : ℤ) (s : S)
      → AllRegistered peers s
      → AllRegistered peers (store.add_node_balance id c s).1
  AllRegistered-add [] id c s h = tt
  AllRegistered-add (p ∷ peers) id c s h =
      (registered-add id p.id c s ∙ h.0, AllRegistered-add peers id c s h.1)

  credit_peers-sum :
      (c : ℤ) (peers : List Node) (acc : ℤ) (s : S)
      → (credit_peers store c peers acc s).0 ≡ acc +ℤ times (length peers) c
  unfolding credit_peers times
  credit_peers-sum c [] acc s = grind int_laws
  credit_peers-sum c (p ∷ peers) acc s =
      grind (int_laws, credit_peers-sum c peers (acc +ℤ c) (store.add_node_balance p.id c s).1)

  credit_peers-total :
      (c : ℤ) (peers : List Node) (acc : ℤ) (s : S)
      → AllRegistered peers s
      → total (credit_peers store c peers acc s).1 ≡ total s +ℤ times (length peers) c
  unfolding credit_peers times
  credit_peers-total c [] acc s h = grind int_laws
  credit_peers-total c (p ∷ peers) acc s h = grind (
    int_laws,
    (add_registered p.id c s h.0).1,
    credit_peers-total c peers (acc +ℤ c) (store.add_node_balance p.id c s).1
        (AllRegistered-add peers p.id c s h.1),
  )

  registered-credit_peers :
      (c : ℤ) (peers : List Node) (acc : ℤ) (j : String) (s : S)
      → is_registered j (credit_peers store c peers acc s).1 ≡ is_registered j s
  unfolding credit_peers
  registered-credit_peers c [] acc j s = refl
  registered-credit_peers c (p ∷ peers) acc j s =
      registered-credit_peers c peers (acc +ℤ c) j (store.add_node_balance p.id c s).1
      ∙ registered-add p.id j c s

  -- The number of the peers that share a balance with a node.
  abbrev pub sharing : String → S → List Node → ℕ
  sharing j s [] = 0
  sharing j s (p ∷ peers) = (if shares p.id j s then 1 else 0) + sharing j s peers

  sharing-add :
      (j id : String) (c : ℤ) (s : S) (peers : List Node)
      → sharing j (store.add_node_balance id c s).1 peers ≡ sharing j s peers
  sharing-add j id c s [] = refl
  sharing-add j id c s (p ∷ peers) =
      ground (arith, sharing-add j id c s peers, shares-add id p.id j c s)

  shares-credit_peers :
      (c : ℤ) (peers : List Node) (acc : ℤ) (i j : String) (s : S)
      → shares i j (credit_peers store c peers acc s).1 ≡ shares i j s
  unfolding credit_peers
  shares-credit_peers c [] acc i j s = refl
  shares-credit_peers c (p ∷ peers) acc i j s =
      shares-credit_peers c peers (acc +ℤ c) i j (store.add_node_balance p.id c s).1
      ∙ shares-add p.id i j c s

  -- Each node gains the credit once for each peer that it shares a balance with.
  credit_peers-credit :
      (c : ℤ) (peers : List Node) (acc : ℤ) (j : String) (s : S)
      → AllRegistered peers s
      → credit j (credit_peers store c peers acc s).1 ≡ credit j s +ℤ times (sharing j s peers) c
  unfolding credit_peers times
  credit_peers-credit c [] acc j s h = grind int_laws
  credit_peers-credit c (p ∷ peers) acc j s h =
      let s' = (store.add_node_balance p.id c s).1 in
      let added = credit-add p.id j c s h.0 in
      let same = sharing-add j p.id c s peers in
      let ih = credit_peers-credit c peers (acc +ℤ c) j s' (AllRegistered-add peers p.id c s h.1) in
      elim (Bool-cases (shares p.id j s)) [
        | inl shared ↦ grind (int_laws, ih, added, same, shared)
        | inr apart ↦ grind (int_laws, ih, added, same, apart)
      ]

  charge_node-total :
      (id : String) (amount : ℤ) (s : S)
      → is_registered id s ≡ true
      → (b : Balance) × (let s' = (store.add_node_balance id (pos 0 -ℤ amount) s).1 in
          (charge_node store id amount s ≡ (ok b, s'))
          × (store.get_node_balance id s' ≡ (ok b, s'))
          × (total s' ≡ total s -ℤ amount))
  unfolding charge_node
  charge_node-total id amount s h =
      let s' = (store.add_node_balance id (pos 0 -ℤ amount) s).1 in
      let (b, read, _) = get_registered id s' (registered-add id id (pos 0 -ℤ amount) s ∙ h) in
      let (added, moved) = add_registered id (pos 0 -ℤ amount) s h in
      (b, (rw (added, read, read), read, grind (int_laws, moved)))

  debited :
      (id j : String) (amount : ℤ) (s : S)
      → is_registered id s ≡ true
      → credit j (store.add_node_balance id (pos 0 -ℤ amount) s).1
        ≡ credit j s -ℤ (if shares id j s then amount else pos 0)
  debited id j amount s h =
      let moved = credit-add id j (pos 0 -ℤ amount) s h in
      elim (Bool-cases (shares id j s)) [
        | inl shared ↦ grind (int_laws, moved, shared)
        | inr apart ↦ grind (int_laws, moved, apart)
      ]

  -- The outcome of an update that began at `s`, by the credit for each peer.
  abbrev pub Settles : PayPerInterval → ℤ → Node → List Node → S → Result Balance × S → Type 0
  Settles b each node peers s (ok balance, s') =
      (too_low b (times (length peers) each) ≡ none)
      × (total s' ≡ total s)
      × (store.get_node_balance node.id s' ≡ (ok balance, s'))
      × ((j : String)
          → credit j s'
            ≡ credit j s
              +ℤ times (sharing j s peers) each
              -ℤ (if shares node.id j s then times (length peers) each else pos 0))
  Settles b each node peers s (err e, s') =
      (too_low b (times (length peers) each) ≡ some e)
      × (total s' ≡ total s +ℤ times (length peers) each)
      × ((j : String) → credit j s' ≡ credit j s +ℤ times (sharing j s peers) each)

  charge-Settles :
      (b : PayPerInterval) (each : ℤ) (node : Node) (peers : List Node) (s : S)
      → is_registered node.id s ≡ true
      → AllRegistered peers s
      → Settles b each node peers s (charge store b each node peers s)
  unfolding charge settle
  charge-Settles b each node peers s h all =
      let loop = credit_peers store each peers (pos 0) s in
      let amount = times (length peers) each in
      let sum : loop.0 ≡ amount = grind (int_laws, credit_peers-sum each peers (pos 0) s) in
      let moved = credit_peers-total each peers (pos 0) s all in
      let gained = λ (j : String). credit_peers-credit each peers (pos 0) j s all in
      let known = registered-credit_peers each peers (pos 0) node.id s ∙ h in
      let (balance, done) = charge_node-total node.id amount loop.1 known in
      let paid = λ (j : String).
        debited node.id j amount loop.1 known
        ∙ (ap (λ x. x -ℤ (if shares node.id j loop.1 then amount else pos 0)) (gained j)
            ∙ ap
                (λ t. credit j s +ℤ times (sharing j s peers) each -ℤ (if t then amount else pos 0))
                (shares-credit_peers each peers (pos 0) node.id j s)) in
      subst (λ t. Settles b each node peers s (settle store b node.id t loop.1)) (sym sum)
        (option_keeps (Settles b each node peers s) (too_low b amount)
          (charge_node store node.id amount loop.1) (λ e. (err e, loop.1))
          (λ fine. rw done.0 (fine, grind (int_laws, done.2, moved), done.1, paid))
          (λ e low. (low, moved, gained)))

  -- An update of a registered client whose peers are all registered, at a positive interval, and a
  -- rate and a credit that are not 0, has one of two outcomes. It succeeds, exactly if the sum for the
  -- peers is not below the minimum, and returns the client's new balance: each node has gained the credit
  -- once for each peer that it shares a balance with, those that share the client's have paid the sum, and
  -- the total is what it was. Or it fails: each node has gained the same, nobody has paid, and the total
  -- has grown by the sum.
  pub on_update-Settles :
      (b : PayPerInterval) (now : Time) (node : Node) (peers : List Node) (s : S)
      → node.is_host ≡ false
      → leb_ℤ b.interval (pos 0) ≡ false
      → eqb_ℤ b.credit_per_interval (pos 0) ≡ false
      → eqb_ℤ (interval_credit b now node.last_seen) (pos 0) ≡ false
      → is_registered node.id s ≡ true
      → AllRegistered peers s
      → Settles b
          (interval_credit b now node.last_seen)
          node
          peers
          s
          (on_update store b now node peers s)
  unfolding on_update
  on_update-Settles b now node peers s client interval rate earned h all =
      simp (client, interval, rate, earned)
        (charge-Settles b (interval_credit b now node.last_seen) node peers s h all)

  -- A successful update of a registered node, host or client, at whatever settings, leaves the total
  -- as it was.
  pub on_update-total :
      (b : PayPerInterval) (now : Time) (node : Node) (peers : List Node) (s : S)
      (balance : Balance)
      → is_registered node.id s ≡ true
      → AllRegistered peers s
      → (on_update store b now node peers s).0 ≡ ok balance
      → total (on_update store b now node peers s).1 ≡ total s
  unfolding on_update
  on_update-total b now node peers s balance h all =
      let each = interval_credit b now node.last_seen in
      let (held, reads, _) = get_registered node.id s h in
      let read : Keeps (store.get_node_balance node.id) = λ _. ap (λ r. total r.1) reads in
      if_keeps Keeps node.is_host _ _ (λ _. read)
        (λ _.
          if_keeps Keeps (leb_ℤ b.interval (pos 0) || eqb_ℤ b.credit_per_interval (pos 0)) _ _
            (λ _ bad. cc)
            (λ _.
              if_keeps Keeps (eqb_ℤ each (pos 0)) _ _ (λ _. read)
                (λ _ done.
                  settled (charge store b each node peers s)
                    (charge-Settles b each node peers s h all) done)))
    where
      Keeps : Exec S Balance → Type 0
      Keeps m = (m s).0 ≡ ok balance → total (m s).1 ≡ total s

      settled :
          (r : Result Balance × S)
          → Settles b (interval_credit b now node.last_seen) node peers s r
          → r.0 ≡ ok balance
          → total r.1 ≡ total s
      settled (ok x, s') ok_case e = ok_case.1
      settled (err x, s') low e = cc
