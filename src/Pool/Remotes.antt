-- ===== src/Pool/Remotes.antt =====
-- The connections of hosts: the two maps that `connect` and `CloseRemote` of pool/service.go keep.
use vipnode.Base.{String, ◌≡◌, ◌≢◌, refl, none, some, arith, option_keeps, eq_iff, ap, ◌∙◌}
use vipnode.Base.Exec.{Result}
use vipnode.Dict.{get, set, get-set, get-remove, get_self, get_removed}
use vipnode.Pool.State.{Pool, Service, save_remote, close_remote}

module _ {S : Type 0} where
  -- The connection of each host leads back to it.
  pub record IsLinked (p : Pool S) : Type 0 where
    pub back :
        (id : String) (remote : Service)
        → get id p.remote_hosts ≡ some remote
        → get remote p.remote_node_lookup ≡ some id

  -- A connection that no other host has is saved.
  save_remote-IsLinked :
      (id : String) (remote : Service) (p : Pool S)
      → ((other : String) → get other p.remote_hosts ≡ some remote → other ≡ id)
      → IsLinked p
      → IsLinked (save_remote id remote p).1
  unfolding save_remote
  save_remote-IsLinked id remote p alone v = record {
    back = λ j r h. ground (
      arith,
      get-set id j remote p.remote_hosts,
      get-set remote r id p.remote_node_lookup,
      eq_iff id j,
      eq_iff remote r,
      v.back j r,
      alone j,
    );
  }

  -- What closing a connection leaves.
  abbrev pub Closed : Service → Pool S → Pool S → Type 0
  Closed remote p p' =
      IsLinked p'
      × ((id : String) → get id p'.remote_hosts ≢ some remote)
      × ((id : String)
          → get remote p.remote_node_lookup ≢ some id
          → get id p'.remote_hosts ≡ get id p.remote_hosts)

  -- Closing a connection, where the connection of each host leads back to it: so it does afterwards,
  -- no host has the closed connection any more, and every host but the one that this registered last
  -- keeps its own.
  pub close_remote_lem :
      (remote : Service) (p : Pool S)
      → IsLinked p
      → let p' = (close_remote remote p).1 in Closed remote p p'
  unfolding close_remote
  close_remote_lem remote p v =
      option_keeps (λ (r : Result (Unit {0}) × Pool S). Closed remote p r.1)
        (get remote p.remote_node_lookup) _ _
        (λ e. (v, (λ id h. ground (arith, e, v.back id remote h)), λ id other. refl))
        (λ node_id e. (
          record {
            back = λ j r h. ground (
              arith,
              h,
              e,
              get-remove node_id j p.remote_hosts,
              get-remove remote r p.remote_node_lookup,
              eq_iff node_id j,
              eq_iff remote r,
              v.back j r,
            );
          },
          (λ id h. ground (
            arith,
            h,
            e,
            get-remove node_id id p.remote_hosts,
            eq_iff node_id id,
            v.back id remote,
          )),
          (λ id other. ground (
            arith,
            get-remove node_id id p.remote_hosts,
            eq_iff node_id id,
            (λ (same : node_id ≡ id). other (e ∙ ap some same)),
          )),
        ))

  -- A host that connects again before its old connection is closed has no connection once that is
  -- closed, though the new one is open and leads to it.
  pub stale_close :
      (id : String) (old new : Service) (p : Pool S)
      → old ≢ new
      → let p' = (close_remote old (save_remote id new (save_remote id old p).1).1).1 in
        (get id p'.remote_hosts ≡ none) × (get new p'.remote_node_lookup ≡ some id)
  unfolding close_remote save_remote
  stale_close id old new p distinct =
      let found : get old (set new id (set old id p.remote_node_lookup)) ≡ some id = ground (
        arith,
        get-set new old id (set old id p.remote_node_lookup),
        eq_iff new old,
        get_self old id p.remote_node_lookup,
      ) in
      rw (found, close_remote)
        (
          get_removed id _,
          ground (
            arith,
            get-remove old new (set new id (set old id p.remote_node_lookup)),
            eq_iff old new,
            get_self new id (set old id p.remote_node_lookup),
          ),
        )
