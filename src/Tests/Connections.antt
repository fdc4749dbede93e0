-- ===== src/Tests/Connections.antt =====
-- The connections of hosts: instances.
use vipnode.Base.{arith, eq_iff, ◌≡◌, some, none}
use vipnode.Dict.{get}
use vipnode.Pool.State.{close_remote, save_remote}
use vipnode.Pool.Remotes.{IsLinked, Closed, close_remote_lem, stale_close}
use vipnode.Tests.Pools.{pool}

pool-IsLinked : IsLinked pool
unfolding get
pool-IsLinked = record {
  back = λ id r h. ground (arith, h, eq_iff "near" id, eq_iff "connection" r);
}

close_remote_lem_example : Closed "connection" pool (close_remote "connection" pool).1
close_remote_lem_example = close_remote_lem "connection" pool pool-IsLinked

stale_close_example :
    let p = (close_remote "old" (save_remote "near" "new" (save_remote "near" "old" pool).1).1).1 in
    (get "near" p.remote_hosts ≡ none) × (get "new" p.remote_node_lookup ≡ some "near")
stale_close_example =
    stale_close "near" "old" "new" pool (λ e. ground (arith, eq_iff "old" "new", e))
