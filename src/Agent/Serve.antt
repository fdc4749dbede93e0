-- ===== src/Agent/Serve.antt =====
-- The loop of `Start` in agent/agent.go: updates until one fails or the agent is stopped.
use vipnode.Base.{false, Option, none, some, List, [], ◌∷◌}
use vipnode.Base.Exec.{Result, ok, err}
use vipnode.Ethnode.{EthNode}
use vipnode.Agent.{PoolClient, Settings, Agent, update_peers}

-- What the loop wakes up for.
pub data Wake : Type 0 where
  tick stop : Wake

module _ {W : Type 0} (node : EthNode W) (pool : PoolClient W) (settings : Settings) where
  -- `serveUpdates`: the result, if there is one yet, and the state.
  unfoldable pub serve : List Wake → Agent W → Option (Result (Unit {0})) × Agent W
  serve [] a = (none, a)
  serve (stop ∷ rest) a = (some (ok tt), record a { started = false })
  serve (tick ∷ rest) a =
      let (r, a') = update_peers node pool settings a in
      elim r [ err x ↦ (some (err x), a') | ok _ ↦ serve rest a' ]
