-- ===== src/Tests/Statuses.antt =====
-- The status of a pool: an instance.
use vipnode.Base.{none, some, ◌*◌}
use vipnode.Base.Exec.{ok}
use vipnode.Int.{pos}
use vipnode.Clock.{second}
use vipnode.Memory.State.{MemoryStore}
use vipnode.Memory.Driver.{memory_driver}
use vipnode.Status.{PoolStatus, Dashboard, Clocks}
use vipnode.Tests.Fixtures.{now, state}

abbrev service : PoolStatus MemoryStore
service = record {
  store = memory_driver;
  get_total_deposit = some (λ t. ok (pos 9));
  time_started = pos 0;
  version = "test";
  cache_duration = pos (60 * second);
}

abbrev clocks : Clocks
clocks = record { updated = now; counted = now; deposited = now; listed = now }

abbrev dashboard : Dashboard MemoryStore
dashboard = record { stored = state; cached_resp = none; next = 0 }
