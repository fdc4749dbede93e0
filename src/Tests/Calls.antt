-- ===== src/Tests/Calls.antt =====
-- The waiting calls of a connection: instances.
use vipnode.Base.{◌≤◌, refl, String, [], ◌∷◌, List, length, arith}
use vipnode.Int.{pos}
use vipnode.Clock.{Time}
use vipnode.Jsonrpc.{Remote}
use vipnode.Jsonrpc.Pending.{get_chans, get_chans_bounded}

abbrev remote : Remote
remote = record {
  pending_limit = 2;
  pending_discard = 1;
  pending = ("1", record { msg_chan = 0; timestamp = pos 10 }) ∷ [];
  made_chans = 1;
}

abbrev calls : List (Time × String)
calls = (pos 20, "2") ∷ (pos 30, "3") ∷ []

get_chans_bounded_example : length (get_chans calls remote).pending ≤ 2
get_chans_bounded_example = get_chans_bounded calls remote 1 0 refl refl (omega arith)
