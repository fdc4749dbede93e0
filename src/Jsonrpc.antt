-- ===== src/Jsonrpc.antt =====
-- jsonrpc2/remote.go and jsonrpc2/pending.go: the calls of a connection that wait for an answer.
pub mod Pending
pub mod Errors
pub mod Server
pub mod Listed
pub mod Connection
pub mod Reflected
pub mod Http
use vipnode.Base.{
  ℕ, zero, suc, ◌-◌, String, Bool, true, false, ◌&&◌, ◌||◌, not, Option, none, some, List, [], ◌∷◌,
  ltb, leb, length, take, map, if◌then◌else◌,
}
use vipnode.Int.{ℤ}
use vipnode.Dict.{Dict, get, set, remove}
use vipnode.Clock.{Time, before}

-- A channel is the number that it was made with; what the channels hold stands in
-- Jsonrpc/Connection.antt. A limit or a number to discard below 0 acts as 0.
pub record PendingMsg : Type 0 where
  pub msg_chan : ℕ
  pub timestamp : Time

-- `pendingItem`
pub record PendingItem : Type 0 where
  pub key : String
  pub timestamp : Time

pub record Remote : Type 0 where
  pub pending_limit : ℕ
  pub pending_discard : ℕ
  pub pending : Dict PendingMsg
  pub made_chans : ℕ

-- `sort.Sort` by the time, as an insertion sort: among equal times the order is one of those that Go
-- may choose.
unfoldable pub insert : PendingItem → List PendingItem → List PendingItem
insert x [] = x ∷ []
insert x (y ∷ ys) =
    let rest = insert x ys in if before y.timestamp x.timestamp then y ∷ rest else x ∷ y ∷ ys

unfoldable pub sort : List PendingItem → List PendingItem
sort [] = []
sort (x ∷ xs) = insert x (sort xs)

unfoldable pub items : Dict PendingMsg → List PendingItem
items [] = []
items ((key, p) ∷ m) = record { key = key; timestamp = p.timestamp } ∷ items m

-- `pendingOldest`
unfoldable pub pending_oldest : Dict PendingMsg → ℕ → List PendingItem
unfolding items sort insert
pending_oldest pending num = take num (sort (items pending))

unfoldable pub delete_items : List PendingItem → Dict PendingMsg → Dict PendingMsg
delete_items [] pending = pending
delete_items (x ∷ xs) pending = delete_items xs (remove x.key pending)

-- `cleanPending`
unfoldable pub clean_pending : ℕ → Remote → Remote
clean_pending num r = record r { pending = delete_items (pending_oldest r.pending num) r.pending }

abbrev pub is_full : Remote → Bool
is_full r =
    ltb 0 r.pending_limit && leb r.pending_limit (length r.pending) && ltb 0 r.pending_discard

abbrev pub make_room : Remote → Remote
make_room r = if is_full r then clean_pending r.pending_discard r else r

-- The channel of the key, which is made if it is missing.
abbrev pub add_chan : Time → String → Remote → ℕ × Remote
add_chan now key r = elim (get key r.pending) [
  | some p ↦ (p.msg_chan, r)
  | none ↦ (
    r.made_chans,
    record r {
      pending = set key (record { msg_chan = r.made_chans; timestamp = now }) r.pending;
      made_chans = suc r.made_chans;
    },
  )
]

-- `getPendingChan`
unfoldable pub get_pending_chan : Time → String → Remote → ℕ × Remote
get_pending_chan now key r = add_chan now key (make_room r)
