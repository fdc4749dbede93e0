-- ===== src/Status.antt =====
-- pool/status/status.go: the public status of a pool, which is cached.
pub mod Cached
use Prim.Native.String.{len, slice}
use vipnode.Base.{
  ℕ, suc, String, Bool, true, false, Option, none, some, List, [], ◌∷◌, ltb, nat_eq, length,
  if◌then◌else◌,
}
use vipnode.Base.Exec.{Result, ok, err, Error}
use vipnode.Int.{ℤ, pos, ◌+ℤ◌}
use vipnode.Clock.{Time, after}
use vipnode.Store.{Node}
use vipnode.Store.Stats.{Stats}
use vipnode.Store.Driver.{Driver}

-- `Host`
pub record HostView : Type 0 where
  pub short_id : String
  pub last_seen : Time
  pub kind : String
  pub block_number : ℕ
  pub num_peers : ℕ
  pub node_version : String
  pub vipnode_version : String

-- `nodeHost`
unfoldable pub node_host : Node → ℕ → HostView
node_host n num_peers = record {
  short_id = if ltb 12 (len n.id) then slice n.id 0 12 else n.id;
  last_seen = n.last_seen;
  kind = n.kind;
  block_number = n.block_number;
  num_peers = num_peers;
  node_version = n.node_version;
  vipnode_version = n.vipnode_version;
}

pub record StatusResponse : Type 0 where
  pub time_updated : Time
  pub time_started : Time
  pub version : String
  pub active_hosts : List HostView
  pub stats : Option Stats
  pub error : Option Error

-- The settings of `PoolStatus`; the call of `GetTotalDeposit` takes the clock.
pub record PoolStatus (S : Type 0) : Type 0 where
  pub store : Driver S
  pub get_total_deposit : Option (Time → Result ℤ)
  pub time_started : Time
  pub version : String
  pub cache_duration : ℤ

-- A response with its number: the pointers of two responses differ exactly if their numbers do.
abbrev pub Cell : Type 0
Cell = Option (ℕ × StatusResponse)

pub record Dashboard (S : Type 0) : Type 0 where
  pub stored : S
  pub cached_resp : Cell
  -- the number of the next response
  pub next : ℕ

-- The clock as one refresh reads it: for the response, the statistics, the deposits and the hosts.
pub record Clocks : Type 0 where
  pub updated : Time
  pub counted : Time
  pub deposited : Time
  pub listed : Time

-- A Go result beside an error; either may be missing.
abbrev pub Reply : Type 0
Reply = Option StatusResponse × Option Error

-- `s.cachedResp != cachedResp` of pointers, negated.
abbrev pub same_cell : Cell → Cell → Bool
same_cell none none = true
same_cell (some (i, r)) (some (j, r')) = nat_eq i j
same_cell none (some x) = false
same_cell (some x) none = false

abbrev pub response_of : Cell → Option StatusResponse
response_of none = none
response_of (some (i, r)) = some r

module _ {S : Type 0} (p : PoolStatus S) where
  -- The loop over the active hosts: the views so far, and the error that ended it.
  unfoldable pub view_hosts : List Node → S → List HostView × Option Error × S
  view_hosts [] s = ([], none, s)
  view_hosts (n ∷ nodes) s =
      let (r, s') = p.store.node_peers n.id s in
      let (views, error, s'') = view_hosts nodes s' in
      elim r [
        | err e ↦ ([], some e, s')
        | ok peers ↦ (node_host n (length peers) ∷ views, error, s'')
      ]

  abbrev pub failed : StatusResponse → Error → Reply
  failed r e = (some (record r { error = some e }), some e)

  -- `getStatus` from the call of `ActiveHosts` on.
  unfoldable pub list_status : Time → StatusResponse → S → Reply × S
  list_status now r s =
      let (nodes, s') = p.store.active_hosts now "" (pos 0) s in
      elim nodes [
        | err e ↦ (failed r e, s')
        | ok hosts ↦
            let (views, error, s'') = view_hosts hosts s' in
            elim error [
              | some e ↦ (failed (record r { active_hosts = views }) e, s'')
              | none ↦ ((some (record r { active_hosts = views }), none), s'')
            ]
      ]

  -- The statistics, with the deposits of the getter if there is one.
  unfoldable pub deposit_stats : Time → Stats → Result Stats
  deposit_stats now stats = elim p.get_total_deposit [
    | none ↦ ok stats
    | some getter ↦ elim (getter now) [
      | err e ↦ err e
      | ok total ↦ ok (record stats { total_deposit = total })
    ]
  ]

  abbrev pub blank : Time → StatusResponse
  blank now = record {
    time_updated = now;
    time_started = p.time_started;
    version = p.version;
    active_hosts = [];
    stats = none;
    error = none;
  }

  -- `getStatus`
  unfoldable pub get_status : Clocks → S → Reply × S
  get_status clocks s =
      let (stats, s') = p.store.stats clocks.counted s in
      elim stats [
        | err e ↦ (failed (blank clocks.updated) e, s')
        | ok counted ↦ elim (deposit_stats clocks.deposited counted) [
          | err e ↦ ((none, some e), s')
          | ok total ↦
              list_status clocks.listed (record (blank clocks.updated) { stats = some total }) s'
        ]
      ]

  -- Whether a response may be served at `now`.
  unfoldable pub is_current : Time → Cell → Bool
  is_current now none = false
  is_current now (some (i, r)) = after (r.time_updated +ℤ p.cache_duration) now

  -- A new status is saved, an error too.
  abbrev pub save_status : ℕ → Reply × S → Reply × Dashboard S
  save_status n ((none, e), s) =
      ((none, e), record { stored = s; cached_resp = none; next = suc n })
  save_status n ((some r, e), s) =
      ((some r, e), record { stored = s; cached_resp = some (n, r); next = suc n })

  -- `Status` under its write lock, for a request that read `seen` before.
  unfoldable pub refresh_status : Clocks → Cell → Dashboard S → Reply × Dashboard S
  refresh_status clocks seen d =
      if same_cell d.cached_resp seen
      then save_status d.next (get_status clocks d.stored)
      else ((response_of d.cached_resp, none), d)

  -- `Status` without another request between its two locks.
  unfoldable pub status : Time → Clocks → Dashboard S → Reply × Dashboard S
  unfolding refresh_status
  status now clocks d =
      if is_current now d.cached_resp
      then ((response_of d.cached_resp, none), d)
      else refresh_status clocks d.cached_resp d
