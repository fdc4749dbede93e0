-- ===== src/Status/Cached.antt =====
-- What the cache of `Status` promises.
use vipnode.Base.{ℕ, suc, subst, ◌<◌, ◌≡◌, refl, true, false, none, some, arith}
use vipnode.Base.Exec.{result_keeps}
use vipnode.Int.{◌+ℤ◌}
use vipnode.Clock.{Time, after}
use vipnode.Status.{
  PoolStatus, StatusResponse, Dashboard, Clocks, Cell, Reply, same_cell, get_status, list_status,
  deposit_stats, is_current, save_status, refresh_status, status,
}

-- The numbers of earlier responses are below the next one.
abbrev pub IsNumbered : ℕ → Cell → Type 0
IsNumbered next none = Unit
IsNumbered next (some (i, r)) = i < next

-- A response carries the time of its refresh and the error beside it.
abbrev Stamped : Time → Reply → Type 0
Stamped now (none, e) = Unit
Stamped now (some r, e) = (r.time_updated ≡ now) × (r.error ≡ e)

module _ {S : Type 0} (p : PoolStatus S) where
  list_status-Stamped :
      (now : Time) (r : StatusResponse) (s : S)
      → r.error ≡ none
      → Stamped r.time_updated (list_status p now r s).0
  unfolding list_status
  list_status-Stamped now r s clean = ground (arith, clean)

  get_status-Stamped : (clocks : Clocks) (s : S) → Stamped clocks.updated (get_status p clocks s).0
  unfolding get_status
  get_status-Stamped clocks s =
      let s' = (p.store.stats clocks.counted s).1 in
      result_keeps P (p.store.stats clocks.counted s).0 _ _
        (λ counted e.
          result_keeps P (deposit_stats p clocks.deposited counted) _ _
            (λ total e'. list_status-Stamped clocks.listed _ s' refl) (λ x e'. tt))
        (λ x e. (refl, refl))
    where
      P : Reply × S → Type 0
      P q = Stamped clocks.updated q.0

  -- What follows the save of a reply.
  abbrev pub Cached : Time → Cell → Reply × Dashboard S → Type 0
  Cached updated seen (reply, d') =
      (resp : StatusResponse)
      → reply.0 ≡ some resp
      → (resp.time_updated ≡ updated)
        × (resp.error ≡ reply.1)
        × ((later : Time) (clocks : Clocks)
            → after (updated +ℤ p.cache_duration) later ≡ true
            → status p later clocks d' ≡ ((some resp, none), d'))
        × ((clocks : Clocks) → refresh_status p clocks seen d' ≡ ((some resp, none), d'))

  newer-same_cell :
      (n : ℕ) (r : StatusResponse) (seen : Cell)
      → IsNumbered n seen
      → same_cell (some (n, r)) seen ≡ false
  newer-same_cell n r none old = refl
  newer-same_cell n r (some (i, x)) old = ground arith

  same_cell_refl : (c : Cell) → same_cell c c ≡ true
  same_cell_refl none = refl
  same_cell_refl (some (i, r)) = ground arith

  save_status-Cached :
      (updated : Time) (n : ℕ) (seen : Cell) (g : Reply × S)
      → IsNumbered n seen
      → Stamped updated g.0
      → Cached updated seen (save_status p n g)
  unfolding status refresh_status is_current
  save_status-Cached updated n seen ((none, e), s) old stamped resp h = cc
  save_status-Cached updated n seen ((some r, e), s) old stamped resp h =
      let same : r ≡ resp = cc in
      subst
        (λ x.
          (x.time_updated ≡ updated)
          × (x.error ≡ e)
          × ((later : Time) (clocks : Clocks)
              → after (updated +ℤ p.cache_duration) later ≡ true
              → status p later clocks
                  (record { stored = s; cached_resp = some (n, r); next = suc n })
                ≡ ((some x, none), record { stored = s; cached_resp = some (n, r); next = suc n }))
          × ((clocks : Clocks)
              → refresh_status p clocks seen
                  (record { stored = s; cached_resp = some (n, r); next = suc n })
                ≡ ((some x, none), record { stored = s; cached_resp = some (n, r); next = suc n })))
        same
        (
          stamped.0,
          stamped.1,
          (λ later clocks current. rw (stamped.0, is_current) (rw current refl)),
          (λ clocks. rw (newer-same_cell n r seen old) refl),
        )

  -- When nothing current is cached, and the cached response has an earlier number than the next, a request for the status refreshes it. The response, if there is
  -- one, has the time of the refresh and the error beside it; every request within the cache's
  -- duration is answered with it, without an error and without a look at the store, and so is one
  -- that had found the old response outdated and waited for the lock meanwhile.
  pub status-Cached :
      (now : Time) (clocks : Clocks) (d : Dashboard S)
      → IsNumbered d.next d.cached_resp
      → is_current p now d.cached_resp ≡ false
      → Cached clocks.updated d.cached_resp (status p now clocks d)
  unfolding status refresh_status
  status-Cached now clocks d numbered old =
      rw (old, same_cell_refl d.cached_resp)
        (save_status-Cached clocks.updated d.next d.cached_resp (get_status p clocks d.stored)
          numbered (get_status-Stamped clocks d.stored))
