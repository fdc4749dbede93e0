-- ===== src/Payment/Subscription.antt =====
-- pool/payment/contract.go: the loop that handles the balance events of the contract. The handling of one
-- event stands in Payment/Contract.antt; here a run of the handler ends, with or without an error.
use vipnode.Base.{◌*◌, ◌≡◌, ◌≢◌, refl, false, List, [], ◌∷◌, All, if◌then◌else◌}
use vipnode.Base.Exec.{Result, ok, err}
use vipnode.Int.{ℤ, pos, ◌+ℤ◌}
use vipnode.Clock.{Time, second, zero_time, after}
use vipnode.Payment.Cache.{BalanceCache, reset}

-- Where the loop is: in the handler, left without an error, or given up.
pub data Listening : Type 0 where
  handling left gave_up : Listening

abbrev pub retry_timeout : ℤ
retry_timeout = pos (600 * second)

-- The loop of `SubscribeBalance`, over how the runs of its handler end and when; `last_err` is never
-- set in it.
unfoldable pub event_loop :
    Time → List (Result (Unit {0}) × Time) → BalanceCache → Listening × BalanceCache
event_loop last_err [] cache = (handling, cache)
event_loop last_err ((ok _, now) ∷ rest) cache = (left, cache)
event_loop last_err ((err e, now) ∷ rest) cache =
    let more = event_loop last_err rest cache in
    if after (last_err +ℤ retry_timeout) now then (gave_up, reset retry_timeout cache) else more

-- The goroutine, with the zero time as the last error.
abbrev pub subscribe_loop :
    List (Result (Unit {0}) × Time) → BalanceCache → Listening × BalanceCache
subscribe_loop = event_loop zero_time

-- However often the handler fails, from ten minutes after the year 1 began the loop never gives up, and the
-- cache stays without a time to expire.
pub subscribe_loop_persists :
    (ends : List (Result (Unit {0}) × Time)) (cache : BalanceCache)
    → All (λ (e : Result (Unit {0}) × Time). after (zero_time +ℤ retry_timeout) e.1 ≡ false) ends
    → ((subscribe_loop ends cache).0 ≢ gave_up) × ((subscribe_loop ends cache).1 ≡ cache)
unfolding event_loop
subscribe_loop_persists [] cache h = ((λ e. cc), refl)
subscribe_loop_persists ((ok _, now) ∷ rest) cache h = ((λ e. cc), refl)
subscribe_loop_persists ((err x, now) ∷ rest) cache (here, more) =
    rw here (subscribe_loop_persists rest cache more)
