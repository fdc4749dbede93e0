-- ===== src/Commands/Retries.antt =====
-- The waits between the runs of a command.
use mathlib.Core.List.{append-nil}
use vipnode.Base.{
  ℕ, zero, suc, ◌+◌, ◌*◌, ◌^◌, ◌≤◌, ◌<◌, ◌≡◌, refl, sym, ◌∙◌, ap, ◌↔◌, true, false, some, List, [],
  ◌∷◌, ◌++◌, All, arith, length,
}
use vipnode.Base.Exec.{err, panic}
use vipnode.Commands.{
  log_level, Failure, Attempt, Ended, running, is_retried, wait_time, next_count, after_failure,
  retry,
}

-- The number of `-v` flags makes the command panic exactly when it is the number of levels.
pub log_level_panics :
    (flags : ℕ) → (log_level flags ≡ err (panic "index out of range")) ↔ (flags ≡ 3)
unfolding log_level
log_level_panics zero = ((λ e. cc), (λ e. absurd (omega (arith, e))))
log_level_panics (suc zero) = ((λ e. cc), (λ e. absurd (omega (arith, e))))
log_level_panics (suc (suc zero)) = ((λ e. cc), (λ e. absurd (omega (arith, e))))
log_level_panics (suc (suc (suc zero))) = ((λ e. refl), (λ e. refl))
log_level_panics (suc (suc (suc (suc n)))) =
    ((λ e. ground (arith, e)), (λ e. absurd (omega (arith, e))))

-- A failure that is retried, after a run of at most or of more than 300 seconds, and no signal.
abbrev pub IsQuick : Attempt → Type 0
IsQuick a =
    (e : Failure) × (a.failure ≡ some e)
    × (is_retried e ≡ true)
    × (a.interrupted ≡ false)
    × (a.lasted ≤ 300 * 10 ^ 9)

abbrev pub IsLong : Attempt → Type 0
IsLong a =
    (e : Failure) × (a.failure ≡ some e)
    × (is_retried e ≡ true)
    × (a.interrupted ≡ false)
    × (300 * 10 ^ 9 < a.lasted)

-- The waits from a count on.
abbrev pub waits_from : ℕ → ℕ → List ℕ
waits_from i zero = []
waits_from i (suc n) = wait_time i ∷ waits_from (suc i) n

-- One more wait.
abbrev with_wait : ℕ → List ℕ × Ended → List ℕ × Ended
with_wait w (waits, ended) = (w ∷ waits, ended)

abbrev with_waits : List ℕ → List ℕ × Ended → List ℕ × Ended
with_waits ws (waits, ended) = (ws ++ waits, ended)

after_failure-retried :
    (a : Attempt) (e : Failure) (wait : ℕ) (rest : List ℕ × Ended)
    → a.failure ≡ some e
    → is_retried e ≡ true
    → a.interrupted ≡ false
    → after_failure a.failure a wait rest ≡ with_wait wait rest
after_failure-retried a e wait (waits, ended) failed again on = ground (arith, failed, again, on)

next_count-quick : (i : ℕ) (a : Attempt) → a.lasted ≤ 300 * 10 ^ 9 → next_count i a ≡ suc i
next_count-quick i a h = ground (arith, h)

next_count-long : (i : ℕ) (a : Attempt) → 300 * 10 ^ 9 < a.lasted → next_count i a ≡ 1
next_count-long i a h = ground (arith, h)

-- After quick failures the loop goes on with the count that they lead to.
retry-quick :
    (i : ℕ) (quick rest : List Attempt)
    → All IsQuick quick
    → retry i (quick ++ rest)
      ≡ with_waits (waits_from i (length quick)) (retry (length quick + i) rest)
unfolding retry
retry-quick i [] rest h = ap (λ k. retry k rest) (omega arith)
retry-quick i (a ∷ quick) rest ((e, failed, again, on, fast), more) =
    after_failure-retried a e (wait_time i) _ failed again on
    ∙ ap (λ k. with_wait (wait_time i) (retry k (quick ++ rest))) (next_count-quick i a fast)
    ∙ ap (with_wait (wait_time i)) (retry-quick (suc i) quick rest more)
    ∙ ap (λ k. with_waits (waits_from i (suc (length quick))) (retry k rest)) (omega arith)

retry_to_end :
    (i : ℕ) (quick : List Attempt)
    → All IsQuick quick
    → retry i quick ≡ (waits_from i (length quick), running)
unfolding retry
retry_to_end i quick h =
    ap (retry i) (sym (append-nil quick))
    ∙ retry-quick i quick [] h
    ∙ ap (λ ws. (ws, running)) (append-nil (waits_from i (length quick)))

retry-long :
    (i : ℕ) (a : Attempt) (rest : List Attempt)
    → IsLong a
    → retry i (a ∷ rest) ≡ with_wait (wait_time i) (retry 1 rest)
unfolding retry
retry-long i a rest (e, failed, again, on, slow) =
    after_failure-retried a e (wait_time i) _ failed again on
    ∙ ap (λ k. with_wait (wait_time i) (retry k rest)) (next_count-long i a slow)

-- Runs of at most 300 seconds, one of more and again some of at most 300, which all fail in a way that
-- is retried, without a signal: the waits up to the one after the long run follow the sequence from its
-- first member on, and those after that from its second member on; the loop is still running.
pub retry_waits :
    (quick : List Attempt) (long : Attempt) (after : List Attempt)
    → All IsQuick quick
    → IsLong long
    → All IsQuick after
    → retry 0 (quick ++ (long ∷ after)) ≡ (
      waits_from 0 (length quick) ++ (wait_time (length quick) ∷ waits_from 1 (length after)),
      running,
    )
retry_waits quick long after h k l =
    let first = with_waits (waits_from 0 (length quick)) in
    let count : length quick + 0 ≡ length quick = omega arith in
    retry-quick 0 quick (long ∷ after) h
    ∙ ap (λ i. first (retry i (long ∷ after))) count
    ∙ ap first (retry-long (length quick) long after k)
    ∙ ap (λ r. first (with_wait (wait_time (length quick)) r)) (retry_to_end 1 after l)
