-- ===== src/Commands/Drift.antt =====
-- agent.go: the messages about a node that falls behind the pool's latest block.
use vipnode.Base.{
  ℕ, ◌-◌, ◌≤◌, ◌<◌, ◌≡◌, refl, ◌⊎◌, Bool, true, false, List, [], ◌∷◌, ◌++◌, All, if_keeps, ltb,
  nat_eq, arith, if◌then◌else◌,
}

-- With how far the node is behind.
pub data DriftNotice : Type 0 where
  behind caught_up : ℕ → DriftNotice

-- `maxBlockNumberDrift`
abbrev pub max_drift : ℕ
max_drift = 3

abbrev pub drift : ℕ → ℕ → ℕ
drift block latest = if ltb block latest then latest - block else 0

-- The closure of `BlockNumberCallback` at a drift, over its variable `drifting`.
unfoldable pub on_drift : ℕ → Bool → List DriftNotice × Bool
on_drift delta drifting =
    if nat_eq delta 0
    then ([], drifting)
    else if ltb max_drift delta
    then (if drifting then ([], true) else (behind delta ∷ [], true))
    else if drifting
    then (caught_up delta ∷ [], false)
    else ([], false)

-- The calls with the block of the node and the pool's latest one, in order.
unfoldable pub on_blocks : List (ℕ × ℕ) → Bool → List DriftNotice × Bool
unfolding on_drift
on_blocks [] drifting = ([], drifting)
on_blocks ((block, latest) ∷ rest) drifting =
    let (now, after) = on_drift (drift block latest) drifting in
    let (later, last) = on_blocks rest after in (now ++ later, last)

-- Messages that take turns, with the one that is next: that the node caught up, or that it is behind;
-- it is behind by more than the bound, and caught up to within it.
abbrev pub TakeTurns : Bool → List DriftNotice → Type 0
TakeTurns drifting [] = Unit
TakeTurns false (behind n ∷ rest) = (max_drift < n) × TakeTurns true rest
TakeTurns true (caught_up n ∷ rest) = (n ≤ max_drift) × TakeTurns false rest
TakeTurns _ _ = ⊥

-- What one call says keeps the turns of what is said later.
abbrev Keeps : Bool → List DriftNotice × Bool → Type 0
Keeps drifting (now, after) =
    (later : List DriftNotice) → TakeTurns after later → TakeTurns drifting (now ++ later)

on_drift-Keeps : (delta : ℕ) (drifting : Bool) → Keeps drifting (on_drift delta drifting)
unfolding on_drift
on_drift-Keeps delta true =
    if_keeps (Keeps true) (nat_eq delta 0) _ _ (λ _ later h. h)
      (λ _.
        if_keeps (Keeps true) (ltb max_drift delta) _ _ (λ _ later h. h)
          (λ e later h. (ground (arith, e), h)))
on_drift-Keeps delta false =
    if_keeps (Keeps false) (nat_eq delta 0) _ _ (λ _ later h. h)
      (λ _.
        if_keeps (Keeps false) (ltb max_drift delta) _ _ (λ e later h. (ground (arith, e), h))
          (λ _ later h. h))

on_blocks-Turns :
    (blocks : List (ℕ × ℕ)) (drifting : Bool) → TakeTurns drifting (on_blocks blocks drifting).0
unfolding on_blocks
on_blocks-Turns [] true = tt
on_blocks-Turns [] false = tt
on_blocks-Turns ((block, latest) ∷ rest) drifting =
    let (now, after) = on_drift (drift block latest) drifting in
    on_drift-Keeps (drift block latest) drifting (on_blocks rest after).0
      (on_blocks-Turns rest after)

on_drift-silent : (delta : ℕ) → (delta ≡ 0) ⊎ (max_drift < delta) → on_drift delta true ≡ ([], true)
unfolding on_drift
on_drift-silent delta h = ground (arith, h)

-- Whatever blocks the node and the pool have, the messages take turns, a first one being that the node
-- is behind.
pub on_blocks-TakeTurns : (blocks : List (ℕ × ℕ)) → TakeTurns false (on_blocks blocks false).0
on_blocks-TakeTurns blocks = on_blocks-Turns blocks false

-- Once a node has drifted, as long as it is either level with the pool or behind by more than the bound,
-- nothing is said, however often it falls behind again.
pub on_blocks-silent :
    (blocks : List (ℕ × ℕ))
    → All (λ (b : ℕ × ℕ). (drift b.0 b.1 ≡ 0) ⊎ (max_drift < drift b.0 b.1)) blocks
    → on_blocks blocks true ≡ ([], true)
unfolding on_blocks
on_blocks-silent [] h = refl
on_blocks-silent ((block, latest) ∷ rest) (here, more) =
    rw (on_drift-silent (drift block latest) here) (rw (on_blocks-silent rest more) refl)
