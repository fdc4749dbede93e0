-- ===== src/Badger/Replay/Sequence.antt =====
-- Nonces of pool/store/badger/badger.go over any sequence of requests.
use vipnode.Base.{
  ℕ, String, ◌≡◌, refl, ap, sym, subst, ◌∙◌, ◌⊎◌, false, inl, inr, Option, some, List, [], ◌∷◌,
  ◌==◌, Bool-cases, eq_iff, arith,
}
use vipnode.Base.Exec.{Result, ok, err, invalid_nonce, Result-cases}
use vipnode.Int.{ℤ, pos, ◌+ℤ◌, ◌≤ℤ◌, leb_ℤ, int_laws}
use vipnode.Clock.{Time, before}
use vipnode.Store.{expire_nonce}
use vipnode.Badger.{Engine, EngineLaws, find_item, get_item}
use vipnode.Badger.Keys.{Kind, print_key}
use vipnode.Badger.Items.{value_of, kinds_same}
use vipnode.Badger.Nonces.{check_and_save_nonce, is_used}
use vipnode.Badger.Replay.{
  is_old, saved, old-refused, used-refused, fresh-accepted, unread-fails, find-saved,
  accepted-saved, written,
}

-- A request: the time that has passed since the one before, the ID and the nonce.
abbrev pub Attempt : Type 0
Attempt = ℕ × String × ℤ

-- The clock and the database after requests, from a time on.
unfoldable pub attempts : {B T : Type 0} (e : Engine B T) → List Attempt → Time → T → Time × T
attempts e [] now t = (now, t)
attempts e ((wait, id, nonce) ∷ rest) now t =
    attempts e rest (now +ℤ pos wait) (check_and_save_nonce e (now +ℤ pos wait) id nonce t).1

gone :
    (now mid later end : Time) (slack : ℕ)
    → now ≤ℤ mid
    → (mid +ℤ pos expire_nonce) ≤ℤ (end +ℤ pos slack)
    → before later end ≡ false
    → (now +ℤ pos expire_nonce) ≤ℤ (later +ℤ pos slack)
unfolding before
gone now mid later end slack h lives dead = grind int_laws

passes : (from : Time) (wait : ℕ) → from ≤ℤ (from +ℤ pos wait)
passes from wait = grind int_laws

still :
    (end mid later : Time) (slack : ℕ)
    → end ≤ℤ (mid +ℤ pos slack)
    → mid ≤ℤ later
    → end ≤ℤ (later +ℤ pos slack)
still end mid later slack passed h = grind int_laws

too_late :
    {A : Type 0} {x y : A} (now later nonce replay : ℤ) (slack : ℕ)
    → (now +ℤ pos expire_nonce) ≤ℤ (later +ℤ pos slack)
    → (nonce +ℤ pos slack) ≤ℤ now
    → replay ≤ℤ nonce
    → is_old later replay ≡ false
    → x ≡ y
too_late now later nonce replay slack passed past smaller young = grind int_laws

module _ {B T : Type 0} {e : Engine B T} (laws : EngineLaws e) (slack : ℕ)
    (lives : (at : Time)
      → (at +ℤ pos expire_nonce) ≤ℤ (e.expires at (pos expire_nonce) +ℤ pos slack))
    (accepted_at : Time) (id : String) (nonce : ℤ) where
  -- From a time on, the entry of the ID has a nonce that is no smaller, or its life has passed.
  abbrev Guarded : Time → T → Type 0
  Guarded from t =
      (later : Time)
      → from ≤ℤ later
      → ((n : ℤ) × (find_item e e.nonces (print_key Kind.nonce id) (e.at later t) ≡ ok (some n))
          × (nonce ≤ℤ n))
        ⊎ ((accepted_at +ℤ pos expire_nonce) ≤ℤ (later +ℤ pos slack))

  saved-Guarded :
      (mid : Time) (n : ℤ) (t : T)
      → accepted_at ≤ℤ mid
      → nonce ≤ℤ n
      → Guarded mid (saved laws mid id n t)
  saved-Guarded mid n t h k later from =
      elim (Bool-cases (before later (e.expires mid (pos expire_nonce)))) [
        | inl alive ↦ inl (n, find-saved laws mid later id n t from ∙ rw alive refl, k)
        | inr dead ↦
            inr (
              gone accepted_at mid later (e.expires mid (pos expire_nonce)) slack h (lives mid)
                dead)
      ]

  find-at :
      (mid later : Time) (t : T)
      → mid ≤ℤ later
      → find_item e e.nonces (print_key Kind.nonce id) (e.at later (e.at mid t))
        ≡ find_item e e.nonces (print_key Kind.nonce id) (e.at later t)
  find-at mid later t h =
      ap (find_item e e.nonces (print_key Kind.nonce id)) (laws.at_at mid later t h)

  find-saved_other :
      (mid later : Time) (j : String) (n : ℤ) (t : T)
      → mid ≤ℤ later
      → (j == id) ≡ false
      → find_item e e.nonces (print_key Kind.nonce id) (e.at later (saved laws mid j n t))
        ≡ find_item e e.nonces (print_key Kind.nonce id) (e.at later t)
  unfolding find_item get_item
  find-saved_other mid later j n t h other =
      let key = print_key Kind.nonce id in
      let (v, encoded, decoded) = laws.nonces.decode-encode n in
      let kept =
        laws.read-at-write_expiring mid later (pos expire_nonce) (print_key Kind.nonce j) key v
          (e.at mid t) h in
      let after =
        λ (p : Result (Unit {0}) × T). value_of e e.nonces (e.read key (e.at later p.1)) in
      ap after
        (written laws mid (pos expire_nonce) (print_key Kind.nonce j) n v (e.at mid t) encoded)
      ∙ (ap (value_of e e.nonces) kept
          ∙ rw (kinds_same Kind.nonce j id, other)
              (ap (λ u. value_of e e.nonces (e.read key u)) (laws.at_at mid later t h)))

  at-Guarded : (from mid : Time) (t : T) → from ≤ℤ mid → Guarded from t → Guarded mid (e.at mid t)
  at-Guarded from mid t h g later k = elim (g later (omega arith)) [
    | inl (n, found, above) ↦ inl (n, find-at mid later t k ∙ found, above)
    | inr passed ↦ inr passed
  ]

  other-Guarded :
      (from mid : Time) (j : String) (n : ℤ) (t : T)
      → from ≤ℤ mid
      → (j == id) ≡ false
      → Guarded from t
      → Guarded mid (saved laws mid j n t)
  other-Guarded from mid j n t h other g later k = elim (g later (omega arith)) [
    | inl (m, found, above) ↦ inl (m, find-saved_other mid later j n t k other ∙ found, above)
    | inr passed ↦ inr passed
  ]

  own-Guarded :
      (from mid : Time) (n : ℤ) (last : Option ℤ) (t : T)
      → from ≤ℤ mid
      → accepted_at ≤ℤ mid
      → find_item e e.nonces (print_key Kind.nonce id) (e.at mid t) ≡ ok last
      → is_used e last n ≡ false
      → Guarded from t
      → Guarded mid (saved laws mid id n t)
  own-Guarded from mid n last t h start found unused g = elim (g mid h) [
    | inl (m, held, above) ↦
        let same : last ≡ some m = cc in
        let less : leb_ℤ n m ≡ false = sym (ap (λ o. is_used e o n) same) ∙ unused in
        saved-Guarded mid n t start (ground (arith, less, above))
    | inr passed ↦ λ later k. inr (still (accepted_at +ℤ pos expire_nonce) mid later slack passed k)
  ]

  accepted-Guarded :
      (from mid : Time) (j : String) (n : ℤ) (last : Option ℤ) (t : T)
      → from ≤ℤ mid
      → accepted_at ≤ℤ mid
      → find_item e e.nonces (print_key Kind.nonce j) (e.at mid t) ≡ ok last
      → is_used e last n ≡ false
      → Guarded from t
      → Guarded mid (saved laws mid j n t)
  accepted-Guarded from mid j n last t h start found unused g = elim (Bool-cases (j == id)) [
    | inr other ↦ other-Guarded from mid j n t h other g
    | inl same ↦
        let e_id : j ≡ id = (eq_iff j id).0 same in
        subst (λ i. Guarded mid (saved laws mid i n t)) (sym e_id)
          (own-Guarded from mid n last t h start
            (subst (λ i. find_item e e.nonces (print_key Kind.nonce i) (e.at mid t) ≡ ok last) e_id
              found)
            unused g)
  ]

  -- Each request keeps the guard.
  step-Guarded :
      (from mid : Time) (j : String) (n : ℤ) (t : T)
      → from ≤ℤ mid
      → accepted_at ≤ℤ mid
      → Guarded from t
      → Guarded mid (check_and_save_nonce e mid j n t).1
  step-Guarded from mid j n t h start g = elim (Bool-cases (is_old mid n)) [
    | inl old ↦ rw (old-refused laws mid j n t old) (λ later k. g later (omega arith))
    | inr new ↦ elim (Result-cases (find_item e e.nonces (print_key Kind.nonce j) (e.at mid t))) [
      | inr (x, bad) ↦ rw (unread-fails laws mid j n t x new bad) (at-Guarded from mid t h g)
      | inl (last, found) ↦ elim (Bool-cases (is_used e last n)) [
        | inl used ↦
            rw (used-refused laws mid j n t last new found used) (at-Guarded from mid t h g)
        | inr unused ↦
            rw (fresh-accepted laws mid j n t last new found unused)
              (accepted-Guarded from mid j n last t h start found unused g)
      ]
    ]
  ]

  attempts-Guarded :
      (l : List Attempt) (from : Time) (t : T)
      → accepted_at ≤ℤ from
      → Guarded from t
      → (accepted_at ≤ℤ (attempts e l from t).0)
        × Guarded (attempts e l from t).0 (attempts e l from t).1
  unfolding attempts
  attempts-Guarded [] from t start g = (start, g)
  attempts-Guarded ((wait, j, n) ∷ rest) from t start g =
      let mid = from +ℤ pos wait in
      let later_mid = passes from wait in
      attempts-Guarded rest mid (check_and_save_nonce e mid j n t).1 (omega (arith, later_mid))
        (step-Guarded from mid j n t later_mid (omega (arith, later_mid)) g)

  Guarded-refused :
      (later : Time) (replay : ℤ) (t : T)
      → Guarded later t
      → (nonce +ℤ pos slack) ≤ℤ accepted_at
      → replay ≤ℤ nonce
      → (check_and_save_nonce e later id replay t).0 ≡ err invalid_nonce
  Guarded-refused later replay t g past smaller = elim (Bool-cases (is_old later replay)) [
    | inl old ↦ ap (λ p. p.0) (old-refused laws later id replay t old)
    | inr young ↦ elim (g later (omega arith)) [
      | inl (m, found, above) ↦
          ap (λ p. p.0)
            (used-refused laws later id replay t (some m) young found
              (ground (arith, smaller, above)))
      | inr passed ↦ too_late accepted_at later nonce replay slack passed past smaller young
    ]
  ]

  -- Over the badger store, an accepted nonce that was not in the future is never accepted again for its
  -- ID, nor is a smaller one, whatever nonces are tried in between, for whatever IDs and at whatever later
  -- times. If entries may expire early, by the slack, the nonce has to be older than that when it is
  -- accepted. badger and gob behave as documented.
  pub never_again :
      (replay : ℤ) (between : List Attempt) (wait : ℕ) (t : T)
      → (check_and_save_nonce e accepted_at id nonce t).0 ≡ ok tt
      → (nonce +ℤ pos slack) ≤ℤ accepted_at
      → replay ≤ℤ nonce
      → (check_and_save_nonce e
          ((attempts e between accepted_at (check_and_save_nonce e accepted_at id nonce t).1).0
            +ℤ pos wait)
          id
          replay
          (attempts e between accepted_at (check_and_save_nonce e accepted_at id nonce t).1).1).0
        ≡ err invalid_nonce
  never_again replay between wait t accepted past smaller =
      let (new, state) = accepted-saved laws accepted_at id nonce t accepted in
      let first : Guarded accepted_at (check_and_save_nonce e accepted_at id nonce t).1 =
        rw state (saved-Guarded accepted_at nonce t (omega arith) (omega arith)) in
      let after = (check_and_save_nonce e accepted_at id nonce t).1 in
      let (start, guarded) = attempts-Guarded between accepted_at after (omega arith) first in
      let (end, last) = attempts e between accepted_at after in
      let later_end = passes end wait in
      Guarded-refused (end +ℤ pos wait) replay last
        (λ later k. guarded later (omega (arith, later_end))) past smaller
