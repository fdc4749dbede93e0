-- ===== src/Memory/Nonces.antt =====
-- `CheckAndSaveNonce` of pool/store/memory/memory.go: nonces of one ID only grow.
use vipnode.Base.{
  String, ◌≡◌, ◌⊎◌, ◌&&◌, List, [], ◌∷◌, arith, eq_iff, eq_refl, ap, if◌then◌else◌, ltb,
}
use vipnode.Base.Exec.{Exec, Result, ok, err, invalid_nonce}
use vipnode.Int.{ℤ, pos, ◌-ℤ◌, ◌≤ℤ◌, ◌<ℤ◌, leb_ℤ, pos_part, neg_part}
use vipnode.Dict.{set, index, get-set}
use vipnode.Clock.{Time}
use vipnode.Store.{expire_nonce}
use vipnode.Memory.State.{MemoryStore}

-- The last nonce saved for an ID, 0 for an unknown one.
abbrev pub last_nonce : String → MemoryStore → ℤ
last_nonce id s = index id (pos 0) s.nonces

-- The nonce is compared with the clock first, then with the last one.
unfoldable pub check_and_save_nonce : Time → String → ℤ → Exec MemoryStore (Unit {0})
check_and_save_nonce now id nonce s =
    if ltb 0 expire_nonce && leb_ℤ nonce (now -ℤ pos expire_nonce)
    then (err invalid_nonce, s)
    else if leb_ℤ nonce (last_nonce id s)
    then (err invalid_nonce, s)
    else (ok tt, record s { nonces = set id nonce s.nonces })

-- One call: an accepted nonce is newer than the window and than the last one, and is saved; a
-- refused one changes nothing.
abbrev pub Checked : Time → String → ℤ → MemoryStore → Result (Unit {0}) × MemoryStore → Type 0
Checked now id nonce s (ok _, s') =
    (now -ℤ pos expire_nonce <ℤ nonce)
    × (last_nonce id s <ℤ nonce)
    × (s' ≡ record s { nonces = set id nonce s.nonces })
Checked now id nonce s (err e, s') =
    (e ≡ invalid_nonce)
    × ((nonce ≤ℤ now -ℤ pos expire_nonce) ⊎ (nonce ≤ℤ last_nonce id s))
    × (s' ≡ s)

pub check_and_save_nonce-Checked :
    (now : Time) (id : String) (nonce : ℤ) (s : MemoryStore)
    → Checked now id nonce s (check_and_save_nonce now id nonce s)
unfolding check_and_save_nonce
check_and_save_nonce-Checked now id nonce s = ground arith

pub check_and_save_nonce-frame :
    (now : Time) (id : String) (nonce : ℤ) (s : MemoryStore)
    → let s' = (check_and_save_nonce now id nonce s).1 in
      (s' ≡ s) ⊎ (s' ≡ record s { nonces = set id nonce s.nonces })
unfolding check_and_save_nonce
check_and_save_nonce-frame now id nonce s = ground arith

-- A request to save a nonce: the clock, the ID and the nonce.
abbrev pub Attempt : Type 0
Attempt = Time × String × ℤ

unfoldable pub attempts : List Attempt → MemoryStore → MemoryStore
attempts [] s = s
attempts ((now, id, nonce) ∷ rest) s = attempts rest (check_and_save_nonce now id nonce s).1

pub last_nonce_grows :
    (now : Time) (id j : String) (nonce : ℤ) (s : MemoryStore)
    → last_nonce j s ≤ℤ last_nonce j (check_and_save_nonce now id nonce s).1
unfolding check_and_save_nonce
last_nonce_grows now id j nonce s = ground (arith, get-set id j nonce s.nonces, eq_iff id j)

attempts_grow :
    (l : List Attempt) (j : String) (s : MemoryStore)
    → last_nonce j s ≤ℤ last_nonce j (attempts l s)
unfolding attempts
attempts_grow [] j s = omega arith
attempts_grow ((now, id, nonce) ∷ rest) j s = omega (
  arith,
  last_nonce_grows now id j nonce s,
  attempts_grow rest j (check_and_save_nonce now id nonce s).1,
)

pub accepted-saves :
    (now : Time) (id : String) (nonce : ℤ) (s : MemoryStore)
    → (check_and_save_nonce now id nonce s).0 ≡ ok tt
    → last_nonce id (check_and_save_nonce now id nonce s).1 ≡ nonce
unfolding check_and_save_nonce
accepted-saves now id nonce s h = ground (arith, get-set id id nonce s.nonces, eq_refl id)

pub old-refused :
    (now : Time) (id : String) (nonce : ℤ) (s : MemoryStore)
    → nonce ≤ℤ last_nonce id s
    → check_and_save_nonce now id nonce s ≡ (err invalid_nonce, s)
unfolding check_and_save_nonce
old-refused now id nonce s h = ground arith

-- An accepted nonce is never accepted again for its ID, nor is a smaller one: whatever nonces are
-- tried in between, for whatever IDs and at whatever times, the later call is refused and changes
-- nothing.
pub accepted_once :
    (now later : Time) (id : String) (nonce replay : ℤ) (between : List Attempt) (s : MemoryStore)
    → (check_and_save_nonce now id nonce s).0 ≡ ok tt
    → replay ≤ℤ nonce
    → let s' = attempts between (check_and_save_nonce now id nonce s).1 in
      check_and_save_nonce later id replay s' ≡ (err invalid_nonce, s')
accepted_once now later id nonce replay between s accepted old =
    let t = (check_and_save_nonce now id nonce s).1 in
    old-refused later id replay (attempts between t) (
      omega (
        arith,
        attempts_grow between id t,
        ap pos_part (accepted-saves now id nonce s accepted),
        ap neg_part (accepted-saves now id nonce s accepted),
      ))
